-- ===== src/Runtime/ConfigTests.antt =====
-- The OpenSSL config and the reports of the npm runtime on examples.
use keyobject_aws_kms.Prelude.{
  ◌≡◌, refl, ◌⊎◌, true, false, some, any, ◌∷◌, ◌++◌, Text, codes, starts_with,
}
use keyobject_aws_kms.Runtime.Host.{Failure, error, caused_error, message_of}
use keyobject_aws_kms.Runtime.Config.{
  returns, throws, is_control, unsafe_module_path, quote_config_value, split_lines, join_lines,
  render_config,
}
use keyobject_aws_kms.Runtime.Config.Quoting.{read_quoted, read_quoted-quote_config_value}
use keyobject_aws_kms.Runtime.Config.Rendering.{HasOneLine, replaced, render_config-HasOneLine}
use keyobject_aws_kms.Runtime.Entry.{unsupported, permission_denied, code_or, refused}
use keyobject_aws_kms.Runtime.Entry.Denied.{FirstDenied, NoneDenied, refused-NoneDenied}

abbrev path : Text
path = codes "/opt/$x \"q\"/aws-kms.so"

abbrev template : Text
template = codes "[a]\n module = $ENV::AWSKMS_MODULE \nb = 1\n"

abbrev rendered : Text
rendered = codes "[a]\n module = \"/opt/\\$x \\\"q\\\"/aws-kms.so\"\nb = 1\n"

abbrev denied : Failure
denied = error (some (codes "EACCES")) (codes "no")

abbrev integrity : Failure
integrity = caused_error (some (codes "ERR_AWSKMS_TEMP_INTEGRITY")) (codes "changed") denied

render_config_test : render_config template path ≡ returns rendered
unfolding render_config keyobject_aws_kms.Runtime.Config.count_module_lines split_lines
    keyobject_aws_kms.Runtime.Config.is_module_line keyobject_aws_kms.Runtime.Config.module_prefix
    starts_with keyobject_aws_kms.Runtime.Config.with_module quote_config_value is_control
    join_lines keyobject_aws_kms.Runtime.Config.replace_lines
    keyobject_aws_kms.Runtime.Config.escape
render_config_test = refl

read_quoted-quote_config_value_example :
    ((any is_control path ≡ false)
      × (q : Text) × (quote_config_value path ≡ returns q)
      × (read_quoted q ≡ some path))
    ⊎ ((any is_control path ≡ true) × (quote_config_value path ≡ throws unsafe_module_path))
read_quoted-quote_config_value_example = read_quoted-quote_config_value path

render_config-HasOneLine_example :
    (one : HasOneLine (split_lines template)) × (quoted : Text) × (quote_config_value path
      ≡ returns quoted)
    × (rendered ≡ join_lines (replaced one quoted))
    × (template ≡ join_lines (one.before ++ one.line ∷ one.after))
render_config-HasOneLine_example =
    render_config-HasOneLine template path rendered render_config_test

refused-NoneDenied_example :
    ((found : Failure) × FirstDenied found integrity
      × (refused integrity ≡ unsupported permission_denied (message_of found)))
    ⊎ (NoneDenied integrity
        × (refused integrity
            ≡ unsupported (code_or (codes "ERR_AWSKMS_UNKNOWN") integrity) (message_of integrity)))
refused-NoneDenied_example = refused-NoneDenied integrity

-- ===== src/Cli/Tests.antt =====
-- Runs of npm/core/bin/awskms.js on concrete values.
use keyobject_aws_kms.Prelude.{
  ◌≡◌, refl, ◌↔◌, starts_with, text_eq, Bool, true, false, none, some, List, [], ◌∷◌, ◌++◌, All,
  keep, Text, codes,
}
use keyobject_aws_kms.Cli.NodeOptions.{
  parse_node_options, config_prefix, is_config, has_openssl_config, without_openssl_config,
  options_with_config, node_options_with_config, quote_arguments,
}
use keyobject_aws_kms.Cli.NodeOptions.RoundTrip.{IsKept, IsNonempty, parse-quote_arguments_iff}
use keyobject_aws_kms.Cli.NodeOptions.Retained.{
  without_openssl_config_iff, options_with_config-config, parse-node_options_with_config,
}
use keyobject_aws_kms.Cli.Command.{
  Process, supported, Runtime, Request, Spawned, exited, exit_code, next, outcome, split_separator,
  is_node_target, exec_request, check_request, parse_replace_option, replace_flag, separator,
}
use keyobject_aws_kms.Cli.Dispatch.{exec, check}
use keyobject_aws_kms.Cli.Command.Spawning.{
  IsConfigured, IsAuthorized, exec_request-IsAuthorized, exec_request-replaced,
  check_request-IsConfigured,
}
use keyobject_aws_kms.Cli.Dispatch.Status.{exec-success, check-success}

abbrev same_case : Text → Text
same_case s = s

abbrev inherited_options : Text
inherited_options = codes "-r \"a b\" --openssl-config=/x"

abbrev inherited_arguments : List Text
inherited_arguments = codes "-r" ∷ codes "a b" ∷ codes "--openssl-config=/x" ∷ []

abbrev process : Process
process = record {
  openssl_conf = none;
  node_options = some inherited_options;
  exec_argv = [];
  exec_path = codes "/bin/node";
}

abbrev runtime : Runtime
runtime = record {
  is_supported = supported;
  module_path = some (codes "/m");
  openssl_config_path = some (codes "/c");
}

abbrev rest : List Text
rest = replace_flag ∷ separator ∷ codes "node" ∷ codes "a.js" ∷ []

abbrev written_options : Text
written_options = codes "\"-r\" \"a b\" \"--openssl-config=/c\""

abbrev request : Request
request = record {
  command = codes "node";
  arguments = codes "a.js" ∷ [];
  environment = record { openssl_conf = codes "/c"; node_options = some written_options };
}

abbrev spawn : Request → Spawned
spawn r = exited (some 0)

abbrev check_script : Text
check_script = codes "/check.mjs"

abbrev check_run : Request
check_run = record {
  command = codes "/bin/node";
  arguments = codes "--openssl-config=/c" ∷ check_script ∷ [];
  environment = record { openssl_conf = codes "/c"; node_options = some written_options };
}

parsed : parse_node_options (some inherited_options) ≡ some inherited_arguments
unfolding parse_node_options
parsed = refl

exec_requested : exec_request same_case process runtime rest ≡ next request
unfolding exec_request node_options_with_config text_eq parse_node_options has_openssl_config
    starts_with is_node_target
exec_requested = refl

check_requested : check_request check_script process runtime (replace_flag ∷ []) ≡ next check_run
unfolding check_request node_options_with_config text_eq parse_node_options has_openssl_config
    starts_with
check_requested = refl

exec_request-IsAuthorized_example : IsAuthorized same_case process runtime rest request
exec_request-IsAuthorized_example =
    exec_request-IsAuthorized same_case process runtime rest {request = request} exec_requested

check_request-IsConfigured_example :
    (replace : Bool) × (config : Text) × (parse_replace_option (replace_flag ∷ []) ≡ next replace)
    × (runtime.openssl_config_path ≡ some config)
    × (check_run.command ≡ process.exec_path)
    × (check_run.arguments ≡ (config_prefix ++ config) ∷ check_script ∷ [])
    × IsConfigured process replace [] config check_run.environment
check_request-IsConfigured_example =
    check_request-IsConfigured check_script process runtime (replace_flag ∷ [])
      {request = check_run} check_requested

split : split_separator rest ≡ some (replace_flag ∷ [], codes "node" ∷ codes "a.js" ∷ [])
unfolding split_separator text_eq
split = refl

node_target : is_node_target same_case process request.command ≡ true
unfolding is_node_target text_eq
node_target = refl

arguments-IsKept : All IsKept inherited_arguments
arguments-IsKept = (
  (refl, (refl, tt)),
  (
    (refl, (refl, (refl, tt))),
    (
      (
        refl,
        (
          refl,
          (
            refl,
            (
              refl,
              (
                refl,
                (
                  refl,
                  (
                    refl,
                    (
                      refl,
                      (
                        refl,
                        (
                          refl,
                          (
                            refl,
                            (refl, (refl, (refl, (refl, (refl, (refl, (refl, (refl, tt)))))))),
                          ),
                        ),
                      ),
                    ),
                  ),
                ),
              ),
            ),
          ),
        ),
      ),
      tt,
    ),
  ),
)

path-IsKept : IsKept (codes "/c")
path-IsKept = (refl, (refl, tt))

exec_request-replaced_example :
    (has_openssl_config request.arguments ≡ false)
    × (read : List Text) × (parse_node_options request.environment.node_options ≡ some read)
    × (keep is_config read ≡ (config_prefix ++ codes "/c") ∷ [])
exec_request-replaced_example =
    exec_request-replaced same_case process runtime rest [] (codes "node" ∷ codes "a.js" ∷ [])
      {request = request} {config = codes "/c"} {args = inherited_arguments} exec_requested split
      node_target refl parsed arguments-IsKept path-IsKept

exec_ends : exit_code (outcome (exec same_case spawn check_script process runtime rest)) ≡ 0
unfolding exec exec_request node_options_with_config text_eq parse_node_options has_openssl_config
    starts_with is_node_target exit_code
exec_ends = refl

check_ends :
    exit_code (outcome (check same_case spawn check_script process runtime (replace_flag ∷ []))) ≡ 0
unfolding check check_request node_options_with_config text_eq parse_node_options has_openssl_config
    starts_with exit_code
check_ends = refl

exec-success_example :
    (r : Request) × (exec_request same_case process runtime rest ≡ next r)
    × (spawn r ≡ exited (some 0))
exec-success_example = exec-success same_case spawn check_script process runtime rest exec_ends

check-success_example :
    (r : Request) × (check_request check_script process runtime (replace_flag ∷ []) ≡ next r)
    × (spawn r ≡ exited (some 0))
check-success_example =
    check-success same_case spawn check_script process runtime (replace_flag ∷ []) check_ends

parse-node_options_with_config_example :
    (out : Text) × (node_options_with_config (some inherited_options) (codes "/c") ≡ some out)
    × (parse_node_options (some out)
        ≡ some (without_openssl_config inherited_arguments ++ (config_prefix ++ codes "/c") ∷ []))
parse-node_options_with_config_example =
    parse-node_options_with_config (some inherited_options) (codes "/c")
      {args = inherited_arguments} parsed arguments-IsKept path-IsKept

options_with_config-config_example :
    keep is_config (options_with_config inherited_arguments (codes "/c"))
    ≡ (config_prefix ++ codes "/c") ∷ []
options_with_config-config_example = options_with_config-config inherited_arguments (codes "/c")

without_openssl_config_iff_example :
    (without_openssl_config inherited_arguments ≡ inherited_arguments)
    ↔ (has_openssl_config inherited_arguments ≡ false)
without_openssl_config_iff_example = without_openssl_config_iff inherited_arguments

arguments-IsNonempty : All IsNonempty inherited_arguments
arguments-IsNonempty = (refl, (refl, (refl, tt)))

parse-quote_arguments_iff_example :
    (parse_node_options (some (quote_arguments inherited_arguments)) ≡ some inherited_arguments)
    ↔ All IsKept inherited_arguments
parse-quote_arguments_iff_example =
    parse-quote_arguments_iff inherited_arguments arguments-IsNonempty

-- An argument with a line end comes back as another one.
line_end_lost :
    parse_node_options (some (quote_arguments ((b'a' ∷ 10 ∷ b'b' ∷ []) ∷ [])))
    ≡ some (codes "anb" ∷ [])
unfolding parse_node_options quote_arguments
line_end_lost = refl

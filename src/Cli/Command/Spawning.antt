-- ===== src/Cli/Command/Spawning.antt =====
-- When the commands of npm/core/bin/awskms.js start a child process, and with which environment.
use keyobject_aws_kms.Prelude.{
  ◌≡◌, refl, ap, ◌∙◌, ◌⊎◌, Bool, true, false, some, List, [], ◌∷◌, ◌++◌, arith, Text, text_eq_refl,
  subst, All, keep,
}
use keyobject_aws_kms.Cli.NodeOptions.{
  config_prefix, node_options_with_config, has_openssl_config, without_openssl_config,
  parse_node_options, is_config, options_with_config,
}
use keyobject_aws_kms.Cli.NodeOptions.RoundTrip.{IsKept}
use keyobject_aws_kms.Cli.NodeOptions.Retained.{
  parse-node_options_with_config, options_with_config-config, without_openssl_config-clean,
}
use keyobject_aws_kms.Cli.Command.{
  Process, supported, Runtime, Environment, Request, Step, next, stop, split_separator,
  parse_replace_option, existing_config_sources, require_config_permission, environment_with_config,
  or_throw, require_separator, require_target, require_support, ◌>>=◌, target_arguments,
  is_node_target, exec_request, check_request, replace_flag, parse_replace_from,
}

-- The environment of the child, and why replacing the existing configuration is allowed.
pub record IsConfigured (p : Process) (replace : Bool) (target : List Text) (config : Text)
    (environment : Environment) : Type 0 where
  pub permission : (replace ≡ true) ⊎ (existing_config_sources p target ≡ some [])
  pub conf : environment.openssl_conf ≡ config
  pub inherited : replace ≡ false → environment.node_options ≡ p.node_options
  pub replaced :
      replace ≡ true → environment.node_options ≡ node_options_with_config p.node_options config

permission :
    (p : Process) (replace : Bool) (target : List Text) {u : Unit {0}}
    → require_config_permission p replace target ≡ next u
    → (replace ≡ true) ⊎ (existing_config_sources p target ≡ some [])
unfolding require_config_permission
permission p replace target h = ground arith

environment_lem :
    (p : Process) (replace : Bool) (target : List Text) (config : Text) {environment : Environment}
    → (replace ≡ true) ⊎ (existing_config_sources p target ≡ some [])
    → environment_with_config p config replace ≡ next environment
    → IsConfigured p replace target config environment
unfolding environment_with_config
environment_lem p true target config allowed h = ground arith
environment_lem p false target config allowed h = ground arith

-- Everything that has been established before `exec` calls `spawnSync`.
pub record IsAuthorized (lower_case : Text → Text) (p : Process) (runtime : Runtime)
    (rest : List Text) (request : Request) : Type 0 where
  pub replace : Bool
  pub options : List Text
  pub target : List Text
  pub config : Text
  pub split : split_separator rest ≡ some (options, request.command ∷ target)
  pub parsed : parse_replace_option options ≡ next replace
  pub support : runtime.is_supported ≡ supported
  pub path : runtime.openssl_config_path ≡ some config
  pub arguments : request.arguments ≡ target_arguments lower_case p replace request.command target
  pub configured : IsConfigured p replace target config request.environment

-- The parts of a command that came to its end.
pub through {ℓ κ ι} :
    {A : Type ℓ} {B : Type κ} {G : Type ι} (m : Step A) (f : A → Step B) {b : B}
    → (m >>= f) ≡ next b
    → ((a : A) → m ≡ next a → f a ≡ next b → G)
    → G
through (next a) f h k = k a refl h
through (stop o) f h k = absurd (cc h)

-- `exec` starts a child only for a command behind `--`, with a supported runtime, and with an
-- environment that names the config of the package; it replaces an existing OpenSSL config only
-- with `--replace-openssl-config`.
pub exec_request-IsAuthorized :
    (lower_case : Text → Text) (p : Process) (runtime : Runtime) (rest : List Text)
    {request : Request}
    → exec_request lower_case p runtime rest ≡ next request
    → IsAuthorized lower_case p runtime rest request
unfolding exec_request
exec_request-IsAuthorized lower_case p runtime rest {request} h =
    through (require_separator (split_separator rest)) _ h λ parts split h1.
      through (parse_replace_option parts.0) _ h1 λ replace parsed h2.
        through (require_target parts.1) _ h2 λ target some_target h3.
          through (require_config_permission p replace target.1) _ h3 λ u permitted h4.
            through (require_support runtime.is_supported) _ h4 λ v support h5.
              through (or_throw runtime.openssl_config_path) _ h5 λ config path h6.
                through (environment_with_config p config replace) _ h6 λ environment made h7.
                  let same : environment ≡ request.environment = ground arith in
                  record {
                    replace = replace;
                    options = parts.0;
                    target = target.1;
                    config = config;
                    split = ground arith;
                    parsed = parsed;
                    support = ground arith;
                    path = ground arith;
                    arguments = ground arith;
                    configured = subst (IsConfigured p replace target.1 config) same (
                        environment_lem p replace target.1 config
                          (permission p replace target.1 permitted) made);
                  }

-- `check` runs the check script under the current Node with the config of the package on its
-- command line, under the same conditions on an existing OpenSSL config.
pub check_request-IsConfigured :
    (check_script : Text) (p : Process) (runtime : Runtime) (rest : List Text) {request : Request}
    → check_request check_script p runtime rest ≡ next request
    → (replace : Bool) × (config : Text) × (parse_replace_option rest ≡ next replace)
      × (runtime.openssl_config_path ≡ some config)
      × (request.command ≡ p.exec_path)
      × (request.arguments ≡ (config_prefix ++ config) ∷ check_script ∷ [])
      × IsConfigured p replace [] config request.environment
unfolding check_request
check_request-IsConfigured check_script p runtime rest {request} h =
    through (parse_replace_option rest) _ h λ replace parsed h1.
      through (require_config_permission p replace []) _ h1 λ u permitted h2.
        through (or_throw runtime.openssl_config_path) _ h2 λ config path h3.
          through (environment_with_config p config replace) _ h3 λ environment made h4.
            let same : environment ≡ request.environment = ground arith in
            (
              replace,
              config,
              parsed,
              ground arith,
              ground arith,
              ground arith,
              subst (IsConfigured p replace [] config) same
                  (environment_lem p replace [] config (permission p replace [] permitted) made),
            )

parse_replace_from-true :
    (options : List Text) {replace : Bool}
    → parse_replace_from true options ≡ next replace
    → replace ≡ true
unfolding parse_replace_from
parse_replace_from-true [] h = cc
parse_replace_from-true (arg ∷ options) {replace} h =
    ground (arith, parse_replace_from-true options {replace = replace})

parse_replace_option-flag :
    (options : List Text) {replace : Bool}
    → parse_replace_option (replace_flag ∷ options) ≡ next replace
    → replace ≡ true
unfolding parse_replace_option parse_replace_from
parse_replace_option-flag options h =
    parse_replace_from-true options (rw (text_eq_refl replace_flag) at h)

target_arguments-node :
    (lower_case : Text → Text) (p : Process) (command : Text) (target : List Text)
    → is_node_target lower_case p command ≡ true
    → target_arguments lower_case p true command target ≡ without_openssl_config target
unfolding target_arguments
target_arguments-node lower_case p command target node = rw node

-- With `--replace-openssl-config` and a Node command, the child gets no OpenSSL config option on its
-- command line, and a NODE_OPTIONS that reads as arguments with one such option, the one for the
-- config of the package. The condition is that NODE_OPTIONS and the config path hold no control
-- character and no lone surrogate.
pub exec_request-replaced :
    (lower_case : Text → Text) (p : Process) (runtime : Runtime) (rest options words : List Text)
    {request : Request} {config : Text} {args : List Text}
    → exec_request lower_case p runtime rest ≡ next request
    → split_separator rest ≡ some (replace_flag ∷ options, words)
    → is_node_target lower_case p request.command ≡ true
    → runtime.openssl_config_path ≡ some config
    → parse_node_options p.node_options ≡ some args
    → All IsKept args
    → IsKept config
    → (has_openssl_config request.arguments ≡ false)
      × (read : List Text) × (parse_node_options request.environment.node_options ≡ some read)
      × (keep is_config read ≡ (config_prefix ++ config) ∷ [])
unfolding options_with_config
exec_request-replaced lower_case p runtime rest options words {request} {config} {args} h split node
      path parsed kept kept_path =
    let a = exec_request-IsAuthorized lower_case p runtime rest h in
    let flags : a.options ≡ replace_flag ∷ options = cc (a.split, split) in
    let replace : a.replace ≡ true =
      parse_replace_option-flag options
        (subst (λ o. parse_replace_option o ≡ next a.replace) flags a.parsed) in
    let same_config : a.config ≡ config = cc (a.path, path) in
    let (out, written, read) =
      parse-node_options_with_config p.node_options config parsed kept kept_path in
    (
      ap has_openssl_config (
            a.arguments
            ∙ ap (λ b. target_arguments lower_case p b request.command a.target) replace
            ∙ target_arguments-node lower_case p request.command a.target node)
          ∙ without_openssl_config-clean a.target,
      options_with_config args config,
      ap parse_node_options (
            a.configured.replaced replace
            ∙ ap (node_options_with_config p.node_options) same_config
            ∙ written)
          ∙ read,
      options_with_config-config args config,
    )

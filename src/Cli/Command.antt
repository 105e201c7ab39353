-- ===== src/Cli/Command.antt =====
-- npm/core/bin/awskms.js: the child processes of `check` and `exec`, and their option handling. What the file
-- calls of npm/core/index.js (isSupported, modulePath, opensslConfigPath) is the record `Runtime`.
-- `String.prototype.toLowerCase`, `spawnSync` and the path of check.mjs are parameters.
pub mod Spawning
use keyobject_aws_kms.Prelude.{
  ℕ, Bool, true, false, not, ◌&&◌, ◌||◌, ◌==◌, Option, none, some, List, [], ◌∷◌, ◌++◌,
  if◌then◌else◌, is_empty, Text, codes, text_eq,
}
use keyobject_aws_kms.Cli.NodeOptions.{
  parse_node_options, has_openssl_config, without_openssl_config, node_options_with_config,
  config_prefix,
}

-- What the commands read of `process`; an unset variable is `none`.
pub record Process : Type 0 where
  pub openssl_conf : Option Text
  pub node_options : Option Text
  pub exec_argv : List Text
  pub exec_path : Text

-- The result of `isSupported`.
pub data Support : Type 0 where
  supported : Support
  unsupported : Text → Text → Support

-- The calls of npm/core/index.js; `none` is a thrown error.
pub record Runtime : Type 0 where
  pub is_supported : Support
  pub module_path : Option Text
  pub openssl_config_path : Option Text

-- The variables of the child's environment that `environmentWithConfig` sets.
pub record Environment : Type 0 where
  pub openssl_conf : Text
  pub node_options : Option Text

pub record Request : Type 0 where
  pub command : Text
  pub arguments : List Text
  pub environment : Environment

-- What `spawnSync` reports.
pub data Spawned : Type 0 where
  spawn_error : Text → Spawned
  exited : Option ℕ → Spawned

pub data Source : Type 0 where
  openssl_conf_variable node_options_variable node_command_line target_command_line : Source

-- How a run of the command line ends.
pub data Outcome : Type 0 where
  usage : ℕ → Outcome
  unknown_option unknown_command : Text → Outcome
  refused : List Source → Outcome
  threw : Outcome
  not_supported : Text → Text → Outcome
  printed : Text → Outcome
  printed_version : Outcome
  failed : Request → Text → Outcome
  ran : Request → ℕ → Outcome

-- The exit status that Node reports.
unfoldable pub exit_code : Outcome → ℕ
exit_code (usage code) = code
exit_code (unknown_option arg) = 1
exit_code (unknown_command name) = 1
exit_code (refused sources) = 1
exit_code threw = 1
exit_code (not_supported code reason) = 1
exit_code (printed text) = 0
exit_code printed_version = 0
exit_code (failed request message) = 1
exit_code (ran request code) = code

-- A part of a command that may end the process.
pub data Step {ℓ} (A : Type ℓ) : Type ℓ where
  next : A → Step A
  stop : Outcome → Step A

infixl 5 ◌>>=◌ ◌>>◌
abbrev pub ◌>>=◌ {ℓ κ} : {A : Type ℓ} {B : Type κ} → Step A → (A → Step B) → Step B
next a >>= f = f a
stop o >>= f = stop o

abbrev pub ◌>>◌ {ℓ} : {B : Type ℓ} → Step (Unit {0}) → Step B → Step B
m >> k = m >>= λ _. k

abbrev pub outcome : Step Outcome → Outcome
outcome (next o) = o
outcome (stop o) = o

abbrev pub or_throw {ℓ} : {A : Type ℓ} → Option A → Step A
or_throw none = stop threw
or_throw (some a) = next a

abbrev pub replace_flag : Text
replace_flag = codes "--replace-openssl-config"

abbrev pub separator : Text
separator = codes "--"

-- The loop of `parseReplaceOption`.
unfoldable pub parse_replace_from : Bool → List Text → Step Bool
parse_replace_from replace [] = next replace
parse_replace_from replace (arg ∷ args) =
    let rest = parse_replace_from true args in
    if text_eq arg replace_flag then rest else stop (unknown_option arg)

unfoldable pub parse_replace_option : List Text → Step Bool
unfolding parse_replace_from
parse_replace_option args = parse_replace_from false args

-- A variable that is set and not empty.
abbrev pub is_set : Option Text → Bool
is_set none = false
is_set (some value) = not (is_empty value)

abbrev pub source_if : Bool → Source → List Source
source_if found source = if found then source ∷ [] else []

-- `existingConfigSources(targetArguments)`; it throws where NODE_OPTIONS has an unmatched quote.
unfoldable pub existing_config_sources : Process → List Text → Option (List Source)
existing_config_sources p target = elim (parse_node_options p.node_options) [
  | none ↦ none
  | some options ↦ some (
      source_if (is_set p.openssl_conf) openssl_conf_variable
      ++ source_if (has_openssl_config options) node_options_variable
      ++ source_if (has_openssl_config p.exec_argv) node_command_line
      ++ source_if (has_openssl_config target) target_command_line)
]

unfoldable pub require_config_permission : Process → Bool → List Text → Step (Unit {0})
unfolding existing_config_sources
require_config_permission p replace target = do
  sources ← or_throw (existing_config_sources p target)
  if not (is_empty sources) && not replace then stop (refused sources) else next tt

-- `environmentWithConfig(path, replace)`: without `replace` NODE_OPTIONS is inherited.
unfoldable pub environment_with_config : Process → Text → Bool → Step Environment
environment_with_config p path false =
    next (record { openssl_conf = path; node_options = p.node_options })
environment_with_config p path true = do
  options ← or_throw (node_options_with_config p.node_options path)
  next (record { openssl_conf = path; node_options = some options })

abbrev slash : ℕ
slash = 0x2f

-- `basename(path)` of POSIX paths: the last part that is not empty.
unfoldable pub basename_from : Text → Text → Text → Text
basename_from last current [] = if is_empty current then last else current
basename_from last current (c ∷ s) =
    let same = basename_from last [] s in
    let ended = basename_from current [] s in
    let longer = basename_from last (current ++ c ∷ []) s in
    if c == slash then if is_empty current then same else ended else longer

unfoldable pub basename : Text → Text
unfolding basename_from
basename path = basename_from [] [] path

-- The part of `rest` before the first `--` and the part after it.
unfoldable pub split_separator : List Text → Option (List Text × List Text)
split_separator [] = none
split_separator (arg ∷ args) =
    let later = split_separator args in
    if text_eq arg separator
    then some ([], args)
    else elim later [ none ↦ none | some (options, target) ↦ some (arg ∷ options, target) ]

module _ (lower_case : Text → Text) where
  unfoldable pub is_node_target : Process → Text → Bool
  unfolding basename
  is_node_target p command =
      let name = lower_case (basename command) in
      text_eq command p.exec_path
      || text_eq name (lower_case (basename p.exec_path))
      || text_eq name (codes "node")
      || text_eq name (codes "node.exe")
      || text_eq name (codes "nodejs")
      || text_eq name (codes "nodejs.exe")

  -- The target's arguments, without OpenSSL config options where they are to be replaced.
  unfoldable pub target_arguments : Process → Bool → Text → List Text → List Text
  target_arguments p replace command arguments =
      if replace && is_node_target p command then without_openssl_config arguments else arguments

abbrev pub require_support : Support → Step (Unit {0})
require_support supported = next tt
require_support (unsupported code reason) = stop (not_supported code reason)

abbrev pub require_separator : Option (List Text × List Text) → Step (List Text × List Text)
require_separator none = stop (usage 1)
require_separator (some parts) = next parts

abbrev pub require_target : List Text → Step (Text × List Text)
require_target [] = stop (usage 1)
require_target (command ∷ arguments) = next (command, arguments)

module _ (lower_case : Text → Text) where
  -- `exec` up to the call of `spawnSync`.
  unfoldable pub exec_request : Process → Runtime → List Text → Step Request
  unfolding split_separator parse_replace_option require_config_permission target_arguments
      environment_with_config
  exec_request p runtime rest = do
    parts ← require_separator (split_separator rest)
    replace ← parse_replace_option parts.0
    target ← require_target parts.1
    require_config_permission p replace target.1
    require_support runtime.is_supported
    config ← or_throw runtime.openssl_config_path
    environment ← environment_with_config p config replace
    next (record {
      command = target.0;
      arguments = target_arguments lower_case p replace target.0 target.1;
      environment = environment;
    })

-- `check` up to the call of `spawnSync`: it runs the check script in a child.
unfoldable pub check_request : Text → Process → Runtime → List Text → Step Request
unfolding parse_replace_option require_config_permission environment_with_config
check_request check_script p runtime rest = do
  replace ← parse_replace_option rest
  require_config_permission p replace []
  config ← or_throw runtime.openssl_config_path
  environment ← environment_with_config p config replace
  next (record {
    command = p.exec_path;
    arguments = (config_prefix ++ config) ∷ check_script ∷ [];
    environment = environment;
  })

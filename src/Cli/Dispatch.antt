-- ===== src/Cli/Dispatch.antt =====
-- npm/core/bin/awskms.js: the switch on the command, and what `check` and `exec` do with the result of
-- their child process.
pub mod Status
use keyobject_aws_kms.Prelude.{
  ℕ, Bool, true, false, not, ◌&&◌, ◌||◌, ◌==◌, Option, none, some, List, [], ◌∷◌, ◌++◌,
  if◌then◌else◌, is_empty, Text, codes, text_eq,
}
use keyobject_aws_kms.Cli.NodeOptions.{
  parse_node_options, has_openssl_config, without_openssl_config, node_options_with_config,
  config_prefix,
}
use keyobject_aws_kms.Cli.Command.{
  Process, Runtime, Request, Spawned, spawn_error, exited, Outcome, usage, unknown_command, printed,
  printed_version, failed, ran, Step, next, stop, outcome, or_throw, ◌>>=◌, exec_request,
  check_request,
}

abbrev status_code : Option ℕ → ℕ
status_code none = 1
status_code (some code) = code

abbrev print_path : Option Text → Step Outcome
print_path path = or_throw path >>= λ text. next (printed text)

module _ (spawn : Request → Spawned) where
  -- The lines of `exec` after the call.
  unfoldable pub reported : Request → Outcome
  reported request = elim (spawn request) [
    | spawn_error message ↦ failed request message
    | exited status ↦ ran request (status_code status)
  ]

  -- The line of `check` after the call; a spawn error leaves no status.
  unfoldable pub checked : Request → Outcome
  checked request = elim (spawn request) [
    | spawn_error message ↦ ran request 1
    | exited status ↦ ran request (status_code status)
  ]

module _ (lower_case : Text → Text) (spawn : Request → Spawned) (check_script : Text) where
  unfoldable pub exec : Process → Runtime → List Text → Step Outcome
  unfolding reported
  exec p runtime rest =
      exec_request lower_case p runtime rest >>= λ request. next (reported spawn request)

  unfoldable pub check : Process → Runtime → List Text → Step Outcome
  unfolding checked
  check p runtime rest =
      check_request check_script p runtime rest >>= λ request. next (checked spawn request)

  -- The `switch` on the first argument.
  unfoldable pub dispatch : Process → Runtime → Text → List Text → Step Outcome
  unfolding exec check
  dispatch p runtime name rest =
      if text_eq name (codes "module-path")
      then print_path runtime.module_path
      else if text_eq name (codes "config-path")
      then print_path runtime.openssl_config_path
      else if text_eq name (codes "check")
      then check p runtime rest
      else if text_eq name (codes "exec")
      then exec p runtime rest
      else if text_eq name (codes "--version") || text_eq name (codes "-v")
      then next printed_version
      else if text_eq name (codes "--help") || text_eq name (codes "-h")
      then next (usage 0)
      else next (unknown_command name)

  -- The program: `argv` is `process.argv.slice(2)`.
  unfoldable pub main : Process → Runtime → List Text → Outcome
  unfolding dispatch
  main p runtime [] = usage 0
  main p runtime (name ∷ rest) = outcome (dispatch p runtime name rest)

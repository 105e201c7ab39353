-- ===== src/Kms/Setup.antt =====
-- scripts/real-kms-keys.mjs: `setup`, with makeRunId, aliasFor, withRetry, isUnsupportedSpec and
-- describeAlias, and `pollUntil` of scripts/aws-cli.mjs. `toLowerCase` is a parameter. The list of
-- the wanted keys, the random part of the run id and the interleaving are arguments. A manifest is
-- its parts that are read back; the time stamp and the list of unavailable specs are left out.
pub mod Attempts
pub mod RunId
use keyobject_aws_kms.Prelude.{
  ℕ, zero, suc, ◌+◌, ◌-◌, ◌*◌, ◌==◌, leb, Bool, true, false, not, ◌&&◌, ◌||◌, Option, none, some,
  List, [], ◌∷◌, ◌++◌, map, if◌then◌else◌, is_empty, Text, codes, text_eq, String,
}
use keyobject_aws_kms.Kms.Program.{
  Command, describe_key, create_key, create_alias, sleep, Metadata, Value, Program, done, throw,
  call, Failure, aws_cli_error, other_error, Tried, succeeded, failed, Options, aws_try, code_is,
  attempt, ◌>>=◌, ◌>>◌,
}
use keyobject_aws_kms.Kms.MapLimit.{Limit, map_limit}
use keyobject_aws_kms.Kms.Manifest.{
  Tags, ManifestKey, Manifest, listed, alias_prefix, expected_tags,
}
use keyobject_aws_kms.Kms.Validation.{Place}
use keyobject_aws_kms.Kms.Teardown.{not_found, value_metadata, if_found}
use keyobject_aws_kms.Kms.Cleanup.{contains}

-- `opts`, as far as setup reads it.
pub record SetupOptions : Type 0 where
  pub place : Place
  pub aws : Options
  pub concurrency : Limit
  pub roles : List Text

-- A key of the inventory.
pub record Wanted : Type 0 where
  pub role : Text
  pub spec : Text

-- A variable that is unset or empty is not used.
unfoldable pub run_prefix : Option Text → Option Text → Text
run_prefix none run_attempt = codes "local-"
run_prefix (some run) none =
    if is_empty run
    then codes "local-"
    else codes "gh-" ++ run ++ codes "-" ++ codes "1" ++ codes "-"
run_prefix (some run) (some run_attempt) =
    if is_empty run
    then codes "local-"
    else codes "gh-" ++ run ++ codes "-" ++ run_attempt ++ codes "-"

abbrev underscore_to_dash : ℕ → ℕ
underscore_to_dash c = if c == b'_' then b'-' else c

module _ (lower_case : Text → Text) where
  -- `makeRunId()`, with GITHUB_RUN_ID, GITHUB_RUN_ATTEMPT and the digits of the random bytes.
  unfoldable pub make_run_id : Option Text → Option Text → Text → Text
  unfolding run_prefix
  make_run_id run run_attempt random = lower_case (run_prefix run run_attempt ++ random)

  unfoldable pub alias_suffix : Wanted → Text
  alias_suffix w = map underscore_to_dash (lower_case (w.role ++ codes "-" ++ w.spec))

  -- `aliasFor(runId, key)`.
  unfoldable pub alias_for : Text → Wanted → Text
  unfolding alias_suffix
  alias_for run_id w = alias_prefix ++ (run_id ++ (codes "-" ++ alias_suffix w))

abbrev fold_case : ℕ → ℕ
fold_case c = if leb b'A' c && leb c b'Z' then c + 32 else c

-- `isUnsupportedSpec(error)`; an error without a code is none.
unfoldable pub is_unsupported_spec : Failure → Bool
unfolding contains
is_unsupported_spec (other_error message) = false
is_unsupported_spec (aws_cli_error stderr) =
    code_is stderr (codes "UnsupportedOperationException")
    || (code_is stderr (codes "ValidationException")
        && (contains (map fold_case stderr) (codes "keyspec")
            || contains (map fold_case stderr) (codes "key spec")
            || contains (map fold_case stderr) (codes "not support")))

unfoldable pub is_retryable : Text → Bool
is_retryable stderr =
    code_is stderr (codes "ThrottlingException")
    || code_is stderr (codes "LimitExceededException")
    || code_is stderr (codes "KMSInternalException")

-- `sleep(ms)`.
abbrev pub pause : {A : Type 0} → ℕ → Program A → Program A
pause ms rest = call (record { command = sleep ms; region = none; profile = none }) (λ r. rest)

-- The reply to one attempt of `withRetry`.
unfoldable pub retried : Bool → Tried → ℕ → Program (Option Value) → Program (Option Value)
unfolding is_retryable
retried again (succeeded value) delay rest = done value
retried again (failed stderr) delay rest =
    if not (is_retryable stderr) || not again
    then throw (aws_cli_error stderr)
    else pause delay rest

-- `withRetry(() => awsTry(command, opts))`, with the number of attempts behind the first.
unfoldable pub with_retry : Options → Command → ℕ → ℕ → Program (Option Value)
unfolding retried
with_retry opts command zero delay = aws_try opts command >>= λ r. retried false r delay (done none)
with_retry opts command (suc more) delay =
    let rest = with_retry opts command more (2 * delay) in
    aws_try opts command >>= λ r. retried true r delay rest

-- The six attempts of the default, the first pause of 500 ms.
abbrev pub more_attempts : ℕ
more_attempts = 5

abbrev pub first_delay : ℕ
first_delay = 500

abbrev state_is : Option Metadata → Text → Bool
state_is none state = false
state_is (some metadata) state = text_eq metadata.key_state state

unfoldable pub is_enabled : Tried → Bool
is_enabled (succeeded value) = state_is (value_metadata value) (codes "Enabled")
is_enabled (failed stderr) = false

-- `pollUntil` on the state of the key, with the number of attempts left.
unfoldable pub poll_enabled : Options → Text → ℕ → Program (Unit {0})
unfolding is_enabled
poll_enabled opts id zero = throw (other_error "timed out waiting for the key to become Enabled")
poll_enabled opts id (suc more) =
    let rest = poll_enabled opts id more in
    aws_try opts (describe_key id) >>= λ r. if is_enabled r then done tt else pause 1000 rest

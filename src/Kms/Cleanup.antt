-- ===== src/Kms/Cleanup.antt =====
-- scripts/real-kms-keys.mjs: the two phases of `teardown` behind the collection of its targets
-- (preflight, then deletion of aliases and keys), the collection itself, and `teardown`.
-- The list of an interleaving's choices stands for the order in which replies arrive.
pub mod Preflight
pub mod Deletion
pub mod Scheduling
pub mod Safety
pub mod Outcomes
pub mod Whole
use keyobject_aws_kms.Prelude.{
  ℕ, zero, suc, ◌+◌, Bool, true, false, not, ◌&&◌, ◌||◌, ◌==◌, Option, none, some, List, [], ◌∷◌,
  ◌++◌, map, if◌then◌else◌, is_empty, any, Text, codes, text_eq, starts_with, length,
}
use keyobject_aws_kms.Kms.Program.{
  get_resources, list_keys, list_resource_tags, delete_alias, schedule_key_deletion, Metadata,
  KeyEntry, Value, Program, done, throw, aws_cli_error, other_error, Tried, succeeded, failed,
  aws_try, read_only_options, code_is, catch, attempt, ◌>>=◌, ◌>>◌,
}
use keyobject_aws_kms.Kms.MapLimit.{map_limit}
use keyobject_aws_kms.Kms.Manifest.{ManifestKey, Manifest, Tags, owner_tag, owner_value}
use keyobject_aws_kms.Kms.Validation.{ManifestFile, thrown, returned, read_manifest, ReadManifest}
use keyobject_aws_kms.Kms.Teardown.{
  TeardownOptions, Target, not_found, invalid_state, value_tags, verify_owned_target,
  describe_alias_async, Entry, preflight,
}

unfoldable pub contains : Text → Text → Bool
contains [] word = starts_with [] word
contains (c ∷ s) word = starts_with (c ∷ s) word || contains s word

-- /is (?!not )pending (deletion|replica deletion)/ on the error of a key that waits for deletion.
unfoldable pub is_pending : Text → Bool
unfolding contains
is_pending stderr =
    code_is stderr invalid_state
    && (contains stderr (codes "is pending deletion")
        || contains stderr (codes "is pending replica deletion"))

unfoldable pub scheduled_reply : Tried → Program (Unit {0})
unfolding is_pending
scheduled_reply (succeeded value) = done tt
scheduled_reply (failed stderr) =
    if code_is stderr not_found || is_pending stderr
    then done tt
    else throw (other_error "schedule-key-deletion failed")

-- `scheduleDeletion(keyId, opts, what)`.
unfoldable pub schedule_deletion : TeardownOptions → Text → Program (Unit {0})
schedule_deletion opts id =
    aws_try opts.aws (schedule_key_deletion id opts.window) >>= scheduled_reply

unfoldable pub deleted_reply : Tried → Program ℕ
deleted_reply (succeeded value) = done 0
deleted_reply (failed stderr) =
    if not (code_is stderr not_found) then throw (aws_cli_error stderr) else done 0

unfoldable pub delete_verified :
    TeardownOptions → Text → Option Metadata → Option Metadata → Program ℕ
delete_verified opts alias none aliased = done 0
delete_verified opts alias (some metadata) none = done 0
delete_verified opts alias (some metadata) (some aliased) =
    if not (text_eq aliased.arn metadata.arn)
    then throw (other_error "refusing to delete: it now targets another key")
    else (aws_try opts.aws (delete_alias alias) >>= deleted_reply)

-- The function of the second `mapLimit`: 1 for a failure, which is caught.
unfoldable pub delete_entry_alias : TeardownOptions → Target → Text → Program ℕ
delete_entry_alias opts t alias =
    catch
      (do
        verified ← verify_owned_target opts t
        aliased ← describe_alias_async opts alias
        delete_verified opts alias verified aliased)
      (λ e. done 1)

unfoldable pub schedule_verified : TeardownOptions → Target → Option Metadata → Program ℕ
schedule_verified opts t none = done 0
schedule_verified opts t (some metadata) = schedule_deletion opts t.id >> done 0

-- The function of the third `mapLimit`.
unfoldable pub delete_key : TeardownOptions → Target → Program ℕ
delete_key opts t = catch (verify_owned_target opts t >>= schedule_verified opts t) (λ e. done 1)

-- `preflight.filter(Boolean)`.
unfoldable pub active_entries : List (Option Entry) → List Entry
active_entries [] = []
active_entries (none ∷ results) = active_entries results
active_entries (some entry ∷ results) = entry ∷ active_entries results

abbrev pub with_alias : Target → Option Text → List (Target × Text) → List (Target × Text)
with_alias t none rest = rest
with_alias t (some alias) rest = (t, alias) ∷ rest

-- The entries whose alias is not null.
unfoldable pub alias_entries : List Entry → List (Target × Text)
alias_entries [] = []
alias_entries (entry ∷ entries) = with_alias entry.target entry.alias (alias_entries entries)

unfoldable pub active_targets : List Entry → List Target
active_targets [] = []
active_targets (entry ∷ entries) = entry.target ∷ active_targets entries

unfoldable pub total : List ℕ → ℕ
total [] = 0
total (n ∷ ns) = n + total ns

unfoldable pub report : ℕ → ℕ → ℕ → Program ℕ
report alias_failures key_failures scheduled =
    if not (alias_failures == 0) || not (key_failures == 0)
    then throw (other_error "cleanup completed with failures")
    else done scheduled

-- The interleavings of the three calls of `mapLimit`.
pub record Schedules : Type 0 where
  pub preflights : List ℕ
  pub aliases : List ℕ
  pub keys : List ℕ

-- Behind the preflight.
unfoldable pub delete_all : TeardownOptions → Schedules → List Entry → Program ℕ
delete_all opts schedules entries = do
  alias_results ←
      map_limit schedules.aliases (alias_entries entries) opts.concurrency
        (λ e. delete_entry_alias opts e.0 e.1)
  key_results ← map_limit schedules.keys (active_targets entries) opts.concurrency (delete_key opts)
  report (total alias_results) (total key_results) (length entries)

-- `teardown` from its list of targets on; the result is the number of keys scheduled.
unfoldable pub cleanup : TeardownOptions → Schedules → List Target → Program ℕ
cleanup opts schedules targets = if is_empty targets then done 0 else do
  results ← map_limit schedules.preflights targets opts.concurrency (preflight opts)
  delete_all opts schedules (active_entries results)

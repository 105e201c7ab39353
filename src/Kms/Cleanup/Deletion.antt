-- ===== src/Kms/Cleanup/Deletion.antt =====
-- What the deletions of scripts/real-kms-keys.mjs check again before they call the service.
use keyobject_aws_kms.Prelude.{
  ℕ, ◌≡◌, refl, true, false, not, not-false, Option, none, some, inl, inr, ◌⊎◌, Text, text_eq, ◌||◌,
  Bool-cases,
}
use keyobject_aws_kms.Kms.Program.{
  Command, describe_key, list_resource_tags, get_resources, list_keys, get_caller_identity,
  create_key, create_alias, delete_alias, schedule_key_deletion, sleep, Request, Reply, printed,
  exited, not_launched, Metadata, done, throw, call, aws_cli_error, other_error, succeeded, tried,
  aws_try, attempt, ◌>>=◌, code_is,
}
use keyobject_aws_kms.Kms.Program.Logic.{History, Runs, Runs-if, Runs-bind, Runs-attempt}
use keyobject_aws_kms.Kms.Teardown.{
  TeardownOptions, Target, not_found, verify_owned_target, describe_alias_async,
}
use keyobject_aws_kms.Kms.Teardown.Evidence.{
  IsReadOnly, asked, Answered, IsOwned, IsUnknown, IsAliased, Verified, Aliased, Verified-Stays,
  verify_owned_target-Runs, describe_alias_async-Runs,
}
use keyobject_aws_kms.Kms.Cleanup.{is_pending, deleted_reply, delete_verified, delete_entry_alias}

-- What the service has shown since the deletions began, before the alias of `t` is deleted.
pub record MayUnalias (opts : TeardownOptions) (h : History) (t : Target) (alias : Text)
    : Type 0 where
  pub metadata : Metadata
  pub aliased : Metadata
  pub owned : IsOwned opts h t metadata
  pub stands : IsAliased opts h alias aliased
  pub same : text_eq aliased.arn metadata.arn ≡ true
  pub real : opts.aws.dry_run ≡ false

-- The same before the deletion of the key of `t` is scheduled.
pub record MaySchedule (opts : TeardownOptions) (h : History) (t : Target) (id : Text) (window : ℕ)
    : Type 0 where
  pub metadata : Metadata
  pub owned : IsOwned opts h t metadata
  pub of_target : id ≡ t.id
  pub of_options : window ≡ opts.window
  pub real : opts.aws.dry_run ≡ false

-- The calls of the deletion of the alias of `t`: reading, and deleting that alias.
abbrev pub AliasCall : TeardownOptions → Target → Text → History → Command → Type 0
AliasCall opts t alias h (delete_alias name) = (name ≡ alias) × MayUnalias opts h t alias
AliasCall opts t alias h (schedule_key_deletion id window) = ⊥
AliasCall opts t alias h (create_key spec description tags) = ⊥
AliasCall opts t alias h (create_alias name id) = ⊥
AliasCall opts t alias h _ = Unit

-- The calls of the deletion of the key of `t`.
abbrev pub KeyCall : TeardownOptions → Target → History → Command → Type 0
KeyCall opts t h (delete_alias name) = ⊥
KeyCall opts t h (schedule_key_deletion id window) = MaySchedule opts h t id window
KeyCall opts t h (create_key spec description tags) = ⊥
KeyCall opts t h (create_alias name id) = ⊥
KeyCall opts t h _ = Unit

-- As teardown sends them.
abbrev pub Sent : TeardownOptions → (History → Command → Type 0) → History → Request → Type 0
Sent opts C h r = (r ≡ asked opts r.command) × C h r.command

abbrev pub Accepted : Reply → Type 0
Accepted (printed value) = Unit
Accepted (exited stderr) = (code_is stderr not_found || is_pending stderr) ≡ true
Accepted (not_launched message) = ⊥

-- The service has accepted that the key of `t` is to be deleted, or has said that it already is.
pub record IsScheduled (opts : TeardownOptions) (h : History) (t : Target) : Type 0 where
  pub reply : Reply
  pub answered : Answered opts (schedule_key_deletion t.id opts.window) reply h
  pub accepted : Accepted reply

-- The result of the deletion of the key of `t`: 0 unless something failed.
abbrev pub KeyResult : TeardownOptions → Target → History → ℕ → Type 0
KeyResult opts t h n =
    n ≡ 0 → opts.aws.dry_run ≡ false → IsUnknown opts h t.id ⊎ IsScheduled opts h t

pub alias-reads :
    (opts : TeardownOptions) (t : Target) (alias : Text) (h : History) (c : Command)
    → IsReadOnly c
    → Sent opts (AliasCall opts t alias) h (asked opts c)
alias-reads opts t alias h (describe_key id) r = (refl, tt)
alias-reads opts t alias h (list_resource_tags id) r = (refl, tt)
alias-reads opts t alias h (get_resources key value) r = (refl, tt)
alias-reads opts t alias h list_keys r = (refl, tt)
alias-reads opts t alias h get_caller_identity r = (refl, tt)
alias-reads opts t alias h (create_key spec description tags) r = absurd r
alias-reads opts t alias h (create_alias name id) r = absurd r
alias-reads opts t alias h (delete_alias name) r = absurd r
alias-reads opts t alias h (schedule_key_deletion id window) r = absurd r
alias-reads opts t alias h (sleep n) r = (refl, tt)

pub key-reads :
    (opts : TeardownOptions) (t : Target) (h : History) (c : Command)
    → IsReadOnly c
    → Sent opts (KeyCall opts t) h (asked opts c)
key-reads opts t h (describe_key id) r = (refl, tt)
key-reads opts t h (list_resource_tags id) r = (refl, tt)
key-reads opts t h (get_resources key value) r = (refl, tt)
key-reads opts t h list_keys r = (refl, tt)
key-reads opts t h get_caller_identity r = (refl, tt)
key-reads opts t h (create_key spec description tags) r = absurd r
key-reads opts t h (create_alias name id) r = absurd r
key-reads opts t h (delete_alias name) r = absurd r
key-reads opts t h (schedule_key_deletion id window) r = absurd r
key-reads opts t h (sleep n) r = (refl, tt)

-- A command of a real run is one call.
pub aws_try-real :
    (opts : TeardownOptions) (c : Command)
    → opts.aws.dry_run ≡ false
    → aws_try opts.aws c ≡ call (asked opts c) tried
unfolding aws_try
aws_try-real opts c e = rw e

pub aws_try-dry :
    (opts : TeardownOptions) (c : Command)
    → opts.aws.dry_run ≡ true
    → aws_try opts.aws c ≡ done (succeeded none)
unfolding aws_try
aws_try-dry opts c e = rw e

module _ (opts : TeardownOptions) (t : Target) (alias : Text) where
  abbrev Q : History → Request → Type 0
  Q = Sent opts (AliasCall opts t alias)

  abbrev Any : History → ℕ → Type 0
  Any h n = Unit

  deleted_reply-Runs :
      (h : History) (r : Reply) → Runs Q Any h (attempt (tried r) deleted_reply throw)
  unfolding attempt deleted_reply
  deleted_reply-Runs h (printed value) = tt
  deleted_reply-Runs h (exited stderr) =
      Runs-if Q Any h (not (code_is stderr not_found)) (throw (aws_cli_error stderr)) (done 0)
        (λ e. tt) (λ e. tt)
  deleted_reply-Runs h (not_launched message) = tt

  delete-Runs :
      (h : History) (metadata aliased : Metadata)
      → IsOwned opts h t metadata
      → IsAliased opts h alias aliased
      → text_eq aliased.arn metadata.arn ≡ true
      → Runs Q Any h (aws_try opts.aws (delete_alias alias) >>= deleted_reply)
  unfolding attempt
  delete-Runs h metadata aliased owned stands same = elim (Bool-cases opts.aws.dry_run) [
    | inl dry ↦ rw (aws_try-dry opts (delete_alias alias) dry) (deleted_reply-Runs h (printed none))
    | inr real ↦
        let allowed : MayUnalias opts h t alias = record {
          metadata = metadata;
          aliased = aliased;
          owned = owned;
          stands = stands;
          same = same;
          real = real;
        } in
        rw (aws_try-real opts (delete_alias alias) real)
          ((refl, (refl, allowed)), λ r. deleted_reply-Runs _ r)
  ]

  delete_verified-Runs :
      (h : History) (verified aliased : Option Metadata)
      → Verified opts t h verified
      → Aliased opts alias h aliased
      → Runs Q Any h (delete_verified opts alias verified aliased)
  unfolding delete_verified
  delete_verified-Runs h none aliased v a = tt
  delete_verified-Runs h (some metadata) none v a = tt
  delete_verified-Runs h (some metadata) (some aliased) v a =
      Runs-if Q Any h (not (text_eq aliased.arn metadata.arn))
        (throw (other_error "refusing to delete: it now targets another key"))
        (aws_try opts.aws (delete_alias alias) >>= deleted_reply) (λ e. tt)
        (λ same. delete-Runs h metadata aliased v a (not-false _ same))

  pub delete_entry_alias-Runs : (h : History) → Runs Q Any h (delete_entry_alias opts t alias)
  unfolding delete_entry_alias
  delete_entry_alias-Runs h =
      Runs-attempt Q Any Any done (λ e. done 1)
        (verify_owned_target opts t >>= λ verified. describe_alias_async opts alias >>= λ aliased.
          delete_verified opts alias verified aliased)
        h
        (Runs-bind Q (Verified opts t) Any _ (verify_owned_target opts t) h
          (verify_owned_target-Runs opts Q (alias-reads opts t alias) t h)
          (λ g p verified v.
            Runs-bind Q (Aliased opts alias) Any (delete_verified opts alias verified)
              (describe_alias_async opts alias) g
              (describe_alias_async-Runs opts Q (alias-reads opts t alias) alias g)
              (λ k q aliased a.
                delete_verified-Runs k verified aliased (Verified-Stays opts t verified g k q v)
                  a)))
        (λ g p n u. tt) (λ g p e. tt)

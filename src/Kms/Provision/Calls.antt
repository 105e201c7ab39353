-- ===== src/Kms/Provision/Calls.antt =====
-- What `setup` of scripts/real-kms-keys.mjs asks of the service for one key.
use keyobject_aws_kms.Prelude.{ℕ, ◌≡◌, refl, true, false, Option, none, some, inl, inr, ◌⊎◌, Text}
use keyobject_aws_kms.Kms.Program.{
  Command, describe_key, create_key, create_alias, delete_alias, schedule_key_deletion, Request,
  printed, exited, Metadata, Value, done, throw, aws_cli_error, Failure, Tried, succeeded, failed,
  code_is, aws_try,
}
use keyobject_aws_kms.Kms.Program.Logic.{
  History, Seen-⊑, ⊑_trans, Stays, Runs, Runs-if, Runs-bind, Runs-attempt,
}
use keyobject_aws_kms.Kms.Manifest.{expected_tags}
use keyobject_aws_kms.Kms.Teardown.{not_found, value_metadata, if_found}
use keyobject_aws_kms.Kms.Setup.{
  SetupOptions, Wanted, alias_for, is_unsupported_spec, with_retry, more_attempts, first_delay,
  poll_enabled,
}
use keyobject_aws_kms.Kms.Setup.Attempts.{
  request_of, Replied, TriedBy, Succeeded, waits, aws_try-Runs, with_retry-Runs, Enabled,
  Enabled-Stays, poll_enabled-Runs,
}
use keyobject_aws_kms.Kms.Provision.{
  Created, Provisioned, unavailable, created, describe_alias, description, finish_key,
  created_reply, not_created, if_no_alias, provision,
}

-- The service has shown that nothing has the name.
abbrev pub Free : SetupOptions → Text → History → Option Metadata → Type 0
Free opts alias h (some metadata) = Unit
Free opts alias h none =
    opts.aws.dry_run ≡ false
    → ((stderr : Text) × Replied opts.aws (describe_key alias) (exited stderr) h
        × (code_is stderr not_found ≡ true))
      ⊎ ((value : Option Value) × Replied opts.aws (describe_key alias) (printed value) h
          × (value_metadata value ≡ none))

pub Free-Stays : (opts : SetupOptions) (alias : Text) → Stays (λ h. Free opts alias h none)
Free-Stays opts alias h g p free real = elim (free real) [
  | inl (stderr, seen, code) ↦ inl (stderr, Seen-⊑ _ p seen, code)
  | inr (value, seen, has) ↦ inr (value, Seen-⊑ _ p seen, has)
]

-- The key was created for `w`, with the tags of the run.
abbrev pub IsNew : SetupOptions → Text → Wanted → History → Metadata → Type 0
IsNew opts run_id w h metadata =
    (value : Option Value) × Replied opts.aws
      (create_key w.spec (description run_id w) (expected_tags run_id w.role w.spec))
      (printed value) h
    × (value_metadata value ≡ some metadata)

pub IsNew-Stays :
    (opts : SetupOptions) (run_id : Text) (w : Wanted) (metadata : Metadata)
    → Stays (λ h. IsNew opts run_id w h metadata)
IsNew-Stays opts run_id w metadata h g p (value, seen, has) = (value, Seen-⊑ _ p seen, has)

-- The calls for the wanted key `w`: a key is created under the tags of the run and only where the run's
-- alias is free, and the alias is given to the key that was created, once that is enabled.
abbrev pub SetupCall : SetupOptions → Text → Wanted → Text → History → Command → Type 0
SetupCall opts run_id w alias h (create_key spec text tags) =
    (spec ≡ w.spec)
    × (tags ≡ expected_tags run_id w.role w.spec)
    × (opts.aws.dry_run ≡ false)
    × Free opts alias h none
SetupCall opts run_id w alias h (create_alias name id) =
    (name ≡ alias)
    × (opts.aws.dry_run ≡ false)
    × ((metadata : Metadata) × IsNew opts run_id w h metadata × (id ≡ metadata.key_id))
    × Enabled opts.aws id h
SetupCall opts run_id w alias h (delete_alias name) = ⊥
SetupCall opts run_id w alias h (schedule_key_deletion id window) = ⊥
SetupCall opts run_id w alias h _ = Unit

abbrev pub OfOptions : SetupOptions → Request → Type 0
OfOptions opts r = (r ≡ request_of opts.aws r.command) ⊎ ((ms : ℕ) × (r ≡ waits ms))

-- What `setup` has for the wanted key `w`.
pub record IsMade (opts : SetupOptions) (run_id : Text) (w : Wanted) (alias : Text) (h : History)
    (c : Created) : Type 0 where
  pub of_wanted : c.wanted ≡ w
  pub has_alias : c.alias ≡ alias
  pub has_tags : c.tags ≡ expected_tags run_id w.role w.spec
  pub is_new :
      opts.aws.dry_run ≡ false
      → (metadata : Metadata) × IsNew opts run_id w h metadata
        × (c.arn ≡ metadata.arn)
        × (c.key_id ≡ metadata.key_id)

abbrev pub Made : SetupOptions → Text → Wanted → Text → History → Provisioned → Type 0
Made opts run_id w alias h (unavailable x) = x ≡ w
Made opts run_id w alias h (created c) = IsMade opts run_id w alias h c

module _ (lower_case : Text → Text) (opts : SetupOptions) (run_id : Text) (w : Wanted) where
  abbrev the_alias : Text
  the_alias = alias_for lower_case run_id w

  abbrev pub KeyCalls : History → Request → Type 0
  KeyCalls h r =
      OfOptions opts r × SetupCall opts run_id w (alias_for lower_case run_id w) h r.command

  abbrev pub KeyMade : History → Provisioned → Type 0
  KeyMade = Made opts run_id w (alias_for lower_case run_id w)

  pauses : (h : History) (ms : ℕ) → KeyCalls h (waits ms)
  pauses h ms = (inr (ms, refl), tt)

  finish_key-Runs :
      (h : History) (m : Option Metadata)
      → opts.aws.dry_run ≡ false
      → ((metadata : Metadata) → m ≡ some metadata → IsNew opts run_id w h metadata)
      → Runs KeyCalls KeyMade h (finish_key opts w the_alias (expected_tags run_id w.role w.spec) m)
  unfolding finish_key
  finish_key-Runs h none real new = tt
  finish_key-Runs h (some metadata) real new =
      Runs-bind KeyCalls (λ g u. Enabled opts.aws metadata.key_id g) KeyMade _
        (poll_enabled opts.aws metadata.key_id 30) h
        (poll_enabled-Runs opts.aws KeyCalls pauses metadata.key_id (λ g r. (inl refl, tt)) 30 h)
        (λ g p u enabled.
          Runs-bind KeyCalls (Succeeded opts.aws (create_alias the_alias metadata.key_id)) KeyMade _
            (with_retry opts.aws (create_alias the_alias metadata.key_id) more_attempts first_delay)
            g
            (with_retry-Runs opts.aws KeyCalls pauses
              (λ k. IsNew opts run_id w k metadata × Enabled opts.aws metadata.key_id k)
              (λ k l q e. (
                IsNew-Stays opts run_id w metadata k l q e.0,
                Enabled-Stays opts.aws metadata.key_id k l q e.1,
              ))
              (create_alias the_alias metadata.key_id)
              (λ k e r. (inl refl, (refl, r, (metadata, e.0, refl), e.1))) more_attempts first_delay
              g (IsNew-Stays opts run_id w metadata h g p (new metadata refl), enabled))
            (λ k q value s. record {
              of_wanted = refl;
              has_alias = refl;
              has_tags = refl;
              is_new = λ r. (
                metadata,
                IsNew-Stays opts run_id w metadata h k (⊑_trans p q) (new metadata refl),
                refl,
                refl,
              );
            }))

  created_reply-Runs :
      (h : History) (value : Option Value)
      → Succeeded opts.aws
          (create_key w.spec (description run_id w) (expected_tags run_id w.role w.spec))
          h
          value
      → Runs KeyCalls KeyMade h
          (created_reply opts w the_alias (expected_tags run_id w.role w.spec) value)
  unfolding created_reply
  created_reply-Runs h value s =
      Runs-if KeyCalls KeyMade h opts.aws.dry_run _ _
        (λ dry. record {
          of_wanted = refl;
          has_alias = refl;
          has_tags = refl;
          is_new = λ real. absurd (cc (dry, real));
        })
        (λ real.
          finish_key-Runs h (value_metadata value) real (λ metadata has. (value, seen real s, has)))
    where
      seen :
          opts.aws.dry_run ≡ false
          → Succeeded opts.aws
              (create_key w.spec (description run_id w) (expected_tags run_id w.role w.spec))
              h
              value
          → Replied opts.aws
              (create_key w.spec (description run_id w) (expected_tags run_id w.role w.spec))
              (printed value)
              h
      seen real (inl dry) = absurd (cc (real, dry.0))
      seen real (inr s) = s

  not_created-Runs : (h : History) (e : Failure) → Runs KeyCalls KeyMade h (not_created w e)
  unfolding not_created
  not_created-Runs h e =
      Runs-if KeyCalls KeyMade h (is_unsupported_spec e) (done (unavailable w)) (throw e)
        (λ u. refl) (λ u. tt)

  if_no_alias-Runs :
      (h : History) (m : Option Metadata)
      → Free opts the_alias h m
      → Runs KeyCalls KeyMade h
          (if_no_alias opts run_id w the_alias (expected_tags run_id w.role w.spec) m)
  unfolding if_no_alias
  if_no_alias-Runs h (some metadata) free = tt
  if_no_alias-Runs h none free =
      let c = create_key w.spec (description run_id w) (expected_tags run_id w.role w.spec) in
      Runs-attempt KeyCalls (Succeeded opts.aws c) KeyMade _ (not_created w)
        (with_retry opts.aws c more_attempts first_delay) h
        (with_retry-Runs opts.aws KeyCalls pauses (λ g. Free opts the_alias g none)
          (Free-Stays opts the_alias) c (λ g f real. (inl refl, (refl, refl, real, f)))
          more_attempts first_delay h free)
        (λ g p value s. created_reply-Runs g value s) (λ g p e. not_created-Runs g e)

  described-Runs :
      (h : History) (r : Tried)
      → TriedBy opts.aws (describe_key the_alias) h r
      → Runs KeyCalls
          (Free opts the_alias)
          h
          (if_found r (done none) (λ value. done (value_metadata value)))
  unfolding if_found
  described-Runs h (succeeded value) t = free (value_metadata value) refl t
    where
      free :
          (m : Option Metadata)
          → value_metadata value ≡ m
          → Succeeded opts.aws (describe_key the_alias) h value
          → Free opts the_alias h m
      free (some metadata) e s = tt
      free none e (inl dry) = λ real. absurd (cc (real, dry.0))
      free none e (inr seen) = λ real. inr (value, seen, e)
  described-Runs h (failed stderr) t =
      Runs-if KeyCalls (Free opts the_alias) h (code_is stderr not_found) (done none)
        (throw (aws_cli_error stderr)) (λ e real. inl (stderr, t, e)) (λ e. tt)

  describe_alias-Runs :
      (h : History) → Runs KeyCalls (Free opts the_alias) h (describe_alias opts.aws the_alias)
  unfolding describe_alias
  describe_alias-Runs h =
      Runs-bind KeyCalls (TriedBy opts.aws (describe_key the_alias)) (Free opts the_alias) _
        (aws_try opts.aws (describe_key the_alias)) h
        (aws_try-Runs opts.aws KeyCalls (describe_key the_alias) h (λ real. (inl refl, tt)))
        (λ g p r t. described-Runs g r t)

  -- The function that `setup` runs for a key, for all replies. It deletes nothing. It creates a key only
  -- with the tags of the run and after a reply has shown that nothing has the run's alias for it; it
  -- gives that alias only to a key of that creation, and only after a reply has shown the key enabled;
  -- in a dry run it does neither. What it returns names the key, its ARN, the alias and the tags, or
  -- says that the spec is unavailable.
  pub provision-Runs : (h : History) → Runs KeyCalls KeyMade h (provision lower_case opts run_id w)
  unfolding provision
  provision-Runs h =
      Runs-bind KeyCalls (Free opts the_alias) KeyMade _ (describe_alias opts.aws the_alias) h
        (describe_alias-Runs h) (λ g p m f. if_no_alias-Runs g m f)

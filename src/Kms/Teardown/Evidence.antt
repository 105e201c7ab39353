-- ===== src/Kms/Teardown/Evidence.antt =====
-- What `verifyOwnedTarget` and `describeAliasAsync` of scripts/real-kms-keys.mjs establish from the
-- replies of the service, and that they only read.
use keyobject_aws_kms.Prelude.{
  ◌≡◌, refl, true, not, not-false, Option, none, some, ◌∷◌, inl, inr, ◌⊎◌, if◌then◌else◌, Text,
}
use keyobject_aws_kms.Kms.Program.{
  Command, describe_key, list_resource_tags, get_resources, list_keys, get_caller_identity,
  create_key, create_alias, delete_alias, schedule_key_deletion, sleep, Request, Reply, printed,
  exited, not_launched, Metadata, Value, Program, done, throw, aws_cli_error, other_error, tried,
  aws_try, read_only_options, code_is, attempt, ◌>>=◌,
}
use keyobject_aws_kms.Kms.Program.Logic.{History, Seen, Seen-⊑, Stays, Runs, Runs-if}
use keyobject_aws_kms.Kms.Manifest.{parse_key_arn}
use keyobject_aws_kms.Kms.Validation.{is_in_place}
use keyobject_aws_kms.Kms.Teardown.{
  TeardownOptions, Target, not_found, value_metadata, value_tags, has_tags, has_spec, verify_tags,
  verify_described, if_found, verify_owned_target, describe_alias_async,
}

abbrev pub IsReadOnly : Command → Type 0
IsReadOnly (describe_key id) = Unit
IsReadOnly (list_resource_tags id) = Unit
IsReadOnly (get_resources key value) = Unit
IsReadOnly list_keys = Unit
IsReadOnly get_caller_identity = Unit
IsReadOnly (create_key spec description tags) = ⊥
IsReadOnly (create_alias alias id) = ⊥
IsReadOnly (delete_alias alias) = ⊥
IsReadOnly (schedule_key_deletion id window) = ⊥
IsReadOnly (sleep n) = Unit

-- A command as teardown sends it: with the region and the profile of the options.
abbrev pub asked : TeardownOptions → Command → Request
asked opts c = record { command = c; region = opts.aws.region; profile = opts.aws.profile }

abbrev pub Answered : TeardownOptions → Command → Reply → History → Type 0
Answered opts c r h = Seen (record { request = asked opts c; reply = r }) h

-- The service has shown a key of the account and the region, with the expected tags and spec.
pub record IsOwned (opts : TeardownOptions) (h : History) (t : Target) (metadata : Metadata)
    : Type 0 where
  pub value : Option Value
  pub tags : Option Value
  pub described : Answered opts (describe_key t.id) (printed value) h
  pub has_metadata : value_metadata value ≡ some metadata
  pub in_place : is_in_place opts.place (parse_key_arn metadata.arn) ≡ true
  pub tags_listed : Answered opts (list_resource_tags metadata.key_id) (printed tags) h
  pub tagged : has_tags t.expected_tags (value_tags tags) ≡ true
  pub of_spec : has_spec t.key_spec metadata.key_spec ≡ true

-- The service has said that it does not know the name.
pub record IsUnknown (opts : TeardownOptions) (h : History) (name : Text) : Type 0 where
  pub stderr : Text
  pub described : Answered opts (describe_key name) (exited stderr) h
  pub code : code_is stderr not_found ≡ true

abbrev pub Verified : TeardownOptions → Target → History → Option Metadata → Type 0
Verified opts t h none = IsUnknown opts h t.id
Verified opts t h (some metadata) = IsOwned opts h t metadata

-- The service has shown what the alias stands for.
pub record IsAliased (opts : TeardownOptions) (h : History) (alias : Text) (metadata : Metadata)
    : Type 0 where
  pub value : Option Value
  pub described : Answered opts (describe_key alias) (printed value) h
  pub has_metadata : value_metadata value ≡ some metadata

-- The service does not know the alias, or has shown nothing for it.
abbrev pub IsUnaliased : TeardownOptions → History → Text → Type 0
IsUnaliased opts h alias =
    IsUnknown opts h alias
    ⊎ ((value : Option Value) × Answered opts (describe_key alias) (printed value) h
        × (value_metadata value ≡ none))

abbrev pub Aliased : TeardownOptions → Text → History → Option Metadata → Type 0
Aliased opts alias h none = IsUnaliased opts h alias
Aliased opts alias h (some metadata) = IsAliased opts h alias metadata

pub Verified-Stays :
    (opts : TeardownOptions) (t : Target) (m : Option Metadata) → Stays (λ h. Verified opts t h m)
Verified-Stays opts t none h g p v = record {
  stderr = v.stderr;
  described = Seen-⊑ _ p v.described;
  code = v.code;
}
Verified-Stays opts t (some metadata) h g p v = record {
  value = v.value;
  tags = v.tags;
  described = Seen-⊑ _ p v.described;
  has_metadata = v.has_metadata;
  in_place = v.in_place;
  tags_listed = Seen-⊑ _ p v.tags_listed;
  tagged = v.tagged;
  of_spec = v.of_spec;
}

pub Aliased-Stays :
    (opts : TeardownOptions) (alias : Text) (m : Option Metadata)
    → Stays (λ h. Aliased opts alias h m)
Aliased-Stays opts alias none h g p (inl unknown) = inl (record {
  stderr = unknown.stderr;
  described = Seen-⊑ _ p unknown.described;
  code = unknown.code;
})
Aliased-Stays opts alias none h g p (inr (value, seen, has)) = inr (value, Seen-⊑ _ p seen, has)
Aliased-Stays opts alias (some metadata) h g p v = record {
  value = v.value;
  described = Seen-⊑ _ p v.described;
  has_metadata = v.has_metadata;
}

module _ (opts : TeardownOptions) (Q : History → Request → Type 0)
    (reads : (h : History) (c : Command) → IsReadOnly c → Q h (asked opts c)) where
  verify_tags-Runs :
      (t : Target) (metadata : Metadata) (value : Option Value) (h : History)
      → Answered opts (describe_key t.id) (printed value) h
      → value_metadata value ≡ some metadata
      → is_in_place opts.place (parse_key_arn metadata.arn) ≡ true
      → (r : Reply)
      → Runs Q
          (Verified opts t)
          (record { request = asked opts (list_resource_tags metadata.key_id); reply = r } ∷ h)
          (attempt (tried r) (verify_tags t metadata) throw)
  unfolding attempt verify_tags
  verify_tags-Runs t metadata value h seen has inside (printed tags) =
      let g : History =
        record { request = asked opts (list_resource_tags metadata.key_id); reply = printed tags }
        ∷ h in
      let spec_test : Program (Option Metadata) =
        if not (has_spec t.key_spec metadata.key_spec)
        then throw (other_error "refusing to modify: key spec")
        else done (some metadata) in
      Runs-if Q (Verified opts t) g (not (has_tags t.expected_tags (value_tags tags)))
        (throw (other_error "refusing to modify: ownership tag")) spec_test (λ e. tt)
        λ tagged.
          Runs-if Q (Verified opts t) g (not (has_spec t.key_spec metadata.key_spec))
            (throw (other_error "refusing to modify: key spec")) (done (some metadata)) (λ e. tt)
            λ spec. record {
              value = value;
              tags = tags;
              described = inr seen;
              has_metadata = has;
              in_place = inside;
              tags_listed = inl refl;
              tagged = not-false _ tagged;
              of_spec = not-false _ spec;
            }
  verify_tags-Runs t metadata value h seen has inside (exited stderr) = tt
  verify_tags-Runs t metadata value h seen has inside (not_launched message) = tt

  verify_described-Runs :
      (t : Target) (value : Option Value) (h : History) (m : Option Metadata)
      → Answered opts (describe_key t.id) (printed value) h
      → value_metadata value ≡ m
      → Runs Q (Verified opts t) h (verify_described opts t m)
  unfolding verify_described aws_try read_only_options attempt
  verify_described-Runs t value h none seen has = tt
  verify_described-Runs t value h (some metadata) seen has =
      Runs-if Q (Verified opts t) h (not (is_in_place opts.place (parse_key_arn metadata.arn)))
        (throw (other_error "resolves outside the selected account/region"))
        (aws_try (read_only_options opts.aws) (list_resource_tags metadata.key_id)
          >>= verify_tags t metadata)
        (λ e. tt)
        λ inside. (
          reads h (list_resource_tags metadata.key_id) tt,
          verify_tags-Runs t metadata value h seen has (not-false _ inside),
        )

  -- `verifyOwnedTarget` only reads, and returns what the replies show.
  pub verify_owned_target-Runs :
      (t : Target) (h : History) → Runs Q (Verified opts t) h (verify_owned_target opts t)
  unfolding verify_owned_target aws_try read_only_options attempt if_found
  verify_owned_target-Runs t h = (
    reads h (describe_key t.id) tt,
    elim [
      | printed value ↦ verify_described-Runs t value _ (value_metadata value) (inl refl) refl
      | exited stderr ↦
          Runs-if Q (Verified opts t)
            (record { request = asked opts (describe_key t.id); reply = exited stderr } ∷ h)
            (code_is stderr not_found) (done none) (throw (aws_cli_error stderr))
            (λ code. record { stderr = stderr; described = inl refl; code = code }) (λ e. tt)
      | not_launched message ↦ tt
    ],
  )

  Aliased-Runs :
      (alias : Text) (h : History) (value : Option Value) (m : Option Metadata)
      → Answered opts (describe_key alias) (printed value) h
      → value_metadata value ≡ m
      → Aliased opts alias h m
  Aliased-Runs alias h value none seen has = inr (value, seen, has)
  Aliased-Runs alias h value (some metadata) seen has = record {
    value = value;
    described = seen;
    has_metadata = has;
  }

  pub describe_alias_async-Runs :
      (alias : Text) (h : History) → Runs Q (Aliased opts alias) h (describe_alias_async opts alias)
  unfolding describe_alias_async aws_try read_only_options attempt if_found
  describe_alias_async-Runs alias h = (
    reads h (describe_key alias) tt,
    elim [
      | printed value ↦ Aliased-Runs alias _ value (value_metadata value) (inl refl) refl
      | exited stderr ↦
          Runs-if Q (Aliased opts alias)
            (record { request = asked opts (describe_key alias); reply = exited stderr } ∷ h)
            (code_is stderr not_found) (done none) (throw (aws_cli_error stderr))
            (λ code. inl (record { stderr = stderr; described = inl refl; code = code })) (λ e. tt)
      | not_launched message ↦ tt
    ],
  )

-- ===== src/Kms/Teardown.antt =====
-- scripts/real-kms-keys.mjs: `teardown` and what it calls. A dry run and the read-only calls are
-- those of aws_try. What is logged is left out.
pub mod Evidence
use keyobject_aws_kms.Prelude.{
  ℕ, zero, suc, ◌+◌, Bool, true, false, not, ◌&&◌, ◌||◌, ◌==◌, Option, none, some, List, [], ◌∷◌,
  ◌++◌, map, if◌then◌else◌, is_empty, any, Text, codes, text_eq, String, length,
}
use keyobject_aws_kms.Kms.Program.{
  Command, describe_key, list_resource_tags, get_resources, list_keys, delete_alias,
  schedule_key_deletion, Metadata, KeyEntry, Value, Options, Program, done, throw, Failure,
  aws_cli_error, other_error, Tried, succeeded, failed, aws_try, read_only_options, code_is,
  attempt, catch, ◌>>=◌, ◌>>◌,
}
use keyobject_aws_kms.Kms.MapLimit.{Limit, map_limit}
use keyobject_aws_kms.Kms.Manifest.{
  parse_key_arn, KeyArn, Tags, ManifestKey, Manifest, owner_tag, owner_value,
}
use keyobject_aws_kms.Kms.Validation.{
  Place, is_in_place, read_manifest, ManifestFile, thrown, returned, ReadManifest,
}

-- `opts`, as far as teardown reads it.
pub record TeardownOptions : Type 0 where
  pub place : Place
  pub aws : Options
  pub window : ℕ
  pub concurrency : Limit
  pub sweep : Bool
  pub manifest_explicit : Bool

-- A key to remove. `alias` and `key_spec` are `none` where they are null.
pub record Target : Type 0 where
  pub id : Text
  pub alias : Option Text
  pub key_spec : Option Text
  pub expected_tags : Tags

abbrev pub not_found : Text
not_found = codes "NotFoundException"

abbrev pub invalid_state : Text
invalid_state = codes "KMSInvalidStateException"

abbrev pub value_metadata : Option Value → Option Metadata
value_metadata none = none
value_metadata (some v) = v.key_metadata

abbrev pub or_empty {ℓ} : {A : Type ℓ} → Option (List A) → List A
or_empty none = []
or_empty (some xs) = xs

abbrev pub value_tags : Option Value → Tags
value_tags none = []
value_tags (some v) = or_empty v.tags

-- `Object.fromEntries(tags)[key]`: the last entry counts.
unfoldable pub lookup_last : Text → Tags → Option Text
lookup_last key [] = none
lookup_last key ((k, v) ∷ tags) = elim (lookup_last key tags) [
  | some w ↦ some w
  | none ↦ if text_eq k key then some v else none
]

abbrev pub opt_eq : Option Text → Text → Bool
opt_eq none t = false
opt_eq (some s) t = text_eq s t

-- The loop over `Object.entries(target.expectedTags)`: every tag has its value.
unfoldable pub has_tags : Tags → Tags → Bool
unfolding lookup_last
has_tags [] actual = true
has_tags ((k, v) ∷ expected) actual = opt_eq (lookup_last k actual) v && has_tags expected actual

-- `!target.keySpec || metadata.KeySpec === target.keySpec`.
abbrev pub has_spec : Option Text → Text → Bool
has_spec none actual = true
has_spec (some spec) actual = is_empty spec || text_eq actual spec

-- The tests of `verifyOwnedTarget` on the tags and the key spec.
unfoldable pub verify_tags : Target → Metadata → Tried → Program (Option Metadata)
verify_tags t metadata (failed stderr) = throw (aws_cli_error stderr)
verify_tags t metadata (succeeded value) =
    if not (has_tags t.expected_tags (value_tags value))
    then throw (other_error "refusing to modify: ownership tag")
    else if not (has_spec t.key_spec metadata.key_spec)
    then throw (other_error "refusing to modify: key spec")
    else done (some metadata)

-- The part of `verifyOwnedTarget` behind the reply to describe-key.
unfoldable pub verify_described :
    TeardownOptions → Target → Option Metadata → Program (Option Metadata)
verify_described opts t none = throw (other_error "resolves outside the selected account/region")
verify_described opts t (some metadata) =
    if not (is_in_place opts.place (parse_key_arn metadata.arn))
    then throw (other_error "resolves outside the selected account/region")
    else (aws_try (read_only_options opts.aws) (list_resource_tags metadata.key_id)
        >>= verify_tags t metadata)

unfoldable pub if_found : {B : Type 0} → Tried → Program B → (Option Value → Program B) → Program B
if_found (succeeded value) absent found = found value
if_found (failed stderr) absent found =
    if code_is stderr not_found then absent else throw (aws_cli_error stderr)

-- `verifyOwnedTarget(target, opts)`: the metadata, or `none` for a key that does not exist.
unfoldable pub verify_owned_target : TeardownOptions → Target → Program (Option Metadata)
verify_owned_target opts t = do
  described ← aws_try (read_only_options opts.aws) (describe_key t.id)
  if_found described (done none) (λ value. verify_described opts t (value_metadata value))

-- `describeAliasAsync(alias, opts)`.
unfoldable pub describe_alias_async : TeardownOptions → Text → Program (Option Metadata)
describe_alias_async opts alias = do
  described ← aws_try (read_only_options opts.aws) (describe_key alias)
  if_found described (done none) (λ value. done (value_metadata value))

-- What the preflight of a target gives: `null`, or the target with its alias where that exists.
pub record Entry : Type 0 where
  pub target : Target
  pub alias : Option Text

-- The comparison of the alias with the verified key.
unfoldable pub entry_for : Target → Text → Metadata → Option Metadata → Program (Option Entry)
entry_for t alias metadata none = done (some (record { target = t; alias = none }))
entry_for t alias metadata (some aliased) =
    if not (text_eq aliased.arn metadata.arn)
    then throw (other_error "refusing to delete: it targets another key")
    else done (some (record { target = t; alias = some alias }))

unfoldable pub preflight_alias :
    TeardownOptions → Target → Metadata → Option Text → Program (Option Entry)
preflight_alias opts t metadata none = done (some (record { target = t; alias = none }))
preflight_alias opts t metadata (some alias) =
    if is_empty alias
    then done (some (record { target = t; alias = none }))
    else (describe_alias_async opts alias >>= entry_for t alias metadata)

unfoldable pub preflight_verified :
    TeardownOptions → Target → Option Metadata → Program (Option Entry)
preflight_verified opts t none = done none
preflight_verified opts t (some metadata) = preflight_alias opts t metadata t.alias

-- The function of the first `mapLimit` of `teardown`.
unfoldable pub preflight : TeardownOptions → Target → Program (Option Entry)
preflight opts t = verify_owned_target opts t >>= preflight_verified opts t

-- ===== src/Kms/Collect.antt =====
-- scripts/real-kms-keys.mjs: sweepTagged, collectTargets and the whole of `teardown`.
pub mod Sweep
pub mod Manifested
pub mod Whole
use keyobject_aws_kms.Prelude.{
  ℕ, Bool, true, false, not, ◌&&◌, ◌||◌, Option, none, some, List, [], ◌∷◌, ◌++◌, map,
  if◌then◌else◌, is_empty, any, Text, codes, text_eq, String,
}
use keyobject_aws_kms.Kms.Program.{
  get_resources, list_keys, list_resource_tags, KeyEntry, Value, Program, done, throw,
  aws_cli_error, other_error, Tried, succeeded, failed, aws_try, read_only_options, ◌>>=◌,
}
use keyobject_aws_kms.Kms.Manifest.{ManifestKey, Manifest, Tags, owner_tag, owner_value}
use keyobject_aws_kms.Kms.Validation.{ManifestFile, thrown, returned, read_manifest, ReadManifest}
use keyobject_aws_kms.Kms.Teardown.{TeardownOptions, Target, value_tags, or_empty}
use keyobject_aws_kms.Kms.Cleanup.{Schedules, cleanup}

abbrev pub value_resource_arns : Option Value → List Text
value_resource_arns none = []
value_resource_arns (some v) = or_empty v.resource_arns

abbrev pub value_keys : Option Value → List KeyEntry
value_keys none = []
value_keys (some v) = or_empty v.keys

abbrev pub or_else {ℓ} : {A : Type ℓ} → Option A → A → A
or_else none b = b
or_else (some a) b = a

-- A key with the owner's tag.
unfoldable pub is_tagged : Tags → Bool
is_tagged tags = any (λ tag. text_eq tag.0 owner_tag && text_eq tag.1 owner_value) tags

-- A key whose tags cannot be listed is left out.
unfoldable pub found_by : KeyEntry → List Text → Tried → List Text
unfolding is_tagged
found_by key found (failed stderr) = found
found_by key found (succeeded value) =
    if is_tagged (value_tags value) then found ++ or_else key.key_arn key.key_id ∷ [] else found

-- The loop over the listed keys.
unfoldable pub sweep_keys : TeardownOptions → List Text → List KeyEntry → Program (List Text)
unfolding found_by
sweep_keys opts found [] = done found
sweep_keys opts found (key ∷ keys) =
    aws_try (read_only_options opts.aws) (list_resource_tags key.key_id) >>= λ tags.
    sweep_keys opts (found_by key found tags) keys

unfoldable pub sweep_listed : TeardownOptions → Tried → Program (List Text)
sweep_listed opts (failed stderr) = throw (aws_cli_error stderr)
sweep_listed opts (succeeded value) = sweep_keys opts [] (value_keys value)

unfoldable pub sweep_resources : TeardownOptions → Tried → Program (List Text)
sweep_resources opts (succeeded value) = done (value_resource_arns value)
sweep_resources opts (failed stderr) =
    aws_try (read_only_options opts.aws) list_keys >>= sweep_listed opts

-- `sweepTagged(opts)`.
unfoldable pub sweep_tagged : TeardownOptions → Program (List Text)
sweep_tagged opts =
    aws_try (read_only_options opts.aws) (get_resources owner_tag owner_value)
    >>= sweep_resources opts

-- `key.keySpec ?? key.spec`.
abbrev pub first_spec : Option Text → Option Text → Option Text
first_spec none spec = spec
first_spec (some key_spec) spec = some key_spec

-- The target of a member of `manifest.keys`. A validated manifest has `arn` and `expectedTags`.
unfoldable pub target_of : ManifestKey → Target
target_of key = record {
  id = or_else key.arn [];
  alias = key.alias;
  key_spec = first_spec key.key_spec key.spec;
  expected_tags = or_empty key.expected_tags;
}

-- The target of a key that the sweep has found.
unfoldable pub swept_target : Text → Target
swept_target arn = record {
  id = arn;
  alias = none;
  key_spec = none;
  expected_tags = (owner_tag, owner_value) ∷ [];
}

-- `targets.has(id)`.
unfoldable pub has_id : Text → List Target → Bool
has_id id targets = any (λ t. text_eq t.id id) targets

-- `add(target)`.
unfoldable pub add : List Target → Target → List Target
unfolding has_id
add targets t =
    if not (is_empty t.id) && not (has_id t.id targets) then targets ++ t ∷ [] else targets

unfoldable pub add_all : List Target → List Target → List Target
unfolding add
add_all targets [] = targets
add_all targets (t ∷ ts) = add_all (add targets t) ts

abbrev pub entry_targets : List (Text × ManifestKey) → List Target
entry_targets entries = map (λ entry. target_of entry.1) entries

-- `manifest?.keys ?? {}`.
abbrev pub manifest_entries : Option Manifest → List (Text × ManifestKey)
manifest_entries none = []
manifest_entries (some m) = or_empty m.keys

-- `collectTargets(manifest, opts)`: the targets in the order in which they were added.
unfoldable pub collect_targets : TeardownOptions → Option Manifest → Program (List Target)
unfolding add_all
collect_targets opts m =
    let from_manifest = add_all [] (entry_targets (manifest_entries m)) in
    if opts.sweep
    then (sweep_tagged opts >>= λ arns. done (add_all from_manifest (map swept_target arns)))
    else done from_manifest

unfoldable pub ignore_unusable : TeardownOptions → ReadManifest → ReadManifest
ignore_unusable opts (returned m) = returned m
ignore_unusable opts (thrown message) =
    if not opts.sweep || opts.manifest_explicit then thrown message else returned none

-- The manifest that `teardown` goes on with.
unfoldable pub teardown_manifest : TeardownOptions → ManifestFile → ReadManifest
unfolding ignore_unusable
teardown_manifest opts file =
    ignore_unusable opts (read_manifest opts.place (opts.sweep && not opts.manifest_explicit) file)

unfoldable pub teardown_with : TeardownOptions → Schedules → ReadManifest → Program ℕ
teardown_with opts schedules (thrown message) = throw (other_error message)
teardown_with opts schedules (returned m) = collect_targets opts m >>= cleanup opts schedules

-- `teardown(opts)`, with the file at `opts.manifest`.
unfoldable pub teardown : TeardownOptions → Schedules → ManifestFile → Program ℕ
teardown opts schedules file = teardown_with opts schedules (teardown_manifest opts file)

-- ===== src/Kms/Validation.antt =====
-- scripts/real-kms-keys.mjs: validateManifest and readManifest. A thrown error is its message,
-- without the values that are put into it.
pub mod Accepted
use keyobject_aws_kms.Prelude.{
  ℕ, Bool, true, false, not, ◌&&◌, ◌||◌, ◌==◌, Option, none, some, List, [], ◌∷◌, ◌++◌,
  if◌then◌else◌, is_empty, any, Text, codes, text_eq, starts_with, String,
}
use keyobject_aws_kms.Kms.Manifest.{
  KeyArn, parse_key_arn, Tags, ManifestKey, Roles, absent, not_an_array, listed, Manifest,
  alias_prefix, all_roles, expected_tags, is_run_id, includes, is_unique,
}

-- The caller's account and the selected region.
pub record Place : Type 0 where
  pub account : Text
  pub region : Text

unfoldable pub opt_is : Option Text → Text → Bool
opt_is none t = false
opt_is (some s) t = text_eq s t

-- `!arn || arn.account !== opts.account || arn.region !== opts.region`, negated.
unfoldable pub is_in_place : Place → Option KeyArn → Bool
is_in_place place none = false
is_in_place place (some arn) = text_eq arn.account place.account && text_eq arn.region place.region

abbrev pub parse_arn : Option Text → Option KeyArn
parse_arn none = none
parse_arn (some arn) = parse_key_arn arn

unfoldable pub tags_eq : Tags → Tags → Bool
tags_eq [] [] = true
tags_eq [] (u ∷ us) = false
tags_eq (t ∷ ts) [] = false
tags_eq (t ∷ ts) (u ∷ us) = text_eq t.0 u.0 && text_eq t.1 u.1 && tags_eq ts us

-- `JSON.stringify(a) === JSON.stringify(b)`, where `b` is an object of strings.
abbrev pub opt_tags_eq : Option Tags → Tags → Bool
opt_tags_eq none us = false
opt_tags_eq (some ts) us = tags_eq ts us

abbrev pub opt_starts_with : Option Text → Text → Bool
opt_starts_with none prefix = false
opt_starts_with (some s) prefix = starts_with s prefix

-- `${ALIAS_PREFIX}${runId}-`.
abbrev pub alias_namespace : Text → Text
alias_namespace run_id = alias_prefix ++ (run_id ++ codes "-")

-- The tests on the role, the alias and the tags of a member of `keys`.
unfoldable pub check_ownership : Text → List Text → ManifestKey → Text → Text → Option String
check_ownership run_id roles key role spec =
    if not (includes roles role)
    then some "manifest key has a role outside manifest roles"
    else if not (opt_starts_with key.alias (alias_namespace run_id))
    then some "manifest key has an alias outside this run's namespace"
    else if not (opt_tags_eq key.expected_tags (expected_tags run_id role spec))
    then some "manifest key has unexpected ownership tags"
    else none

unfoldable pub check_identity :
    Text → List Text → ManifestKey → KeyArn → Option Text → Option Text → Option String
check_identity run_id roles key arn none spec = some "manifest key has inconsistent identity fields"
check_identity run_id roles key arn (some role) none =
    some "manifest key has inconsistent identity fields"
check_identity run_id roles key arn (some role) (some spec) =
    if not (opt_is key.key_id arn.key_id)
    then some "manifest key has inconsistent identity fields"
    else check_ownership run_id roles key role spec

-- The body of the loop over `Object.entries(manifest.keys)`.
unfoldable pub check_key : Place → Text → List Text → ManifestKey → Option String
unfolding is_in_place check_identity check_ownership
check_key place run_id roles key = elim (parse_arn key.arn) [
  | none ↦ some "manifest key has an ARN outside the selected account/region"
  | some arn ↦
      if not (is_in_place place (some arn))
      then some "manifest key has an ARN outside the selected account/region"
      else check_identity run_id roles key arn key.role key.spec
]

unfoldable pub check_keys : Place → Text → List Text → List (Text × ManifestKey) → Option String
unfolding check_key
check_keys place run_id roles [] = none
check_keys place run_id roles ((name, key) ∷ entries) =
    let rest = check_keys place run_id roles entries in
    elim (check_key place run_id roles key) [ some message ↦ some message | none ↦ rest ]

-- `manifest.roles ?? ROLES`, where it is a non-empty list of known roles without duplicates.
unfoldable pub valid_roles : Roles → Option (List Text)
valid_roles absent = some all_roles
valid_roles not_an_array = none
valid_roles (listed roles) =
    if is_empty roles || not (is_unique roles) || any (λ role. not (includes all_roles role)) roles
    then none
    else some roles

abbrev opt_is_one : Option ℕ → Bool
opt_is_one none = false
opt_is_one (some version) = version == 1

-- The tests behind that on `runId`.
unfoldable pub check_contents : Place → Text → Manifest → Option String
unfolding valid_roles check_keys
check_contents place run_id m = elim m.keys [
  | none ↦ some "manifest keys must be an object"
  | some keys ↦ elim (valid_roles m.roles) [
    | none ↦ some "manifest roles must contain unique values from test, other"
    | some roles ↦ check_keys place run_id roles keys
  ]
]

abbrev run_id_or_empty : Option Text → Text
run_id_or_empty none = []
run_id_or_empty (some run_id) = run_id

-- `validateManifest(manifest, opts)`: `none` if it returns.
unfoldable pub validate_manifest : Place → Manifest → Option String
unfolding check_contents
validate_manifest place m =
    if not (opt_is_one m.version)
    then some "manifest version must be 1"
    else if not (opt_is m.account place.account)
    then some "manifest account does not match caller account"
    else if not (opt_is m.region place.region)
    then some "manifest region does not match"
    else if not (is_run_id (run_id_or_empty m.run_id))
    then some "manifest has an invalid runId"
    else check_contents place (run_id_or_empty m.run_id) m

-- The file at `opts.manifest`.
pub data ManifestFile : Type 0 where
  missing not_json : ManifestFile
  parsed : Manifest → ManifestFile

pub data ReadManifest : Type 0 where
  thrown : String → ReadManifest
  returned : Option Manifest → ReadManifest

-- `readManifest(opts, {optional})`.
unfoldable pub read_manifest : Place → Bool → ManifestFile → ReadManifest
unfolding validate_manifest
read_manifest place optional missing =
    if optional then returned none else thrown "manifest not found"
read_manifest place optional not_json = thrown "cannot parse manifest"
read_manifest place optional (parsed m) = elim (validate_manifest place m) [
  | some message ↦ thrown message
  | none ↦ returned (some m)
]

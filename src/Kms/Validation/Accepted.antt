-- ===== src/Kms/Validation/Accepted.antt =====
-- What `validateManifest` of scripts/real-kms-keys.mjs has established about a manifest.
use keyobject_aws_kms.Prelude.{
  ◌≡◌, refl, ap, true, false, Option, none, some, List, [], ◌∷◌, arith, Option-cases, inl, inr, All,
  Text, text_eq_sound, starts_with,
}
use keyobject_aws_kms.Kms.Manifest.{
  KeyArn, parse_key_arn, Tags, ManifestKey, Manifest, expected_tags, is_run_id, includes,
}
use keyobject_aws_kms.Kms.Validation.{
  Place, opt_is, is_in_place, tags_eq, opt_tags_eq, opt_starts_with, alias_namespace,
  check_ownership, check_identity, check_key, check_keys, valid_roles, check_contents,
  validate_manifest,
}

opt_is_sound : (s : Option Text) (t : Text) → opt_is s t ≡ true → s ≡ some t
unfolding opt_is
opt_is_sound none t h = absurd (cc h)
opt_is_sound (some s) t h = ap some (text_eq_sound s t h)

tags_eq_sound : (ts us : Tags) → tags_eq ts us ≡ true → ts ≡ us
unfolding tags_eq
tags_eq_sound [] [] h = refl
tags_eq_sound [] (u ∷ us) h = absurd (cc h)
tags_eq_sound (t ∷ ts) [] h = absurd (cc h)
tags_eq_sound ((a, b) ∷ ts) ((c, d) ∷ us) h =
    ground (arith, text_eq_sound a c, text_eq_sound b d, tags_eq_sound ts us)

-- A member of `keys` that belongs to the run: a key of the account and the region, with an alias in
-- the namespace of the run and the tags of the run.
pub record IsOfRun (place : Place) (run_id : Text) (roles : List Text) (key : ManifestKey)
    : Type 0 where
  pub arn : Text
  pub parts : KeyArn
  pub role : Text
  pub spec : Text
  pub alias : Text
  pub has_arn : key.arn ≡ some arn
  pub has_parts : parse_key_arn arn ≡ some parts
  pub in_account : parts.account ≡ place.account
  pub in_region : parts.region ≡ place.region
  pub has_id : key.key_id ≡ some parts.key_id
  pub has_role : key.role ≡ some role
  pub has_spec : key.spec ≡ some spec
  pub listed_role : includes roles role ≡ true
  pub has_alias : key.alias ≡ some alias
  pub in_namespace : starts_with alias (alias_namespace run_id) ≡ true
  pub has_tags : key.expected_tags ≡ some (expected_tags run_id role spec)

check_key-arn :
    (place : Place) (run_id : Text) (roles : List Text) (key : ManifestKey) (o : Option Text)
    → key.arn ≡ o
    → check_key place run_id roles key ≡ none
    → (arn : Text) × (parts : KeyArn) × (key.arn ≡ some arn)
      × (parse_key_arn arn ≡ some parts)
      × (is_in_place place (some parts) ≡ true)
      × (check_identity run_id roles key parts key.role key.spec ≡ none)
unfolding check_key
check_key-arn place run_id roles key none e h = ground arith
check_key-arn place run_id roles key (some arn) e h = elim (Option-cases (parse_key_arn arn)) [
  | inl bad ↦ ground arith
  | inr (parts, good) ↦ (arn, parts, e, good, ground arith, ground arith)
]

in_place :
    (place : Place) (k : KeyArn)
    → is_in_place place (some k) ≡ true
    → (k.account ≡ place.account) × (k.region ≡ place.region)
unfolding is_in_place
in_place place k h = (text_eq_sound _ _ (ground arith), text_eq_sound _ _ (ground arith))

check_identity_sound :
    (run_id : Text) (roles : List Text) (key : ManifestKey) (parts : KeyArn) (r s : Option Text)
    → check_identity run_id roles key parts r s ≡ none
    → (role spec : Text) × (r ≡ some role)
      × (s ≡ some spec)
      × (opt_is key.key_id parts.key_id ≡ true)
      × (includes roles role ≡ true)
      × (opt_starts_with key.alias (alias_namespace run_id) ≡ true)
      × (opt_tags_eq key.expected_tags (expected_tags run_id role spec) ≡ true)
unfolding check_identity check_ownership
check_identity_sound run_id roles key parts none s h = absurd (cc h)
check_identity_sound run_id roles key parts (some role) none h = absurd (cc h)
check_identity_sound run_id roles key parts (some role) (some spec) h =
    (role, spec, refl, refl, ground arith, ground arith, ground arith, ground arith)

opt_starts_with_sound :
    (o : Option Text) (prefix : Text)
    → opt_starts_with o prefix ≡ true
    → (s : Text) × (o ≡ some s) × (starts_with s prefix ≡ true)
opt_starts_with_sound none prefix h = absurd (cc h)
opt_starts_with_sound (some s) prefix h = (s, refl, h)

opt_tags_eq_sound : (o : Option Tags) (us : Tags) → opt_tags_eq o us ≡ true → o ≡ some us
opt_tags_eq_sound none us h = absurd (cc h)
opt_tags_eq_sound (some ts) us h = ap some (tags_eq_sound ts us h)

check_key_sound :
    (place : Place) (run_id : Text) (roles : List Text) (key : ManifestKey)
    → check_key place run_id roles key ≡ none
    → IsOfRun place run_id roles key
check_key_sound place run_id roles key h =
    let (arn, parts, has_arn, has_parts, inside, rest) =
      check_key-arn place run_id roles key key.arn refl h in
    let (role, spec, has_role, has_spec, id, listed, alias, tags) =
      check_identity_sound run_id roles key parts key.role key.spec rest in
    let (name, has_alias, prefix) = opt_starts_with_sound key.alias _ alias in
    record {
      arn = arn;
      parts = parts;
      role = role;
      spec = spec;
      alias = name;
      has_arn = has_arn;
      has_parts = has_parts;
      in_account = (in_place place parts inside).0;
      in_region = (in_place place parts inside).1;
      has_id = opt_is_sound key.key_id parts.key_id id;
      has_role = has_role;
      has_spec = has_spec;
      listed_role = listed;
      has_alias = has_alias;
      in_namespace = prefix;
      has_tags = opt_tags_eq_sound key.expected_tags _ tags;
    }

check_keys_sound :
    (place : Place) (run_id : Text) (roles : List Text) (entries : List (Text × ManifestKey))
    → check_keys place run_id roles entries ≡ none
    → All (λ entry. IsOfRun place run_id roles entry.1) entries
unfolding check_keys
check_keys_sound place run_id roles [] h = tt
check_keys_sound place run_id roles ((name, key) ∷ entries) h = (
  check_key_sound place run_id roles key (ground arith),
  check_keys_sound place run_id roles entries (ground arith),
)

-- What holds of a manifest that `validateManifest` lets through.
pub record IsOfCaller (place : Place) (m : Manifest) : Type 0 where
  pub run_id : Text
  pub roles : List Text
  pub keys : List (Text × ManifestKey)
  pub version : m.version ≡ some 1
  pub account : m.account ≡ some place.account
  pub region : m.region ≡ some place.region
  pub has_run_id : m.run_id ≡ some run_id
  pub good_run_id : is_run_id run_id ≡ true
  pub has_roles : valid_roles m.roles ≡ some roles
  pub has_keys : m.keys ≡ some keys
  pub of_run : All (λ entry. IsOfRun place run_id roles entry.1) keys

check_contents_sound :
    (place : Place) (run_id : Text) (m : Manifest) (k : Option (List (Text × ManifestKey)))
    → m.keys ≡ k
    → check_contents place run_id m ≡ none
    → (roles : List Text) × (keys : List (Text × ManifestKey)) × (valid_roles m.roles ≡ some roles)
      × (m.keys ≡ some keys)
      × All (λ entry. IsOfRun place run_id roles entry.1) keys
unfolding check_contents
check_contents_sound place run_id m none e h = ground arith
check_contents_sound place run_id m (some keys) e h = elim (Option-cases (valid_roles m.roles)) [
  | inl bad ↦ ground arith
  | inr (roles, good) ↦
      (roles, keys, good, e, check_keys_sound place run_id roles keys (ground arith))
]

not_run_id : is_run_id [] ≡ false
unfolding is_run_id
not_run_id = refl

checks_sound :
    (place : Place) (m : Manifest) (r : Option Text)
    → m.run_id ≡ r
    → validate_manifest place m ≡ none
    → (run_id : Text) × (m.run_id ≡ some run_id)
      × (m.version ≡ some 1)
      × (opt_is m.account place.account ≡ true)
      × (opt_is m.region place.region ≡ true)
      × (is_run_id run_id ≡ true)
      × (check_contents place run_id m ≡ none)
unfolding validate_manifest
checks_sound place m none e h = absurd (ground (arith, not_run_id))
checks_sound place m (some run_id) e h =
    (run_id, e, ground arith, ground arith, ground arith, ground arith, ground arith)

-- A manifest that `validateManifest` lets through is of the caller's account and the selected
-- region, and so is each of its keys; each key has an alias in the namespace of the manifest's run
-- and the ownership tags of that run.
pub validate_manifest-IsOfCaller :
    (place : Place) (m : Manifest) → validate_manifest place m ≡ none → IsOfCaller place m
validate_manifest-IsOfCaller place m h =
    let (run_id, has_run_id, version, account, region, good, contents) =
      checks_sound place m m.run_id refl h in
    let (roles, keys, has_roles, has_keys, of_run) =
      check_contents_sound place run_id m m.keys refl contents in
    record {
      run_id = run_id;
      roles = roles;
      keys = keys;
      version = version;
      account = opt_is_sound m.account place.account account;
      region = opt_is_sound m.region place.region region;
      has_run_id = has_run_id;
      good_run_id = good;
      has_roles = has_roles;
      has_keys = has_keys;
      of_run = of_run;
    }

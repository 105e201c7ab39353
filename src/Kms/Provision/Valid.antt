-- ===== src/Kms/Provision/Valid.antt =====
-- That the manifest of `setup` passes the validation of scripts/real-kms-keys.mjs.
use keyobject_aws_kms.Prelude.{
  arith, ◌≡◌, refl, ap, subst, ◌∙◌, true, none, some, List, [], ◌∷◌, ◌++◌, All, Text, codes,
  text_eq_refl, starts_with, starts_with-append, append_assoc,
}
use keyobject_aws_kms.Kms.Manifest.{
  KeyArn, parse_key_arn, Tags, ManifestKey, listed, expected_tags, is_run_id, includes,
  alias_prefix,
}
use keyobject_aws_kms.Kms.Validation.{
  Place, opt_is, is_in_place, tags_eq, alias_namespace, check_ownership, check_identity, check_key,
  check_keys, valid_roles, check_contents, validate_manifest,
}
use keyobject_aws_kms.Kms.Setup.{SetupOptions, Wanted, alias_for, alias_suffix}
use keyobject_aws_kms.Kms.Provision.{
  Created, Provisioned, unavailable, created, label, key_of, put_key, put_results, setup_manifest,
}

tags_eq_refl : (ts : Tags) → tags_eq ts ts ≡ true
unfolding tags_eq
tags_eq_refl [] = refl
tags_eq_refl ((a, b) ∷ ts) = rw (text_eq_refl a, text_eq_refl b, tags_eq_refl ts) refl

-- A created key with an ARN of the place, and the role, the alias and the tags of the run.
pub record IsGood (place : Place) (run_id : Text) (roles : List Text) (c : Created) : Type 0 where
  pub parts : KeyArn
  pub has_parts : parse_key_arn c.arn ≡ some parts
  pub inside : is_in_place place (some parts) ≡ true
  pub has_id : c.key_id ≡ parts.key_id
  pub has_role : includes roles c.wanted.role ≡ true
  pub in_namespace : starts_with c.alias (alias_namespace run_id) ≡ true
  pub has_tags : c.tags ≡ expected_tags run_id c.wanted.role c.wanted.spec

abbrev pub Good : Place → Text → List Text → Provisioned → Type 0
Good place run_id roles (unavailable w) = Unit
Good place run_id roles (created c) = IsGood place run_id roles c

pub alias_for-namespace :
    (lower_case : Text → Text) (run_id : Text) (w : Wanted)
    → starts_with (alias_for lower_case run_id w) (alias_namespace run_id) ≡ true
unfolding alias_for
alias_for-namespace lower_case run_id w =
    subst (λ s. starts_with s (alias_namespace run_id) ≡ true)
      (append_assoc alias_prefix (run_id ++ codes "-") (alias_suffix lower_case w)
        ∙ ap (λ s. alias_prefix ++ s) (append_assoc run_id (codes "-") (alias_suffix lower_case w)))
      (starts_with-append (alias_namespace run_id) (alias_suffix lower_case w))

check_key-key_of :
    (place : Place) (run_id : Text) (roles : List Text) (c : Created)
    → IsGood place run_id roles c
    → check_key place run_id roles (key_of c) ≡ none
unfolding check_key check_identity check_ownership key_of opt_is parse_key_arn
check_key-key_of place run_id roles c g =
    rw
      (
        g.has_parts, g.inside, g.has_id, text_eq_refl, g.has_role, g.in_namespace, g.has_tags,
        tags_eq_refl,
      )
      refl

check_keys-nil :
    (place : Place) (run_id : Text) (roles : List Text) → check_keys place run_id roles [] ≡ none
unfolding check_keys
check_keys-nil place run_id roles = refl

check_keys-put_key :
    (place : Place) (run_id : Text) (roles : List Text) (name : Text) (key : ManifestKey)
    (keys : List (Text × ManifestKey))
    → check_key place run_id roles key ≡ none
    → check_keys place run_id roles keys ≡ none
    → check_keys place run_id roles (put_key name key keys) ≡ none
unfolding check_keys put_key
check_keys-put_key place run_id roles name key [] k ks = rw (check_keys, k) refl
check_keys-put_key place run_id roles name key ((n, x) ∷ keys) k ks =
    ground (arith, check_keys-put_key place run_id roles name key keys)

check_keys-put_results :
    (place : Place) (run_id : Text) (roles : List Text) (keys : List (Text × ManifestKey))
    (results : List Provisioned)
    → All (Good place run_id roles) results
    → check_keys place run_id roles keys ≡ none
    → check_keys place run_id roles (put_results keys results) ≡ none
unfolding put_results
check_keys-put_results place run_id roles keys [] g ks = ks
check_keys-put_results place run_id roles keys (unavailable w ∷ results) g ks =
    check_keys-put_results place run_id roles keys results g.1 ks
check_keys-put_results place run_id roles keys (created c ∷ results) g ks =
    check_keys-put_results place run_id roles (put_key (label c.wanted) (key_of c) keys) results g.1
      (check_keys-put_key place run_id roles (label c.wanted) (key_of c) keys
        (check_key-key_of place run_id roles c g.0) ks)

-- The manifest that `setup` makes passes `validateManifest`, if the run id and the roles are valid and
-- each created key has an ARN of the account and the region that names its id, one of the roles, an
-- alias in the namespace of the run and the tags of the run.
pub setup_manifest-validate_manifest :
    (opts : SetupOptions) (run_id : Text) (results : List Provisioned)
    → is_run_id run_id ≡ true
    → valid_roles (listed opts.roles) ≡ some opts.roles
    → All (Good opts.place run_id opts.roles) results
    → validate_manifest opts.place (setup_manifest opts run_id results) ≡ none
unfolding setup_manifest validate_manifest check_contents opt_is
setup_manifest-validate_manifest opts run_id results run roles good =
    rw
      (
        text_eq_refl opts.place.account,
        text_eq_refl opts.place.region,
        run,
        check_contents,
        roles,
        check_keys-put_results opts.place run_id opts.roles [] results good
            (check_keys-nil opts.place run_id opts.roles),
      )
      refl

-- ===== src/Kms/Collect/Manifested.antt =====
-- Which manifest `teardown` of scripts/real-kms-keys.mjs goes on with, and that none of its keys is
-- left out of the targets.
use keyobject_aws_kms.Prelude.{
  ◌≡◌, refl, sym, ap, Bool, true, false, not, ◌&&◌, Option, none, some, List, [], ◌∷◌, ◌++◌, inl,
  inr, All, All-append, In, Text, text_eq, text_eq_sound, text_eq_refl, is_empty, any, any-append,
  Bool-cases, Option-cases, arith,
}
use keyobject_aws_kms.Kms.Manifest.{Manifest, ManifestKey, parse_key_arn}
use keyobject_aws_kms.Kms.Validation.{
  Place, ReadManifest, ManifestFile, missing, not_json, parsed, thrown, returned, read_manifest,
  validate_manifest,
}
use keyobject_aws_kms.Kms.Validation.Accepted.{IsOfCaller, IsOfRun, validate_manifest-IsOfCaller}
use keyobject_aws_kms.Kms.Teardown.{TeardownOptions, Target}
use keyobject_aws_kms.Kms.Collect.{
  or_else, target_of, has_id, add, add_all, ignore_unusable, teardown_manifest,
}

pub add_all-All :
    (P : Target → Type 0) (targets ts : List Target)
    → All P targets
    → All P ts
    → All P (add_all targets ts)
unfolding add_all add
add_all-All P targets [] ps qs = ps
add_all-All P targets (t ∷ ts) ps qs =
    elim (Bool-cases (not (is_empty t.id) && not (has_id t.id targets))) [
      | inl new ↦
          rw new (
            add_all-All P (targets ++ t ∷ []) ts (All-append P targets (t ∷ []) ps (qs.0, tt)) qs.1)
      | inr old ↦ rw old (add_all-All P targets ts ps qs.1)
    ]

add-has_id :
    (id : Text) (targets : List Target) (t : Target)
    → has_id id targets ≡ true
    → has_id id (add targets t) ≡ true
unfolding add has_id
add-has_id id targets t h =
    elim (Bool-cases (not (is_empty t.id) && not (any (λ u. text_eq u.id t.id) targets))) [
      | inl new ↦ rw (new, any-append (λ u. text_eq u.id id) targets (t ∷ []), h) refl
      | inr old ↦ rw old h
    ]

add-new :
    (targets : List Target) (t : Target)
    → is_empty t.id ≡ false
    → has_id t.id (add targets t) ≡ true
unfolding add has_id
add-new targets t full = elim (Bool-cases (any (λ u. text_eq u.id t.id) targets)) [
  | inl old ↦ rw (full, old) old
  | inr new ↦
      rw (full, new, any-append (λ u. text_eq u.id t.id) targets (t ∷ []), new, text_eq_refl t.id)
        refl
]

add_all-has_id :
    (id : Text) (targets ts : List Target)
    → has_id id targets ≡ true
    → has_id id (add_all targets ts) ≡ true
unfolding add_all
add_all-has_id id targets [] h = h
add_all-has_id id targets (t ∷ ts) h =
    add_all-has_id id (add targets t) ts (add-has_id id targets t h)

-- The ids of the targets.
abbrev pub Covers : List Target → List Target → Type 0
Covers targets = All (λ t. is_empty t.id ≡ false → has_id t.id targets ≡ true)

pub add_all-Covers : (targets ts : List Target) → Covers (add_all targets ts) ts
unfolding add_all
add_all-Covers targets [] = tt
add_all-Covers targets (t ∷ ts) = (
  λ full. add_all-has_id t.id (add targets t) ts (add-new targets t full),
  add_all-Covers (add targets t) ts,
)

pub Covers-add_all :
    (targets ts us : List Target) → Covers targets us → Covers (add_all targets ts) us
Covers-add_all targets ts [] c = tt
Covers-add_all targets ts (u ∷ us) c =
    (λ full. add_all-has_id u.id targets ts (c.0 full), Covers-add_all targets ts us c.1)

pub has_id-In :
    (id : Text) (targets : List Target)
    → has_id id targets ≡ true
    → (t : Target) × In t targets × (t.id ≡ id)
unfolding has_id
has_id-In id [] h = absurd (cc h)
has_id-In id (t ∷ ts) h = elim (Bool-cases (text_eq t.id id)) [
  | inl same ↦ (t, inl refl, text_eq_sound t.id id same)
  | inr other ↦ let (u, inside, same) = has_id-In id ts (ground arith) in (u, inr inside, same)
]

-- The manifest that `teardown` may go on with: the one in the file, if it is valid, or none in a sweep
-- whose manifest was not named.
abbrev pub IsScope : TeardownOptions → ManifestFile → Option Manifest → Type 0
IsScope opts file none = (opts.sweep ≡ true) × (opts.manifest_explicit ≡ false)
IsScope opts file (some m) = (file ≡ parsed m) × IsOfCaller opts.place m

abbrev IsRead : TeardownOptions → Bool → ManifestFile → Option Manifest → Type 0
IsRead opts optional file none = optional ≡ true
IsRead opts optional file (some m) = (file ≡ parsed m) × (validate_manifest opts.place m ≡ none)

read_manifest-IsRead :
    (opts : TeardownOptions) (optional : Bool) (file : ManifestFile) (m : Option Manifest)
    → read_manifest opts.place optional file ≡ returned m
    → IsRead opts optional file m
unfolding read_manifest
read_manifest-IsRead opts optional missing none h = ground arith
read_manifest-IsRead opts optional missing (some m) h = absurd (ground arith)
read_manifest-IsRead opts optional not_json m h = absurd (cc h)
read_manifest-IsRead opts optional (parsed m') none h = absurd (ground arith)
read_manifest-IsRead opts optional (parsed m') (some m) h =
    elim (Option-cases (validate_manifest opts.place m')) [
      | inl valid ↦ let same : m' ≡ m = ground arith in (ap parsed same, rw (sym same) valid)
      | inr (message, bad) ↦ absurd (ground arith)
    ]

IsScope-of_IsRead :
    (opts : TeardownOptions) (file : ManifestFile) (m : Option Manifest)
    → IsRead opts (opts.sweep && not opts.manifest_explicit) file m
    → IsScope opts file m
IsScope-of_IsRead opts file none r = (ground arith, ground arith)
IsScope-of_IsRead opts file (some m) r = (r.0, validate_manifest-IsOfCaller opts.place m r.1)

ignore_unusable-IsScope :
    (opts : TeardownOptions) (file : ManifestFile) (m : Option Manifest) (r : ReadManifest)
    → read_manifest opts.place (opts.sweep && not opts.manifest_explicit) file ≡ r
    → ignore_unusable opts r ≡ returned m
    → IsScope opts file m
unfolding ignore_unusable
ignore_unusable-IsScope opts file none (thrown message) e h = (ground arith, ground arith)
ignore_unusable-IsScope opts file (some m) (thrown message) e h = absurd (ground arith)
ignore_unusable-IsScope opts file m (returned m') e h =
    IsScope-of_IsRead opts file m
      (read_manifest-IsRead opts (opts.sweep && not opts.manifest_explicit) file m (cc (e, h)))

pub teardown_manifest-IsScope :
    (opts : TeardownOptions) (file : ManifestFile) (m : Option Manifest)
    → teardown_manifest opts file ≡ returned m
    → IsScope opts file m
unfolding teardown_manifest
teardown_manifest-IsScope opts file m h = ignore_unusable-IsScope opts file m _ refl h

not_empty-arn : parse_key_arn [] ≡ none
unfolding parse_key_arn
not_empty-arn = refl

full_arn : (arn : Text) → ((k : _) × (parse_key_arn arn ≡ some k)) → is_empty arn ≡ false
full_arn [] (k, e) = absurd (cc (e, not_empty-arn))
full_arn (c ∷ arn) (k, e) = refl

-- A valid manifest has an ARN for each of its keys.
pub target_of-full :
    (place : Place) (run_id : Text) (roles : List Text) (key : ManifestKey)
    → IsOfRun place run_id roles key
    → is_empty (target_of key).id ≡ false
unfolding target_of
target_of-full place run_id roles key r =
    rw (r.has_arn, or_else) (full_arn r.arn (r.parts, r.has_parts))

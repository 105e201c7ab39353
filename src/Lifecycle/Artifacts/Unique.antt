-- ===== src/Lifecycle/Artifacts/Unique.antt =====
-- The map of artifacts by their identifiers (findPriorReleaseArtifact of scripts/release-lifecycle.mjs).
use keyobject_aws_kms.Prelude.{
  ◌≡◌, refl, sym, ap, subst, ◌∙◌, ◌⊎◌, inl, inr, Bool, true, false, List, [], ◌∷◌, All,
  if◌then◌else◌, text_eq_sound, arith,
}
use keyobject_aws_kms.Lifecycle.Machine.{Identifier, number, other, Artifact}
use keyobject_aws_kms.Lifecycle.Artifacts.{id_eq, set_artifact, set_all}

abbrev pub IsIn : Artifact → List Artifact → Type 0
IsIn a [] = ⊥
IsIn a (b ∷ bs) = (a ≡ b) ⊎ IsIn a bs

abbrev pub HasId : Identifier → Artifact → Type 0
HasId id b = b.id ≡ id

id_eq_sound : (i j : Identifier) → id_eq i j ≡ true → i ≡ j
unfolding id_eq
id_eq_sound (number m) (number n) e = ap number (ground (arith, e))
id_eq_sound (number m) (other t) e = absurd (cc e)
id_eq_sound (other s) (number n) e = absurd (cc e)
id_eq_sound (other s) (other t) e = ap other (text_eq_sound s t e)

-- A map is not empty behind `set`.
set_artifact-nonempty : (x : Artifact) (values : List Artifact) → ¬ (set_artifact x values ≡ [])
unfolding set_artifact
set_artifact-nonempty x [] e = cc e
set_artifact-nonempty x (y ∷ ys) e = by_id (id_eq x.id y.id) e
  where
    by_id : (b : Bool) → ¬ ((if b then x ∷ ys else y ∷ set_artifact x ys) ≡ [])
    by_id true e = cc e
    by_id false e = cc e

pub set_all-empty : (values xs : List Artifact) → set_all values xs ≡ [] → (values ≡ []) × (xs ≡ [])
unfolding set_all
set_all-empty values [] e = (e, refl)
set_all-empty values (x ∷ xs) e =
    absurd (set_artifact-nonempty x values (set_all-empty (set_artifact x values) xs e).0)

-- All values have the identifier if all do behind `set`.
set_artifact-HasId :
    (id : Identifier) (x : Artifact) (values : List Artifact)
    → All (HasId id) (set_artifact x values)
    → HasId id x × All (HasId id) values
unfolding set_artifact
set_artifact-HasId id x [] (e, u) = (e, tt)
set_artifact-HasId id x (y ∷ ys) all =
    by_id (id_eq x.id y.id) (id_eq_sound x.id y.id) (set_artifact-HasId id x ys) all
  where
    by_id :
        (b : Bool)
        → (b ≡ true → x.id ≡ y.id)
        → (All (HasId id) (set_artifact x ys) → HasId id x × All (HasId id) ys)
        → All (HasId id) (if b then x ∷ ys else y ∷ set_artifact x ys)
        → HasId id x × (HasId id y × All (HasId id) ys)
    by_id true equal rest (e, all) = (e, (sym (equal refl) ∙ e, all))
    by_id false equal rest (e, all) = let (first, others) = rest all in (first, (e, others))

set_artifact-IsIn :
    (a x : Artifact) (values : List Artifact)
    → IsIn a (set_artifact x values)
    → (a ≡ x) ⊎ IsIn a values
unfolding set_artifact
set_artifact-IsIn a x [] m = m
set_artifact-IsIn a x (y ∷ ys) m = by_id (id_eq x.id y.id) (set_artifact-IsIn a x ys) m
  where
    later : (a ≡ x) ⊎ IsIn a ys → (a ≡ x) ⊎ IsIn a (y ∷ ys)
    later (inl e) = inl e
    later (inr m) = inr (inr m)

    by_id :
        (b : Bool)
        → (IsIn a (set_artifact x ys) → (a ≡ x) ⊎ IsIn a ys)
        → IsIn a (if b then x ∷ ys else y ∷ set_artifact x ys)
        → (a ≡ x) ⊎ IsIn a (y ∷ ys)
    by_id true rest (inl e) = inl e
    by_id true rest (inr m) = inr (inr m)
    by_id false rest (inl e) = inr (inl e)
    by_id false rest (inr m) = later (rest m)

-- All that was set has the one identifier that is left, and what is left was set.
pub set_all-single :
    (a : Artifact) (values xs : List Artifact)
    → set_all values xs ≡ a ∷ []
    → All (HasId a.id) values × All (HasId a.id) xs × (IsIn a values ⊎ IsIn a xs)
unfolding set_all
set_all-single a values [] e =
    (subst (All (HasId a.id)) (sym e) (refl, tt), tt, inl (subst (IsIn a) (sym e) (inl refl)))
set_all-single a values (x ∷ xs) e =
    let (all, rest, m) = set_all-single a (set_artifact x values) xs e in
    let (first, others) = set_artifact-HasId a.id x values all in (others, (first, rest), place m)
  where
    of_values : (a ≡ x) ⊎ IsIn a values → IsIn a values ⊎ IsIn a (x ∷ xs)
    of_values (inl e) = inr (inl e)
    of_values (inr m) = inl m

    place : IsIn a (set_artifact x values) ⊎ IsIn a xs → IsIn a values ⊎ IsIn a (x ∷ xs)
    place (inl m) = of_values (set_artifact-IsIn a x values m)
    place (inr m) = inr (inr m)

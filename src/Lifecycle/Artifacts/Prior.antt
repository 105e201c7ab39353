-- ===== src/Lifecycle/Artifacts/Prior.antt =====
-- Which artifact is found (findPriorReleaseArtifact of scripts/release-lifecycle.mjs).
use keyobject_aws_kms.Prelude.{
  ℕ, ltb, leb, and_sound, arith, ◌≤◌, ◌==◌, ◌≡◌, refl, sym, ap, subst, ◌∙◌, ◌⊎◌, inl, inr, Bool,
  true, false, not, ◌||◌, Option, none, some, List, [], ◌∷◌, All, any, keep, if◌then◌else◌, Text,
}
use keyobject_aws_kms.Effects.{attempt, ◌>>=◌}
use keyobject_aws_kms.Effects.Logic.{Seen, Seen-⊑, Runs, Runs-if, Runs-bind, Runs-grow}
use keyobject_aws_kms.Lifecycle.Machine.{
  number, other, Identifier, Completed, Identifier, Artifact, Tools, Request, run, answered,
  History, command, succeeded, parsed,
}
use keyobject_aws_kms.Lifecycle.Rules.{rules, Ran, command-Ran}
use keyobject_aws_kms.Lifecycle.Github.{gh}
use keyobject_aws_kms.Lifecycle.Artifacts.{
  max_safe_integer, is_positive_decimal, artifacts_arguments, candidates, has_state, is_current,
  set_all, is_valid_id, chosen, choose, paginated, find_prior_release_artifact,
}
use keyobject_aws_kms.Lifecycle.Artifacts.Unique.{IsIn, HasId, set_all-empty, set_all-single}

-- A whole number from 1 to the greatest safe integer.
abbrev pub IsPositiveSafe : Identifier → Type 0
IsPositiveSafe id = (n : ℕ) × (id ≡ number n) × (1 ≤ n) × (n ≤ 9007199254740991)

is_valid_id-IsPositiveSafe : (id : Identifier) → is_valid_id id ≡ true → IsPositiveSafe id
unfolding is_valid_id
is_valid_id-IsPositiveSafe (number n) e =
    let (positive, safe) = and_sound (ltb 0 n) (leb n max_safe_integer) e in
    (n, refl, ground (arith, positive), ground (arith, safe))
is_valid_id-IsPositiveSafe (other t) e = absurd (cc e)

-- What is found among the candidates: nothing, where all have expired; otherwise one that has not, with a
-- positive safe number, and every other that has not expired has the same.
abbrev pub IsPrior : List Artifact → Option Artifact → Type 0
IsPrior found none = All (λ b. b.expired ≡ some true) found
IsPrior found (some a) =
    IsIn a found
    × (a.expired ≡ some false)
    × IsPositiveSafe a.id
    × All (λ b. (b.expired ≡ some true) ⊎ ((b.expired ≡ some false) × (b.id ≡ a.id))) found

or_false : (a b : Bool) → (a || b) ≡ false → (a ≡ false) × (b ≡ false)
or_false true b e = absurd (cc e)
or_false false b e = (refl, e)

-- A candidate whose state is known has expired, or it is current.
abbrev IsKnown : Artifact → Type 0
IsKnown b =
    ((b.expired ≡ some true) × (is_current b ≡ false))
    ⊎ ((b.expired ≡ some false) × (is_current b ≡ true))

has_state-IsKnown : (b : Artifact) → not (has_state b) ≡ false → IsKnown b
has_state-IsKnown b = by_state b.expired
  where
    by_state :
        (o : Option Bool)
        → not (elim o [ none ↦ false | some expired ↦ true ]) ≡ false
        → ((o ≡ some true) × (elim o [ none ↦ true | some expired ↦ not expired ] ≡ false))
          ⊎ ((o ≡ some false) × (elim o [ none ↦ true | some expired ↦ not expired ] ≡ true))
    by_state none e = absurd (cc e)
    by_state (some true) e = inl (refl, refl)
    by_state (some false) e = inr (refl, refl)

All-IsKnown :
    (found : List Artifact) → any (λ b. not (has_state b)) found ≡ false → All IsKnown found
All-IsKnown [] e = tt
All-IsKnown (b ∷ found) e =
    let (first, rest) = or_false (not (has_state b)) _ e in
    (has_state-IsKnown b first, All-IsKnown found rest)

-- Nothing is kept: all have expired.
none_current :
    (found : List Artifact)
    → All IsKnown found
    → keep is_current found ≡ []
    → All (λ b. b.expired ≡ some true) found
none_current [] known e = tt
none_current (b ∷ found) (inl (old, c), known) e = (
  old,
  none_current found known
      (sym (ap (λ k. if k then b ∷ keep is_current found else keep is_current found) c) ∙ e),
)
none_current (b ∷ found) (inr (fresh, c), known) e =
    absurd
      (cc (sym (ap (λ k. if k then b ∷ keep is_current found else keep is_current found) c) ∙ e))

abbrev IsSameOrOld : Identifier → Artifact → Type 0
IsSameOrOld id b = (b.expired ≡ some true) ⊎ ((b.expired ≡ some false) × (b.id ≡ id))

-- All that is kept has the identifier, and the one is among them.
one_current :
    (a : Artifact) (found : List Artifact)
    → All IsKnown found
    → All (HasId a.id) (keep is_current found)
    → All (IsSameOrOld a.id) found
one_current a [] known all = tt
one_current a (b ∷ found) (inl (old, c), known) all = (
  inl old,
  one_current a found known (
      subst (λ k. All (HasId a.id) (if k then b ∷ keep is_current found else keep is_current found))
        c all),
)
one_current a (b ∷ found) (inr (fresh, c), known) all =
    let (first, rest) =
      subst (λ k. All (HasId a.id) (if k then b ∷ keep is_current found else keep is_current found))
        c all in
    (inr (fresh, first), one_current a found known rest)

keep-IsIn :
    (a : Artifact) (found : List Artifact)
    → All IsKnown found
    → IsIn a (keep is_current found)
    → IsIn a found × (a.expired ≡ some false)
keep-IsIn a [] known m = absurd m
keep-IsIn a (b ∷ found) (inl (old, c), known) m =
    let (place, fresh) =
      keep-IsIn a found known (
        subst (λ k. IsIn a (if k then b ∷ keep is_current found else keep is_current found)) c m) in
    (inr place, fresh)
keep-IsIn a (b ∷ found) (inr (fresh, c), known) m =
    placed
      (subst (λ k. IsIn a (if k then b ∷ keep is_current found else keep is_current found)) c m)
      (keep-IsIn a found known)
  where
    placed :
        (a ≡ b) ⊎ IsIn a (keep is_current found)
        → (IsIn a (keep is_current found) → IsIn a found × (a.expired ≡ some false))
        → ((a ≡ b) ⊎ IsIn a found) × (a.expired ≡ some false)
    placed (inl e) rest = (inl e, subst (λ x. x.expired ≡ some false) (sym e) fresh)
    placed (inr m) rest = let (place, current) = rest m in (inr place, current)

module _ (tools : Tools) (repository run_id : Text) where
  -- The script only asks GitHub for the artifacts of the run.
  abbrev pub OnlyLists : History → Request → Type 0
  OnlyLists h (run name args) = (name ≡ gh) × (args ≡ artifacts_arguments repository run_id)
  OnlyLists h _ = ⊥

  chosen-IsPrior :
      (found values : List Artifact) (h : History)
      → All IsKnown found
      → set_all [] (keep is_current found) ≡ values
      → Runs (rules OnlyLists) (λ g t o. IsPrior found o) h tt (chosen values)
  unfolding chosen
  chosen-IsPrior found [] h known e =
      none_current found known (set_all-empty [] (keep is_current found) e).1
  chosen-IsPrior found (a ∷ []) h known e =
      Runs-if (rules OnlyLists) (λ g t o. IsPrior found o) h tt (is_valid_id a.id) _ _
        (λ valid.
          let (any, all, m) = set_all-single a [] (keep is_current found) e in
          let (place, fresh) = keep-IsIn a found known (kept m) in
          (place, fresh, is_valid_id-IsPositiveSafe a.id valid, one_current a found known all))
        (λ e. tt)
    where
      kept : ⊥ ⊎ IsIn a (keep is_current found) → IsIn a (keep is_current found)
      kept (inl x) = absurd x
      kept (inr m) = m
  chosen-IsPrior found (a ∷ b ∷ values) h known e = tt

  choose-IsPrior :
      (found : List Artifact) (h : History)
      → Runs (rules OnlyLists) (λ g t o. IsPrior found o) h tt (choose found)
  unfolding choose
  choose-IsPrior found h =
      Runs-if (rules OnlyLists) (λ g t o. IsPrior found o) h tt
        (any (λ artifact. not (has_state artifact)) found) _ _ (λ e. tt)
        (λ e. chosen-IsPrior found _ h (All-IsKnown found e) refl)

  -- GitHub was asked, and this was found in its answer.
  abbrev pub Found : History → Unit {0} → Option Artifact → Type 0
  Found g t o =
      (result : Completed) × Seen (answered (run gh (artifacts_arguments repository run_id)) result)
        g
      × (succeeded result ≡ true)
      × (pages : List (List Artifact)) × (tools.parse_pages result.stdout ≡ some (some pages))
      × IsPrior (candidates pages) o

  read_pages-Found :
      (result : Completed) (g : History)
      → Seen (answered (run gh (artifacts_arguments repository run_id)) result) g
      → succeeded result ≡ true
      → (o : Option (Option (List (List Artifact)))) → tools.parse_pages result.stdout ≡ o
      → Runs
          (rules OnlyLists)
          Found
          g
          tt
          (parsed o >>= (λ response. paginated response >>= (λ pages. choose (candidates pages))))
  unfolding attempt
  read_pages-Found result g seen success none e = tt
  read_pages-Found result g seen success (some none) e = tt
  read_pages-Found result g seen success (some (some pages)) e =
      Runs-grow (rules OnlyLists) (λ g t o. IsPrior (candidates pages) o) Found
        (choose (candidates pages)) g tt (choose-IsPrior (candidates pages) g)
        (λ g2 p t o prior. (result, Seen-⊑ _ p seen, success, pages, e, prior))

  -- Whatever `gh` answers, findPriorReleaseArtifact requests nothing but the artifacts of the run. It
  -- returns an artifact only if it is a candidate on one of the pages, named release-payload, that has
  -- not expired, its identifier is a whole number from 1 to 9007199254740991, the greatest safe integer,
  -- and every other candidate has expired or has the same identifier; and it returns none only if all
  -- candidates have expired. It never runs out of fuel.
  pub find_prior_release_artifact-IsPrior :
      Runs (rules OnlyLists) Found [] tt (find_prior_release_artifact tools repository run_id)
  unfolding find_prior_release_artifact
  find_prior_release_artifact-IsPrior =
      Runs-if (rules OnlyLists) Found [] tt (not (any (λ c. c == b'/') repository)) _ _ (λ e. tt)
        (λ e.
          Runs-if (rules OnlyLists) Found [] tt (not (is_positive_decimal run_id)) _ _ (λ e. tt)
            (λ e.
              Runs-bind (rules OnlyLists) (Ran OnlyLists gh _ false) Found _
                (command gh (artifacts_arguments repository run_id) false) [] tt
                (command-Ran OnlyLists gh (artifacts_arguments repository run_id) false []
                  (refl, refl))
                (λ g p t result (seen, success).
                  read_pages-Found result g seen success (tools.parse_pages result.stdout) refl)))

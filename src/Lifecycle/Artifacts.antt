-- ===== src/Lifecycle/Artifacts.antt =====
-- The artifact of an earlier attempt of the same workflow run (findPriorReleaseArtifact of
-- scripts/release-lifecycle.mjs).
pub mod Unique
pub mod Prior
use keyobject_aws_kms.Prelude.{
  ℕ, ◌==◌, Bool, true, false, not, ◌&&◌, leb, ltb, Option, none, some, List, [], ◌∷◌, ◌++◌, all,
  any, keep, if◌then◌else◌, Text, codes, text_eq,
}
use keyobject_aws_kms.Effects.{Io, done, throw, attempt, ◌>>=◌, ◌>>◌}
use keyobject_aws_kms.Lifecycle.Machine.{
  Completed, Identifier, number, other, Artifact, Tools, Script, fail, parsed, command,
}
use keyobject_aws_kms.Lifecycle.Payload.{opt_is}
use keyobject_aws_kms.Lifecycle.Github.{gh}

abbrev is_digit : ℕ → Bool
is_digit c = leb b'0' c && leb c b'9'

-- `/^[1-9]\d*$/`.
unfoldable pub is_positive_decimal : Text → Bool
is_positive_decimal [] = false
is_positive_decimal (c ∷ s) = leb b'1' c && leb c b'9' && all is_digit s

abbrev pub artifacts_arguments : Text → Text → List Text
artifacts_arguments repository run_id =
    codes "api"
    ∷ codes "--paginate"
    ∷ codes "--slurp"
    ∷ (codes "repos/"
        ++ repository
        ++ codes "/actions/runs/"
        ++ run_id
        ++ codes "/artifacts?per_page=100")
    ∷ []

abbrev pub is_release_payload : Artifact → Bool
is_release_payload artifact = opt_is artifact.name (codes "release-payload")

abbrev concat : List (List Artifact) → List Artifact
concat [] = []
concat (page ∷ pages) = page ++ concat pages

unfoldable pub candidates : List (List Artifact) → List Artifact
candidates pages = keep is_release_payload (concat pages)

abbrev pub has_state : Artifact → Bool
has_state artifact = elim artifact.expired [ none ↦ false | some expired ↦ true ]

abbrev pub is_current : Artifact → Bool
is_current artifact = elim artifact.expired [ none ↦ true | some expired ↦ not expired ]

unfoldable pub id_eq : Identifier → Identifier → Bool
id_eq (number m) (number n) = m == n
id_eq (number m) (other t) = false
id_eq (other s) (number n) = false
id_eq (other s) (other t) = text_eq s t

-- `map.set(artifact.id, artifact)`, on the values of the map in their order.
unfoldable pub set_artifact : Artifact → List Artifact → List Artifact
set_artifact x [] = x ∷ []
set_artifact x (y ∷ ys) =
    let later = set_artifact x ys in if id_eq x.id y.id then x ∷ ys else y ∷ later

unfoldable pub set_all : List Artifact → List Artifact → List Artifact
set_all values [] = values
set_all values (x ∷ xs) = set_all (set_artifact x values) xs

-- `Number.MAX_SAFE_INTEGER`.
abbrev pub max_safe_integer : ℕ
max_safe_integer = 9007199254740991

-- `Number.isSafeInteger(id) && id > 0`.
unfoldable pub is_valid_id : Identifier → Bool
is_valid_id (number n) = ltb 0 n && leb n max_safe_integer
is_valid_id (other t) = false

unfoldable pub chosen : List Artifact → Script (Option Artifact)
chosen [] = done none
chosen (artifact ∷ []) =
    if is_valid_id artifact.id
    then done (some artifact)
    else fail (codes "prior release-payload artifact has an invalid ID")
chosen (first ∷ second ∷ more) =
    fail (codes "multiple nonexpired release-payload artifacts exist for this run")

unfoldable pub choose : List Artifact → Script (Option Artifact)
choose found =
    if any (λ artifact. not (has_state artifact)) found
    then fail (codes "prior release-payload artifact has no expiration state")
    else chosen (set_all [] (keep is_current found))

abbrev paginated : Option (List (List Artifact)) → Script (List (List Artifact))
paginated none = fail (codes "GitHub artifact response is not paginated JSON")
paginated (some pages) = done pages

-- `findPriorReleaseArtifact(repository, runId, run)`.
unfoldable pub find_prior_release_artifact : Tools → Text → Text → Script (Option Artifact)
find_prior_release_artifact tools repository run_id =
    if not (any (λ c. c == b'/') repository)
    then fail (codes "GITHUB_REPOSITORY is not set")
    else if not (is_positive_decimal run_id)
    then fail (codes "GITHUB_RUN_ID is not set")
    else do
      result ← command gh (artifacts_arguments repository run_id) false
      response ← parsed (tools.parse_pages result.stdout)
      pages ← paginated response
      choose (candidates pages)

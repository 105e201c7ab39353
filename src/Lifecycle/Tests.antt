-- ===== src/Lifecycle/Tests.antt =====
-- The life cycle of a release with one set of tools and one host.
use keyobject_aws_kms.Prelude.{
  ℕ, ◌≡◌, ◌+◌, refl, arith, Bool, true, false, Option, none, some, List, [], ◌∷◌, ◌++◌, map, Text,
  codes, text_eq, starts_with, if◌then◌else◌,
}
use keyobject_aws_kms.Effects.Logic.{Runs}
use keyobject_aws_kms.Effects.Run.{Ending, returned, threw, ran_out}
use keyobject_aws_kms.Lifecycle.Machine.{
  Artifact, number, Bytes, Failure, Tools, Request, run, list_directory, read_file, exists, mkdtemp,
  now, sleep, fetch, read_json, latest, reading, Reply, History, ok,
}
use keyobject_aws_kms.Effects.Clock.{HasEnded}
use keyobject_aws_kms.Lifecycle.Clock.{slept, IsNext}
use keyobject_aws_kms.Lifecycle.Attestation.{reuse_attestation_bundle}
use keyobject_aws_kms.Lifecycle.Payload.Evidence.{Inspected}
use keyobject_aws_kms.Lifecycle.Attestation.Reused.{OnlyCopies, reuse_attestation_bundle-Inspected}
use keyobject_aws_kms.Lifecycle.Artifacts.{find_prior_release_artifact}
use keyobject_aws_kms.Lifecycle.Artifacts.Prior.{
  OnlyLists, Found, find_prior_release_artifact-IsPrior,
}
use keyobject_aws_kms.Lifecycle.Npm.{wait_for_npm}
use keyobject_aws_kms.Lifecycle.Npm.Round.{timed, Available}
use keyobject_aws_kms.Lifecycle.Npm.Available.{wait_for_npm-Available, wait_for_npm_ends}
use keyobject_aws_kms.Lifecycle.Rules.{rules}
use keyobject_aws_kms.Lifecycle.Payload.{
  package_names, satellite_names, tarball_name, release_subjects, checksum_lines, expected_payload,
}
use keyobject_aws_kms.Lifecycle.Github.{publish_github_release}
use keyobject_aws_kms.Lifecycle.Github.Verified.{Permitted}
use keyobject_aws_kms.Lifecycle.Github.Published.{Published, publish_github_release-Published}

abbrev version : Text
version = codes "1.2.3"

abbrev tag : Text
tag = codes "v1.2.3"

-- The package of a tarball in the directory `/d`.
abbrev named : Text → List Text → Option Text
named path [] = none
named path (name ∷ names) =
    let later = named path names in
    if text_eq path (codes "/d/" ++ tarball_name name version) then some name else later

abbrev prior : Artifact
prior = record { name = some (codes "release-payload"); expired = some false; id = number 7 }

-- The digest of every file is empty; the output of `tar` is the path of the tarball.
abbrev tools : Tools
tools = record {
  decode = λ bytes. bytes;
  sha256 = λ bytes. [];
  sha512 = λ bytes. [];
  base64_decode = λ s. s;
  join = λ a b. a ++ codes "/" ++ b;
  resolve = λ a b. a ++ codes "/" ++ b;
  parse_manifest = λ s. some (record {
    name = named s package_names;
    version = some version;
    dependencies = map (λ name. (name, some version)) satellite_names;
  });
  parse_bundle = λ s. some (record {
    media_type = some (codes "application/vnd.dev.sigstore.bundle.v0.3+json");
    payload_type = some (codes "application/vnd.in-toto+json");
    payload = some [];
    signatures = some 1;
    has_material = true;
  });
  parse_statement = λ s. some (record {
    type_name = some (codes "https://in-toto.io/Statement/v1");
    subjects = some (map (λ name. (some name, some [])) (release_subjects version));
  });
  parse_release = λ s. some (record { assets = expected_payload version true; is_draft = true });
  parse_pages = λ s. some (some ((prior ∷ []) ∷ [] ∷ (prior ∷ []) ∷ []));
  locale_leb = λ a b. true;
  encode_uri = λ s. s;
  tmpdir = codes "/tmp";
}

abbrev output_of : List Text → Text
output_of (flags ∷ path ∷ rest) = path
output_of _ = []

-- Every program succeeds, and every directory holds the payload.
abbrev answers : (h : History) (c : Request) → Reply c
answers h (run name args) = ok (record { status = some 0; stdout = output_of args; stderr = [] })
answers h (list_directory path) = ok (expected_payload version true)
answers h (read_file path) = ok (
    if text_eq path (codes "/d/SHA256SUMS")
    then checksum_lines (map (λ name. (name, [])) (release_subjects version))
    else [])
answers h (exists path) = ok false
answers h (mkdtemp prefix) = ok (codes "/t")
answers h now = ok (latest h + (if slept h then 1 else 0))
answers h (fetch url milliseconds) = ok (record { is_ok = true; status = 200 })
answers h (read_json url) =
    ok (record { version = some version; integrity = some (codes "sha512-") })
answers h _ = ok tt

abbrev changelog : Text
changelog = codes "# Changelog\n\n## [1.2.3] - today\n\n- New.\n\n## [1.2.2]\n\n- Old.\n"

abbrev has_returned : {A : Type 0} → Ending (Unit {0}) Request Reply Failure A → Bool
has_returned (returned h s a) = true
has_returned (threw h s e) = false
has_returned (ran_out h) = false

publish_github_release-Published_example :
    Runs
      (rules (Permitted tools (codes "/d") version tag))
      (λ g t u. Published tools (codes "/d") version tag g)
      []
      tt
      (publish_github_release tools (codes "/d") version tag changelog)
publish_github_release-Published_example =
    publish_github_release-Published tools (codes "/d") version tag changelog

publish_github_release_test :
    has_returned (
      keyobject_aws_kms.Effects.Run.run answers [] tt
        (publish_github_release tools (codes "/d") version tag changelog))
    ≡ true
unfolding keyobject_aws_kms.Effects.attempt text_eq starts_with keyobject_aws_kms.Effects.Calls.sys
    keyobject_aws_kms.Lifecycle.Machine.succeeded keyobject_aws_kms.Lifecycle.Machine.command
    keyobject_aws_kms.Lifecycle.Notes.is_version_heading
    keyobject_aws_kms.Lifecycle.Notes.is_heading_of keyobject_aws_kms.Lifecycle.Notes.from_heading
    keyobject_aws_kms.Lifecycle.Notes.behind_line keyobject_aws_kms.Lifecycle.Notes.until_heading
    keyobject_aws_kms.Lifecycle.Notes.trim_start keyobject_aws_kms.Lifecycle.Notes.trim_end
    keyobject_aws_kms.Lifecycle.Notes.extract_release_notes
    keyobject_aws_kms.Lifecycle.Payload.package_names
    keyobject_aws_kms.Lifecycle.Payload.tarball_name
    keyobject_aws_kms.Lifecycle.Payload.release_subjects
    keyobject_aws_kms.Lifecycle.Payload.expected_payload
    keyobject_aws_kms.Lifecycle.Payload.is_sigstore keyobject_aws_kms.Lifecycle.Payload.subjects_eq
    keyobject_aws_kms.Lifecycle.Payload.sorted_by_name keyobject_aws_kms.Lifecycle.Payload.digest
    keyobject_aws_kms.Lifecycle.Payload.digests keyobject_aws_kms.Lifecycle.Payload.statement_of
    keyobject_aws_kms.Lifecycle.Payload.covers
    keyobject_aws_kms.Lifecycle.Payload.inspect_attestation_bundle
    keyobject_aws_kms.Lifecycle.Payload.checksum_lines
    keyobject_aws_kms.Lifecycle.Payload.depends_on_satellites
    keyobject_aws_kms.Lifecycle.Payload.core_depends
    keyobject_aws_kms.Lifecycle.Payload.tar_manifest keyobject_aws_kms.Lifecycle.Payload.is_package
    keyobject_aws_kms.Lifecycle.Payload.integrity_of
    keyobject_aws_kms.Lifecycle.Payload.inspect_package
    keyobject_aws_kms.Lifecycle.Payload.inspect_packages
    keyobject_aws_kms.Lifecycle.Payload.check_checksums
    keyobject_aws_kms.Lifecycle.Payload.check_attested
    keyobject_aws_kms.Lifecycle.Payload.inspect_contents
    keyobject_aws_kms.Lifecycle.Payload.inspect_payload
    keyobject_aws_kms.Lifecycle.Github.assets_match
    keyobject_aws_kms.Lifecycle.Github.assert_asset_names keyobject_aws_kms.Lifecycle.Github.viewed
    keyobject_aws_kms.Lifecycle.Github.release_view
    keyobject_aws_kms.Lifecycle.Github.compare_assets
    keyobject_aws_kms.Lifecycle.Github.verify_remote_assets
    keyobject_aws_kms.Lifecycle.Github.publish_uploaded keyobject_aws_kms.Lifecycle.Github.upload
    keyobject_aws_kms.Lifecycle.Github.publish_over
    keyobject_aws_kms.Lifecycle.Github.required_notes
    keyobject_aws_kms.Lifecycle.Github.publish_github_release
    keyobject_aws_kms.Release.Version.lookup keyobject_aws_kms.Release.Version.sorted
    keyobject_aws_kms.Release.Version.texts_eq keyobject_aws_kms.Release.Version.keys_of
publish_github_release_test = refl

IsNext-reading : (b : Bool) (n : ℕ) → IsNext b (some (n + (if b then 1 else 0))) n
IsNext-reading true n = omega arith
IsNext-reading false n = omega arith

-- The clock stands still but for the sleeps.
clock : (h : History) (c : Request) → IsNext (slept h) (reading c (answers h c)) (latest h)
clock h now = IsNext-reading (slept h) (latest h)
clock h _ = tt

wait_for_npm-Available_example :
    Runs timed
      (λ g t u. Available tools version (codes "https://r/") (codes "/d") g)
      []
      tt
      (wait_for_npm tools version (codes "https://r/") (codes "/d") 3600000 60000 3600001)
wait_for_npm-Available_example =
    wait_for_npm-Available tools version (codes "https://r/") (codes "/d") 3600000 60000 3600001
      (omega arith)

wait_for_npm_ends_example : HasEnded (
    keyobject_aws_kms.Effects.Run.run answers [] tt
      (wait_for_npm tools version (codes "https://r/") (codes "/d") 3600000 60000 3600001))
wait_for_npm_ends_example =
    wait_for_npm_ends tools version (codes "https://r/") (codes "/d") 3600000 60000 3600001
      (omega arith) answers clock

reuse_attestation_bundle-Inspected_example :
    Runs
      (rules (OnlyCopies tools (codes "/p") (codes "/d") version))
      (λ g t u. Inspected tools (codes "/d") version true g)
      []
      tt
      (reuse_attestation_bundle tools (codes "/p") (codes "/d") version)
reuse_attestation_bundle-Inspected_example =
    reuse_attestation_bundle-Inspected tools (codes "/p") (codes "/d") version

find_prior_release_artifact-IsPrior_example :
    Runs
      (rules (OnlyLists tools (codes "o/n") (codes "12")))
      (Found tools (codes "o/n") (codes "12"))
      []
      tt
      (find_prior_release_artifact tools (codes "o/n") (codes "12"))
find_prior_release_artifact-IsPrior_example =
    find_prior_release_artifact-IsPrior tools (codes "o/n") (codes "12")

abbrev result_of : {A : Type 0} → Ending (Unit {0}) Request Reply Failure A → Option A
result_of (returned h s a) = some a
result_of (threw h s e) = none
result_of (ran_out h) = none

find_prior_release_artifact_test :
    result_of (
      keyobject_aws_kms.Effects.Run.run answers [] tt
        (find_prior_release_artifact tools (codes "o/n") (codes "12")))
    ≡ some (some prior)
unfolding keyobject_aws_kms.Effects.attempt text_eq starts_with keyobject_aws_kms.Effects.Calls.sys
    keyobject_aws_kms.Lifecycle.Machine.command keyobject_aws_kms.Lifecycle.Machine.succeeded
    find_prior_release_artifact keyobject_aws_kms.Lifecycle.Artifacts.is_positive_decimal
    keyobject_aws_kms.Lifecycle.Artifacts.candidates keyobject_aws_kms.Lifecycle.Artifacts.choose
    keyobject_aws_kms.Lifecycle.Artifacts.chosen keyobject_aws_kms.Lifecycle.Artifacts.set_all
    keyobject_aws_kms.Lifecycle.Artifacts.set_artifact keyobject_aws_kms.Lifecycle.Artifacts.id_eq
    keyobject_aws_kms.Lifecycle.Artifacts.is_valid_id
find_prior_release_artifact_test = refl

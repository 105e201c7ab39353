-- ===== src/Lifecycle/Github.antt =====
-- The GitHub release (releaseView, assertAssetNames, verifyRemoteAssets and publishGithubRelease of
-- scripts/release-lifecycle.mjs).
pub mod Verified
pub mod Published
use keyobject_aws_kms.Prelude.{
  ℕ, ◌==◌, Bool, true, false, not, ◌&&◌, ◌||◌, Option, none, some, List, [], ◌∷◌, ◌++◌, map, any,
  keep, if◌then◌else◌, Text, codes, text_eq, is_empty,
}
use keyobject_aws_kms.Effects.{Io, done, throw, attempt, ◌>>=◌, ◌>>◌, finally}
use keyobject_aws_kms.Release.Version.{sorted, texts_eq}
use keyobject_aws_kms.Release.Check.{strip_folded}
use keyobject_aws_kms.Lifecycle.Machine.{
  Failure, Completed, Release, Tools, Request, run, list_directory, write_file, mkdir, mkdtemp,
  remove, sys, Script, fail, parsed, succeeded, command,
}
use keyobject_aws_kms.Lifecycle.Notes.{extract_release_notes}
use keyobject_aws_kms.Lifecycle.Payload.{digest, expected_payload, inspect_payload}

abbrev pub gh : Text
gh = codes "gh"

abbrev pub view_arguments : Text → List Text
view_arguments tag =
    codes "release" ∷ codes "view" ∷ tag ∷ codes "--json" ∷ codes "assets,isDraft" ∷ []

abbrev pub create_arguments : Text → Text → List Text
create_arguments tag notes_path =
    codes "release"
    ∷ codes "create"
    ∷ tag
    ∷ codes "--draft"
    ∷ codes "--verify-tag"
    ∷ codes "--notes-file"
    ∷ notes_path
    ∷ codes "--title"
    ∷ tag
    ∷ []

abbrev pub upload_arguments : Text → List Text → List Text
upload_arguments tag paths =
    codes "release" ∷ codes "upload" ∷ tag ∷ (paths ++ codes "--clobber" ∷ [])

abbrev pub download_arguments : Text → Text → List Text
download_arguments tag directory =
    codes "release" ∷ codes "download" ∷ tag ∷ codes "--dir" ∷ directory ∷ []

-- The release is no draft any more.
abbrev pub publish_arguments : Text → Text → List Text
publish_arguments tag notes_path =
    codes "release"
    ∷ codes "edit"
    ∷ tag
    ∷ codes "--draft=false"
    ∷ codes "--verify-tag"
    ∷ codes "--notes-file"
    ∷ notes_path
    ∷ codes "--title"
    ∷ tag
    ∷ codes "--discussion-category"
    ∷ codes "Releases"
    ∷ []

-- `names.includes(name)`.
abbrev pub has_name : List Text → Text → Bool
has_name names name = any (λ other. text_eq other name) names

-- The tests of `assertAssetNames(release, expected, allowMissing)`.
unfoldable pub assets_match : List Text → List Text → Bool → Bool
assets_match actual expected allow_missing =
    is_empty (keep (λ name. not (has_name expected name)) actual)
    && (allow_missing || is_empty (keep (λ name. not (has_name actual name)) expected))

unfoldable pub assert_asset_names : Release → List Text → Bool → Script (Unit {0})
assert_asset_names release expected allow_missing =
    if assets_match (sorted release.assets) expected allow_missing
    then done tt
    else fail (codes "GitHub Release asset mismatch")

abbrev begins_folded : Text → Text → Bool
begins_folded literal s = elim (strip_folded literal s) [ none ↦ false | some rest ↦ true ]

-- `/release not found|not found/i.test(stderr)`.
unfoldable pub is_not_found : Text → Bool
is_not_found [] = false
is_not_found (c ∷ s) =
    begins_folded (codes "release not found") (c ∷ s)
    || begins_folded (codes "not found") (c ∷ s)
    || is_not_found s

module _ (tools : Tools) where
  -- `releaseView(tag, run)`.
  unfoldable pub viewed : Completed → Script (Option Release)
  viewed result =
      if succeeded result
      then parsed (tools.parse_release result.stdout) >>= (λ release. done (some release))
      else if is_not_found result.stderr
      then done none
      else fail (codes "could not inspect GitHub Release")

  unfoldable pub release_view : Text → Script (Option Release)
  release_view tag = command gh (view_arguments tag) true >>= viewed

  -- Each downloaded file has the digest of the one in the payload.
  unfoldable pub compare_assets : Text → Text → List Text → Script (Unit {0})
  compare_assets downloaded directory [] = done tt
  compare_assets downloaded directory (name ∷ names) = do
    remote ← digest tools (tools.join downloaded name)
    mine ← digest tools (tools.join directory name)
    if text_eq remote mine
        then compare_assets downloaded directory names
        else fail (codes "is already published with a different file")

  -- `verifyRemoteAssets(release, tag, expected, directory, temporary, run)`.
  unfoldable pub verify_remote_assets : Release → Text → List Text → Text → Text → Script (Unit {0})
  verify_remote_assets release tag expected directory temporary = do
    assert_asset_names release expected false
    let downloaded = tools.join temporary (codes "assets")
    sys (remove downloaded)
    sys (mkdir downloaded)
    command gh (download_arguments tag downloaded) false
    actual ← sys (list_directory downloaded)
    if texts_eq (sorted actual) expected
        then compare_assets downloaded directory expected
        else fail (codes "downloaded asset inventory differs from the release payload")

  module _ (directory version tag notes_path temporary : Text) where
    abbrev pub expected : List Text
    expected = expected_payload version true

    -- The upload, and the publication of what was uploaded.
    unfoldable pub publish_uploaded : Option Release → Script (Unit {0})
    publish_uploaded none = fail (tag ++ codes " disappeared after its assets were uploaded")
    publish_uploaded (some uploaded) = do
      verify_remote_assets uploaded tag expected directory temporary
      command gh (publish_arguments tag notes_path) false
      done tt

    unfoldable pub upload : Script (Unit {0})
    upload = do
      command gh (upload_arguments tag (map (tools.join directory) expected)) false
      uploaded ← release_view tag
      publish_uploaded uploaded

    -- What the release that is there calls for.
    unfoldable pub publish_over : Option Release → Script (Unit {0})
    publish_over none = command gh (create_arguments tag notes_path) false >> upload
    publish_over (some release) =
        if release.is_draft
        then assert_asset_names release expected true >> upload
        else verify_remote_assets release tag expected directory temporary

  unfoldable pub required_notes : Option Text → Script Text
  required_notes none = fail (codes "could not find a heading in CHANGELOG.md")
  required_notes (some notes) = done notes

  -- `publishGithubRelease({ directory, version, changelog, tag, run })`.
  unfoldable pub publish_github_release : Text → Text → Text → Text → Script (Unit {0})
  publish_github_release directory version tag changelog = do
    inspect_payload tools directory version true
    notes ← required_notes (extract_release_notes changelog version)
    temporary ← sys (mkdtemp (tools.join tools.tmpdir (codes "awskms-release-")))
    let notes_path = tools.join temporary (codes "notes.md")
    sys (write_file notes_path (notes ++ codes "\n"))
    finally (release_view tag >>= publish_over directory version tag notes_path temporary)
        (sys (remove temporary))

-- ===== src/Release/Check/Accepted.antt =====
-- Releases that checkRelease of scripts/release-version.mjs accepts.
use keyobject_aws_kms.Prelude.{
  ◌≡◌, refl, subst, true, false, Option, some, List, [], ◌∷◌, ◌++◌, All, Text, codes, text_eq,
  text_eq_refl,
}
use keyobject_aws_kms.Release.Version.{
  ok, is_stable, placeholder, assert_stable_version, native_packages, lookup,
}
use keyobject_aws_kms.Release.Sync.{
  Files, State, read_release_state, opt_is, assert_dependencies, assert_agreement,
  sync_release_version,
}
use keyobject_aws_kms.Release.Sync.Coherent.{IsCoherent, sync_release_version-IsCoherent}
use keyobject_aws_kms.Release.Check.{
  is_incomplete, assert_readme_ready, count_headings, assert_changelog_version, check_release,
}

-- A release that may be published under the tag.
pub record IsReleasable (files : Files) (changelog readme tag v : Text) : Type 0 where
  pub coherent : IsCoherent files v
  pub tagged : tag ≡ codes "v" ++ v
  pub one_heading : count_headings v changelog ≡ 1
  pub readme_ready : is_incomplete readme ≡ false

assert_stable_version_complete :
    (v : Text)
    → is_stable v ≡ true
    → text_eq v placeholder ≡ false
    → assert_stable_version (some v) false ≡ ok v
unfolding assert_stable_version
assert_stable_version_complete v stable released = rw (stable, released) refl

assert_dependencies_complete :
    (dependencies : List (Text × Option Text)) (v : Text) (names : List Text)
    → All (λ name. lookup name dependencies ≡ some v) names
    → assert_dependencies dependencies v names ≡ ok tt
unfolding assert_dependencies
assert_dependencies_complete dependencies v [] h = refl
assert_dependencies_complete dependencies v (name ∷ names) h =
    rw (h.0, opt_is, text_eq_refl v, assert_dependencies_complete dependencies v names h.1) refl

assert_agreement_complete :
    (state : State) (v : Text)
    → All (λ name. lookup name state.manifest.dependencies ≡ some v) native_packages
    → state.cmake.version ≡ v
    → assert_agreement state v ≡ ok tt
unfolding assert_agreement
assert_agreement_complete state v h c =
    rw
      (
        assert_dependencies_complete state.manifest.dependencies v native_packages h,
        c,
        text_eq_refl v,
      )
      refl

changelog_complete :
    (changelog v : Text)
    → count_headings v changelog ≡ 1
    → assert_changelog_version changelog v ≡ ok tt
unfolding assert_changelog_version
changelog_complete changelog v h = rw h refl

readme_complete :
    (readme : Text) → is_incomplete readme ≡ false → assert_readme_ready readme ≡ ok tt
unfolding assert_readme_ready
readme_complete readme h = rw h refl

check_release_complete :
    (files : Files) (changelog readme tag v : Text)
    → IsReleasable files changelog readme tag v
    → check_release files changelog readme tag ≡ ok v
unfolding check_release assert_agreement
check_release_complete files changelog readme tag v r =
    rw
      (
        r.coherent.read,
        r.coherent.version,
        assert_stable_version_complete v r.coherent.stable r.coherent.released,
        assert_agreement_complete r.coherent.state v r.coherent.dependencies r.coherent.cmake,
        r.tagged,
        text_eq_refl (codes "v" ++ v),
        changelog_complete changelog v r.one_heading,
        readme_complete readme r.readme_ready,
      )
      refl

-- The files that `syncReleaseVersion` writes are accepted by `checkRelease` under the tag of the version
-- that the package manifest had, if the changelog has one heading for it and the README is ready.
pub check_release-sync_release_version :
    (files out : Files) (before : State) (changelog readme : Text)
    → read_release_state files ≡ ok before
    → sync_release_version files ≡ ok out
    → count_headings before.manifest.version changelog ≡ 1
    → is_incomplete readme ≡ false
    → check_release out changelog readme (codes "v" ++ before.manifest.version)
      ≡ ok before.manifest.version
check_release-sync_release_version files out before changelog readme read h one ready =
    let (found, reread, coherent) = sync_release_version-IsCoherent files out h in
    let same : found ≡ before = cc (reread, read) in
    check_release_complete out changelog readme (codes "v" ++ before.manifest.version)
      before.manifest.version
      (record {
        coherent = subst (λ b. IsCoherent out b.manifest.version) same coherent;
        tagged = refl;
        one_heading = one;
        readme_ready = ready;
      })

-- ===== src/Release/Sync/Coherent.antt =====
-- What holds of the files that syncReleaseVersion of scripts/release-version.mjs writes.
use keyobject_aws_kms.Prelude.{
  arith, ◌≡◌, refl, sym, ap, ◌∙◌, subst, Bool, true, false, Option, none, some, List, [], ◌∷◌, All,
  String, Text, text_eq, text_eq_sound,
}
use keyobject_aws_kms.Release.Version.{
  Checked, ok, fail, ◌>>=◌, require, is_stable, placeholder, assert_stable_version, native_packages,
  PackageManifest, lookup, Package, parse_manifest, parse_dependencies, texts_eq, sorted, keys_of,
  assert_versions,
}
use keyobject_aws_kms.Release.Sync.{
  parse_cmake, Files, State, read_release_state, opt_is, assert_dependencies, assert_agreement,
  check_previous, next_files, sync_release_version,
}

-- The parts of a step that came to its end.
pub through {ℓ κ ι} :
    {A : Type ℓ} {B : Type κ} {G : Type ι} (m : Checked A) (f : A → Checked B) {b : B}
    → (m >>= f) ≡ ok b
    → ((a : A) → m ≡ ok a → f a ≡ ok b → G)
    → G
through (ok a) f h k = k a refl h
through (fail message) f h k = absurd (cc h)

pub require_holds :
    (b : Bool) (message : String) {u : Unit {0}} → require b message ≡ ok u → b ≡ true
require_holds true message h = refl
require_holds false message h = absurd (cc h)

pub stable_version :
    (version : Option Text) (allow : Bool) (v : Text)
    → assert_stable_version version allow ≡ ok v
    → (version ≡ some v) × (is_stable v ≡ true)
unfolding assert_stable_version
stable_version none allow v h = absurd (cc h)
stable_version (some version) allow v h = (ground arith, ground arith)

pub not_placeholder :
    (version : Text) (v : Text)
    → assert_stable_version (some version) false ≡ ok v
    → text_eq v placeholder ≡ false
unfolding assert_stable_version
not_placeholder version v h = ground arith

parse_dependencies-version :
    (version : Text) (dependencies : Option (List (Text × Option Text))) (p : Package)
    → parse_dependencies version dependencies ≡ ok p
    → version ≡ p.version
unfolding parse_dependencies
parse_dependencies-version version none p h = absurd (cc h)
parse_dependencies-version version (some dependencies) p h =
    through (require (texts_eq (sorted (keys_of dependencies)) (sorted native_packages)) _) _ h
      λ u same h1.
        through (assert_versions dependencies native_packages) _ h1 λ w stable h2. ground arith

parse_manifest-version :
    (m : PackageManifest) (p : Package)
    → parse_manifest (some m) ≡ ok p
    → m.version ≡ some p.version
unfolding parse_manifest
parse_manifest-version m p h = through (require _ _) _ h λ u named h1.
    through (assert_stable_version m.version true) _ h1 λ version stable h2.
      (stable_version m.version true version stable).0
      ∙ ap some (parse_dependencies-version version m.dependencies p h2)

-- Every native package depends on the version, and CMake has it.
pub record IsCoherent (files : Files) (v : Text) : Type 0 where
  pub state : State
  pub read : read_release_state files ≡ ok state
  pub version : state.manifest.version ≡ v
  pub dependencies : All (λ name. lookup name state.manifest.dependencies ≡ some v) native_packages
  pub cmake : state.cmake.version ≡ v
  pub stable : is_stable v ≡ true
  pub released : text_eq v placeholder ≡ false

opt_is_sound : (o : Option Text) (t : Text) → opt_is o t ≡ true → o ≡ some t
opt_is_sound none t h = absurd (cc h)
opt_is_sound (some s) t h = ap some (text_eq_sound s t h)

assert_dependencies_sound :
    (dependencies : List (Text × Option Text)) (v : Text) (names : List Text) {u : Unit {0}}
    → assert_dependencies dependencies v names ≡ ok u
    → All (λ name. lookup name dependencies ≡ some v) names
unfolding assert_dependencies
assert_dependencies_sound dependencies v [] h = tt
assert_dependencies_sound dependencies v (name ∷ names) h = through _ _ h λ u holds h1. (
  opt_is_sound (lookup name dependencies) v (require_holds _ _ holds),
  assert_dependencies_sound dependencies v names h1,
)

pub assert_agreement_sound :
    (state : State) (v : Text) {u : Unit {0}}
    → assert_agreement state v ≡ ok u
    → All (λ name. lookup name state.manifest.dependencies ≡ some v) native_packages
      × (state.cmake.version ≡ v)
unfolding assert_agreement
assert_agreement_sound state v h =
    through (assert_dependencies state.manifest.dependencies v native_packages) _ h λ u agree h1. (
      assert_dependencies_sound state.manifest.dependencies v native_packages agree,
      text_eq_sound state.cmake.version v (require_holds _ _ h1),
    )

read_release_state-manifest :
    (files : Files) (m : PackageManifest) (state : State)
    → files.manifest ≡ some m
    → read_release_state files ≡ ok state
    → m.version ≡ some state.manifest.version
unfolding read_release_state
read_release_state-manifest files m state e h = through (parse_cmake files.cmake) _ h λ cmake c h1.
    through (parse_manifest files.manifest) _ h1 λ manifest p h2.
      let same : manifest ≡ state.manifest = ground arith in
      parse_manifest-version m manifest (ap parse_manifest (sym e) ∙ p)
      ∙ ap (λ x. some x.version) same

-- What syncReleaseVersion writes is coherent: it reads back as the state of a release whose version is the
-- one of the package manifest before, a stable version and not the placeholder, and on which every
-- native package and the CMake project agree. So nothing is written that the checks of a release
-- refuse for its versions.
pub sync_release_version-IsCoherent :
    (files out : Files)
    → sync_release_version files ≡ ok out
    → (before : State) × (read_release_state files ≡ ok before)
      × IsCoherent out before.manifest.version
unfolding sync_release_version next_files
sync_release_version-IsCoherent files out h =
    through (read_release_state files) _ h λ before read h1.
      through (assert_stable_version (some before.manifest.version) false) _ h1 λ target stable h2.
        through (check_previous before) _ h2 λ u previous h3.
          through (read_release_state (next_files files before target)) _ h3 λ next reread h4.
            through (assert_agreement next target) _ h4 λ w agree h5.
              let same : before.manifest.version ≡ target =
                cc (stable_version (some before.manifest.version) false target stable).0 in
              let written : next_files files before target ≡ out = cc h5 in
              (
                before,
                read,
                subst (λ v. IsCoherent out v) (sym same)
                    (record {
                      state = next;
                      read = subst (λ f. read_release_state f ≡ ok next) written reread;
                      version = cc (
                          read_release_state-manifest (next_files files before target) _ next refl
                            reread);
                      dependencies = (assert_agreement_sound next target agree).0;
                      cmake = (assert_agreement_sound next target agree).1;
                      stable =
                          (stable_version (some before.manifest.version) false target stable).1;
                      released = not_placeholder before.manifest.version target stable;
                    }),
              )

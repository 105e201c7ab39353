-- ===== src/Release/Sync.antt =====
-- scripts/release-version.mjs: parseCmake, readReleaseState, the agreement of the versions,
-- syncReleaseVersion. The result of syncReleaseVersion is the files that it writes;
-- the staging by git is left out.
pub mod Coherent
use keyobject_aws_kms.Prelude.{
  ℕ, zero, suc, ◌+◌, ◌-◌, ◌==◌, Bool, true, false, not, ◌&&◌, ◌||◌, Option, none, some, List, [],
  ◌∷◌, ◌++◌, map, if◌then◌else◌, ltb, is_empty, length, Text, codes, text_eq, String, drop,
}
use keyobject_aws_kms.Cli.NodeOptions.{is_space}
use keyobject_aws_kms.Kms.Manifest.{strip_prefix}
use keyobject_aws_kms.Release.Version.{
  Checked, ok, fail, ◌>>=◌, ◌>>◌, require, assert_stable_version, native_packages, PackageManifest,
  lookup, Package, parse_manifest,
}

-- What stands behind the white space, and whether there was some.
unfoldable pub skip_spaces : Bool → Text → Option Text
unfolding is_space
skip_spaces skipped [] = if skipped then some [] else none
skip_spaces skipped (c ∷ s) =
    let rest = skip_spaces true s in
    if is_space c then rest else if skipped then some (c ∷ s) else none

abbrev close_parenthesis : ℕ
close_parenthesis = 0x29

-- `[^\s)]+`.
unfoldable pub version_text : Text → Text
version_text [] = []
version_text (c ∷ s) =
    let rest = version_text s in if is_space c || c == close_parenthesis then [] else c ∷ rest

abbrev some_text : Text → Option Text
some_text s = if is_empty s then none else some s

abbrev then_spaces : Option Text → Option Text
then_spaces none = none
then_spaces (some s) = skip_spaces false s

abbrev then_literal : Text → Option Text → Option Text
then_literal word none = none
then_literal word (some s) = strip_prefix word s

-- What stands behind `project\(awskms\s+VERSION\s+` at the start of the text.
unfoldable pub behind_version : Text → Option Text
unfolding skip_spaces strip_prefix
behind_version s =
    then_spaces
      (then_literal (codes "VERSION") (then_spaces (strip_prefix (codes "project(awskms") s)))

-- A match: the position of its version, and the version.
pub record Match : Type 0 where
  pub start : ℕ
  pub version : Text

unfoldable pub match_at : ℕ → Text → Option Match
unfolding behind_version version_text
match_at position s = elim (behind_version s) [
  | none ↦ none
  | some rest ↦
      if is_empty (version_text rest)
      then none
      else some
          (record { start = position + (length s - length rest); version = version_text rest })
]

abbrev pub match_end : Match → ℕ
match_end m = m.start + length m.version

-- `matchAll`: the next match is looked for behind the last.
unfoldable pub matches : (from position : ℕ) → Text → List Match
unfolding match_at
matches from position [] = []
matches from position (c ∷ s) =
    let next_from = λ (n : ℕ). matches n (suc position) s in
    if ltb position from then next_from from else elim (match_at position (c ∷ s)) [
      | none ↦ next_from from
      | some m ↦ m ∷ next_from (match_end m)
    ]

unfoldable pub one_match : List Match → Checked Match
one_match (m ∷ []) = assert_stable_version (some m.version) true >>= λ version. ok m
one_match _ = fail "must contain exactly one awskms project VERSION"

-- `parseCmake(contents)`.
unfoldable pub parse_cmake : Text → Checked Match
unfolding matches one_match
parse_cmake contents = one_match (matches 0 0 contents)

-- The files of the release.
pub record Files : Type 0 where
  pub manifest : Option PackageManifest
  pub cmake : Text

pub record State : Type 0 where
  pub cmake : Match
  pub manifest : Package

-- `readReleaseState({root})`.
unfoldable pub read_release_state : Files → Checked State
unfolding parse_cmake
read_release_state files = do
  cmake ← parse_cmake files.cmake
  manifest ← parse_manifest files.manifest
  ok (record { cmake = cmake; manifest = manifest })

abbrev pub opt_is : Option Text → Text → Bool
opt_is none t = false
opt_is (some s) t = text_eq s t

unfoldable pub assert_dependencies :
    List (Text × Option Text) → Text → List Text → Checked (Unit {0})
unfolding lookup
assert_dependencies dependencies expected [] = ok tt
assert_dependencies dependencies expected (name ∷ names) =
    let rest = assert_dependencies dependencies expected names in
    (require (opt_is (lookup name dependencies) expected) "version must equal the expected one"
      >> rest)

-- `assertDependencyAndCmakeAgreement(state, expectedVersion)`.
unfoldable pub assert_agreement : State → Text → Checked (Unit {0})
unfolding assert_dependencies
assert_agreement state expected =
    assert_dependencies state.manifest.dependencies expected native_packages
    >> require (text_eq state.cmake.version expected) "project VERSION must equal the expected one"

-- `new Set(…).size === 1`, and the one version.
unfoldable pub common_version : List (Option Text) → Option Text
common_version [] = none
common_version (v ∷ []) = v
common_version (none ∷ w ∷ vs) = none
common_version (some v ∷ w ∷ vs) =
    let rest = common_version (w ∷ vs) in if opt_is rest v then some v else none

abbrev pub previous_versions : Package → List (Option Text)
previous_versions m = map (λ name. lookup name m.dependencies) native_packages

-- `dependencies[name] = target` for a name that is there.
unfoldable pub set_dependency : Text → Text → List (Text × Option Text) → List (Text × Option Text)
set_dependency name target [] = (name, some target) ∷ []
set_dependency name target ((k, v) ∷ entries) =
    let rest = set_dependency name target entries in
    if text_eq k name then (k, some target) ∷ entries else (k, v) ∷ rest

unfoldable pub set_dependencies :
    List Text → Text → List (Text × Option Text) → List (Text × Option Text)
unfolding set_dependency
set_dependencies [] target dependencies = dependencies
set_dependencies (name ∷ names) target dependencies =
    set_dependencies names target (set_dependency name target dependencies)

-- `contents.slice(0, n)`.
unfoldable pub prefix : ℕ → Text → Text
prefix zero s = []
prefix (suc n) [] = []
prefix (suc n) (c ∷ s) = c ∷ prefix n s

-- `contents.slice(0, start) + target + contents.slice(end)`.
unfoldable pub replace_version : Text → Match → Text → Text
replace_version contents m target = prefix m.start contents ++ target ++ drop (match_end m) contents

unfoldable pub next_files : Files → State → Text → Files
unfolding set_dependencies replace_version
next_files files state target = record {
  manifest = some (record {
    name = some (codes "@keyobject/aws-kms");
    version = some target;
    dependencies = some (set_dependencies native_packages target state.manifest.dependencies);
  });
  cmake = replace_version files.cmake state.cmake target;
}

unfoldable pub check_previous : State → Checked (Unit {0})
unfolding common_version
check_previous state = elim (common_version (previous_versions state.manifest)) [
  | none ↦ fail "native optionalDependencies must agree before synchronization"
  | some previous ↦
      require (text_eq state.cmake.version previous)
        "native optionalDependencies and CMake project VERSION must agree before synchronization"
]

-- `syncReleaseVersion({root})`: the files that it writes.
unfoldable pub sync_release_version : Files → Checked Files
unfolding read_release_state assert_agreement check_previous next_files
sync_release_version files = do
  state ← read_release_state files
  target ← assert_stable_version (some state.manifest.version) false
  check_previous state
  next ← read_release_state (next_files files state target)
  assert_agreement next target
  ok (next_files files state target)

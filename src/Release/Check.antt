-- ===== src/Release/Check.antt =====
-- scripts/release-version.mjs: the tests on the README and the changelog, prepareRelease, checkRelease
-- and parseTag. What git prints is an argument; `none` is a git that cannot be run.
pub mod Accepted
use keyobject_aws_kms.Prelude.{
  ℕ, zero, suc, ◌+◌, ◌-◌, ◌==◌, Bool, true, false, not, ◌&&◌, ◌||◌, ltb, leb, Option, none, some,
  List, [], ◌∷◌, ◌++◌, if◌then◌else◌, is_empty, all, length, Text, codes, text_eq, starts_with,
  String, drop,
}
use keyobject_aws_kms.Cli.NodeOptions.{is_space}
use keyobject_aws_kms.Kms.Manifest.{strip_prefix}
use keyobject_aws_kms.Release.Version.{
  Checked, ok, fail, ◌>>=◌, ◌>>◌, require, assert_stable_version,
}
use keyobject_aws_kms.Release.Sync.{Files, State, read_release_state, assert_agreement}

abbrev fold_case : ℕ → ℕ
fold_case c = if leb b'A' c && leb c b'Z' then c + 32 else c

-- A literal at the start, without regard to case.
unfoldable pub strip_folded : Text → Text → Option Text
strip_folded [] s = some s
strip_folded (p ∷ ps) [] = none
strip_folded (p ∷ ps) (c ∷ s) =
    let rest = strip_folded ps s in if fold_case c == p then rest else none

-- `[\s-]+`.
unfoldable pub skip_gap : Bool → Text → Option Text
skip_gap skipped [] = if skipped then some [] else none
skip_gap skipped (c ∷ s) =
    let rest = skip_gap true s in
    if is_space c || c == b'-' then rest else if skipped then some (c ∷ s) else none

abbrev gap_then : Text → Option Text → Option Text
gap_then word none = none
gap_then word (some s) = elim (skip_gap false s) [ none ↦ none | some t ↦ strip_folded word t ]

abbrev is_some {ℓ} : {A : Type ℓ} → Option A → Bool
is_some none = false
is_some (some a) = true

-- The pattern `incompleteReadme` at the start of the text.
unfoldable pub is_incomplete_at : Text → Bool
unfolding strip_folded skip_gap
is_incomplete_at s =
    is_some (gap_then (codes "progress") (gap_then (codes "in") (strip_folded (codes "work") s)))

unfoldable pub is_incomplete : Text → Bool
unfolding is_incomplete_at
is_incomplete [] = false
is_incomplete (c ∷ s) = is_incomplete_at (c ∷ s) || is_incomplete s

-- `assertReadmeReady(contents)`.
unfoldable pub assert_readme_ready : Text → Checked (Unit {0})
assert_readme_ready contents =
    if is_incomplete contents then fail "README.md still declares the package unreleased" else ok tt

abbrev is_line_end : ℕ → Bool
is_line_end c = c == 0x0a || c == 0x0d || c == 0x2028 || c == 0x2029

abbrev is_digit : ℕ → Bool
is_digit c = leb b'0' c && leb c b'9'

-- What stands behind a text of this shape, in which a 0 stands for a digit.
unfoldable pub behind_shape : Text → Text → Option Text
behind_shape [] s = some s
behind_shape (p ∷ ps) [] = none
behind_shape (p ∷ ps) (c ∷ s) =
    let rest = behind_shape ps s in
    if (if p == b'0' then is_digit c else p == c) then rest else none

-- ` \(\d{4}-\d{2}-\d{2}\)`.
abbrev date_shape : Text
date_shape = codes " (0000-00-00)"

-- A `$` of the flag `m` matches here.
abbrev at_line_end : Text → Bool
at_line_end [] = true
at_line_end (c ∷ s) = is_line_end c

abbrev if_at_line_end : Option Text → Option Text
if_at_line_end none = none
if_at_line_end (some s) = if at_line_end s then some s else none

-- What stands behind a date that ends its line.
unfoldable pub behind_date : Text → Option Text
unfolding behind_shape
behind_date s = if_at_line_end (behind_shape date_shape s)

abbrev first_of : Option Text → Option Text → Option Text
first_of none b = b
first_of (some s) b = some s

-- What stands behind `[^\r\n]+\)` and the date, with the longest link that has them behind it; the flag
-- says whether the link has begun. A link may hold U+2028 and U+2029.
unfoldable pub behind_link : Bool → Text → Option Text
unfolding behind_date
behind_link begun [] = none
behind_link begun (c ∷ s) =
    let longer = behind_link true s in
    let here = behind_date s in
    first_of (if c == 0x0a || c == 0x0d then none else longer)
      (if begun && c == b')' then here else none)

abbrev then_link : Option Text → Option Text
then_link none = none
then_link (some s) = behind_link false s

abbrev then_date : Option Text → Option Text
then_date none = none
then_date (some s) = behind_date s

-- What stands behind a heading of the version that begins here.
unfoldable pub behind_heading : Text → Text → Option Text
unfolding strip_prefix behind_link behind_date
behind_heading version s =
    first_of (then_link (strip_prefix (codes "## [" ++ version ++ codes "](") s))
      (then_date (strip_prefix (codes "## " ++ version) s))

-- The matches of `matchAll` in the rest of the text: the flag says whether a line starts here, the number
-- how many characters still belong to the last match.
unfoldable pub count_from : Text → Bool → ℕ → Text → ℕ
unfolding behind_heading
count_from version starts skip [] = 0
count_from version starts (suc skip) (c ∷ s) = count_from version (is_line_end c) skip s
count_from version starts zero (c ∷ s) =
    elim (if starts then behind_heading version (c ∷ s) else none) [
      | none ↦ count_from version (is_line_end c) 0 s
      | some rest ↦ suc (count_from version (is_line_end c) (length s - length rest) s)
    ]

unfoldable pub count_headings : Text → Text → ℕ
unfolding count_from
count_headings version contents = count_from version true 0 contents

-- `assertChangelogVersion(contents, version)`.
unfoldable pub assert_changelog_version : Text → Text → Checked (Unit {0})
unfolding count_headings
assert_changelog_version contents version =
    require (count_headings version contents == 1) "must contain exactly one release heading"

-- `assertCleanTrackedState(root)`.
unfoldable pub assert_clean_tracked_state : Option Text → Checked (Unit {0})
assert_clean_tracked_state none = fail "could not inspect the tracked release state"
assert_clean_tracked_state (some status) =
    require (is_empty status) "release preparation requires a clean tracked worktree and index"

-- `prepareRelease({root})`.
unfoldable pub prepare_release : Files → Text → Option Text → Checked Text
prepare_release files readme status = read_release_state files >>= λ state.
    assert_agreement state state.manifest.version
    >> (assert_readme_ready readme
        >> (assert_clean_tracked_state status >> ok state.manifest.version))

-- `checkRelease({root, tag})`.
unfoldable pub check_release : Files → Text → Text → Text → Checked Text
check_release files changelog readme tag = read_release_state files >>= λ state.
    assert_stable_version (some state.manifest.version) false >>= λ version.
    assert_agreement state version
    >> (require (text_eq tag (codes "v" ++ version)) "release tag must be exactly the version"
        >> (assert_changelog_version changelog version
            >> (assert_readme_ready readme >> ok version)))

-- `parseTag(arguments_)`.
unfoldable pub parse_tag : List Text → Checked Text
unfolding strip_prefix
parse_tag (flag ∷ tag ∷ []) =
    if text_eq flag (codes "--tag")
    then ok tag
    else fail "usage: release-version.mjs check --tag vX.Y.Z"
parse_tag (argument ∷ []) = elim (strip_prefix (codes "--tag=") argument) [
  | none ↦ fail "usage: release-version.mjs check --tag vX.Y.Z"
  | some tag ↦ ok tag
]
parse_tag _ = fail "usage: release-version.mjs check --tag vX.Y.Z"

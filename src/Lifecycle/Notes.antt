-- ===== src/Lifecycle/Notes.antt =====
-- The notes of a release (extractReleaseNotes of scripts/release-lifecycle.mjs).
use keyobject_aws_kms.Prelude.{
  ℕ, ◌==◌, Bool, true, false, ◌&&◌, ◌||◌, leb, Option, none, some, [], ◌∷◌, drop, length,
  if◌then◌else◌, Text, codes, starts_with,
}
use keyobject_aws_kms.Cli.NodeOptions.{is_space}

abbrev is_digit : ℕ → Bool
is_digit c = leb b'0' c && leb c b'9'

-- What stands behind the digits, if there are some.
abbrev behind_digits : Bool → Text → Option Text
behind_digits some_ [] = if some_ then some [] else none
behind_digits some_ (c ∷ s) =
    let rest = behind_digits true s in
    if is_digit c then rest else if some_ then some (c ∷ s) else none

abbrev behind_dot : Option Text → Option Text
behind_dot none = none
behind_dot (some []) = none
behind_dot (some (c ∷ s)) = if c == b'.' then some s else none

abbrev then_digits : Option Text → Option Text
then_digits none = none
then_digits (some s) = behind_digits false s

abbrev is_some : Option Text → Bool
is_some none = false
is_some (some s) = true

-- What stands behind `## \[?`.
abbrev behind_mark : Text → Option Text
behind_mark s =
    if starts_with s (codes "## [")
    then some (drop 4 s)
    else if starts_with s (codes "## ")
    then some (drop 3 s)
    else none

-- `## \[?\d+\.\d+\.\d+` matches here.
unfoldable pub is_version_heading : Text → Bool
is_version_heading s =
    is_some (then_digits (behind_dot (then_digits (behind_dot (then_digits (behind_mark s))))))

abbrev ends_word : Text → Bool
ends_word [] = false
ends_word (c ∷ s) = c == b']' || is_space c

abbrev is_heading_behind : Text → Option Text → Bool
is_heading_behind version none = false
is_heading_behind version (some s) = starts_with s version && ends_word (drop (length version) s)

-- `## \[?VERSION(?:\]|\s)` matches here.
unfoldable pub is_heading_of : Text → Text → Bool
is_heading_of version s = is_heading_behind version (behind_mark s)

-- A `^` of the flag `m` matches behind one of these.
abbrev is_terminator : ℕ → Bool
is_terminator c = c == 10 || c == 13 || c == 8232 || c == 8233

-- The text from the heading on; the flag says whether a line starts here.
unfoldable pub from_heading : Text → Bool → Text → Option Text
from_heading version starts [] = none
from_heading version starts (c ∷ s) =
    let later = from_heading version (is_terminator c) s in
    if starts && is_heading_of version (c ∷ s) then some (c ∷ s) else later

-- What stands behind the first line feed.
unfoldable pub behind_line : Text → Option Text
behind_line [] = none
behind_line (c ∷ s) = let later = behind_line s in if c == 10 then some s else later

-- The text in front of the next heading of a version.
unfoldable pub until_heading : Bool → Text → Text
until_heading starts [] = []
until_heading starts (c ∷ s) =
    let later = until_heading (is_terminator c) s in
    if starts && is_version_heading (c ∷ s) then [] else c ∷ later

unfoldable pub trim_start : Text → Text
trim_start [] = []
trim_start (c ∷ s) = let rest = trim_start s in if is_space c then rest else c ∷ s

abbrev is_blank_text : Text → Bool
is_blank_text [] = true
is_blank_text (c ∷ s) = is_space c && is_blank_text s

unfoldable pub trim_end : Text → Text
trim_end [] = []
trim_end (c ∷ s) = let rest = trim_end s in if is_blank_text (c ∷ s) then [] else c ∷ rest

-- `changelog.slice(start)`: without a line feed `start` is 0.
abbrev remainder_of : Text → Option Text → Text
remainder_of changelog none = changelog
remainder_of changelog (some rest) = rest

abbrev notes_of : Text → Option Text → Option Text
notes_of changelog none = none
notes_of changelog (some match) =
    some (trim_end (trim_start (until_heading true (remainder_of changelog (behind_line match)))))

-- `extractReleaseNotes(changelog, version)`; `none` where it fails.
unfoldable pub extract_release_notes : Text → Text → Option Text
extract_release_notes changelog version = notes_of changelog (from_heading version true changelog)

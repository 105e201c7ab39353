-- ===== src/Kms/Manifest.antt =====
-- scripts/real-kms-keys.mjs: the manifest of provisioned keys, its validation, and key ARNs.
pub mod Arn
use keyobject_aws_kms.Prelude.{
  ℕ, zero, suc, Bool, true, false, not, ◌&&◌, ◌||◌, ◌==◌, Option, none, some, List, [], ◌∷◌, ◌++◌,
  if◌then◌else◌, leb, is_empty, length, any, all, Text, codes, text_eq, starts_with, String,
}

abbrev pub colon : ℕ
colon = 0x3a

infixl 5 ◌>>=◌
abbrev pub ◌>>=◌ {ℓ κ} : {A : Type ℓ} {B : Type κ} → Option A → (A → Option B) → Option B
none >>= f = none
some a >>= f = f a

-- What stands behind a literal part of a pattern.
unfoldable pub strip_prefix : Text → Text → Option Text
strip_prefix [] s = some s
strip_prefix (p ∷ ps) [] = none
strip_prefix (p ∷ ps) (c ∷ s) = let rest = strip_prefix ps s in if p == c then rest else none

-- The characters up to the first colon, and what stands behind it.
unfoldable pub until_colon : Text → Option (Text × Text)
until_colon [] = none
until_colon (c ∷ s) =
    let rest = until_colon s in
    if c == colon then some ([], s) else (rest >>= λ r. some (c ∷ r.0, r.1))

-- `[^:]+:`.
unfoldable pub field : Text → Option (Text × Text)
unfolding until_colon
field s = until_colon s >>= λ r. if is_empty r.0 then none else some r

abbrev pub is_digit : ℕ → Bool
is_digit c = leb b'0' c && leb c b'9'

-- `\d{n}`, the digits and what stands behind them.
unfoldable pub take_digits : ℕ → Text → Option (Text × Text)
take_digits zero s = some ([], s)
take_digits (suc n) [] = none
take_digits (suc n) (c ∷ s) =
    let rest = take_digits n s in if is_digit c then (rest >>= λ r. some (c ∷ r.0, r.1)) else none

-- What `.` does not match.
unfoldable pub is_line_end : ℕ → Bool
is_line_end c = c == 0x0a || c == 0x0d || c == 0x2028 || c == 0x2029

pub record KeyArn : Type 0 where
  pub region : Text
  pub account : Text
  pub key_id : Text

-- `(.+)$`.
unfoldable pub last_part : Text → Option Text
last_part s = if is_empty s || any is_line_end s then none else some s

-- `parseKeyArn(arn)`: /^arn:[^:]+:kms:([^:]+):(\d{12}):key\/(.+)$/.
unfoldable pub parse_key_arn : Text → Option KeyArn
unfolding strip_prefix field take_digits last_part
parse_key_arn arn = do
  s1 ← strip_prefix (codes "arn:") arn
  partition ← field s1
  s2 ← strip_prefix (codes "kms:") partition.1
  region ← field s2
  account ← take_digits 12 region.1
  s3 ← strip_prefix (codes ":key/") account.1
  key_id ← last_part s3
  some (record { region = region.0; account = account.0; key_id = key_id })

abbrev pub Tags : Type 0
Tags = List (Text × Text)

-- A member of `manifest.keys`; a property that is missing is `none`.
pub record ManifestKey : Type 0 where
  pub arn : Option Text
  pub key_id : Option Text
  pub role : Option Text
  pub spec : Option Text
  pub alias : Option Text
  pub key_spec : Option Text
  pub expected_tags : Option Tags

pub data Roles : Type 0 where
  absent not_an_array : Roles
  listed : List Text → Roles

-- A parsed manifest file. `keys` is `none` where it is no object; its members stand in the order of
-- `Object.entries`.
pub record Manifest : Type 0 where
  pub version : Option ℕ
  pub account : Option Text
  pub region : Option Text
  pub run_id : Option Text
  pub roles : Roles
  pub keys : Option (List (Text × ManifestKey))

abbrev pub owner_tag : Text
owner_tag = codes "awskms-provider-test"

abbrev pub run_tag : Text
run_tag = codes "awskms-run"

abbrev pub role_tag : Text
role_tag = codes "awskms-role"

abbrev pub spec_tag : Text
spec_tag = codes "awskms-spec"

abbrev pub owner_value : Text
owner_value = codes "1"

abbrev pub alias_prefix : Text
alias_prefix = codes "alias/awskms-"

-- `ROLES` of test/inventory.mjs.
abbrev pub all_roles : List Text
all_roles = codes "test" ∷ codes "other" ∷ []

-- `expectedTags(runId, role, spec)`.
unfoldable pub expected_tags : Text → Text → Text → Tags
expected_tags run_id role spec =
    (owner_tag, owner_value) ∷ (run_tag, run_id) ∷ (role_tag, role) ∷ (spec_tag, spec) ∷ []

abbrev is_hex : ℕ → Bool
is_hex c = (leb b'a' c && leb c b'f') || (leb b'0' c && leb c b'9')

-- `[a-f0-9]{24}$`.
unfoldable pub is_random_part : Text → Bool
is_random_part s = length s == 24 && all is_hex s

-- `[0-9]+-`, what stands behind it.
unfoldable pub number_dash : Bool → Text → Option Text
number_dash some_digit [] = none
number_dash some_digit (c ∷ s) =
    let rest = number_dash true s in
    if is_digit c then rest else if c == b'-' && some_digit then some s else none

abbrev opt_is : Option Text → Text → Bool
opt_is none t = false
opt_is (some s) t = text_eq s t

abbrev is_random : Option Text → Bool
is_random none = false
is_random (some s) = is_random_part s

-- /^(?:gh-[0-9]+-[0-9]+-|local-)[a-f0-9]{24}$/.
unfoldable pub is_run_id : Text → Bool
unfolding strip_prefix number_dash is_random_part
is_run_id s =
    is_random
      (do s1 ← strip_prefix (codes "gh-") s; s2 ← number_dash false s1; number_dash false s2)
    || is_random (strip_prefix (codes "local-") s)

unfoldable pub includes : List Text → Text → Bool
includes xs t = any (λ x. text_eq x t) xs

-- `new Set(roles).size === roles.length`.
unfoldable pub is_unique : List Text → Bool
unfolding includes
is_unique [] = true
is_unique (x ∷ xs) = not (includes xs x) && is_unique xs

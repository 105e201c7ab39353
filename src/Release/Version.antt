-- ===== src/Release/Version.antt =====
-- scripts/release-version.mjs: the state of a release and its checks, and syncReleaseVersion. A file that is
-- read is its contents, and the package manifest its parsed JSON, whose missing properties are `none`;
-- writing is the new files. An error is its message, without the values that are put into it.
use keyobject_aws_kms.Prelude.{
  ℕ, ◌==◌, Bool, true, false, not, ◌&&◌, ◌||◌, ltb, leb, Option, none, some, List, [], ◌∷◌, ◌++◌,
  if◌then◌else◌, is_empty, all, length, Text, codes, text_eq, String,
}

-- A step of the script, or the error that it throws.
pub data Checked {ℓ} (A : Type ℓ) : Type ℓ where
  ok : A → Checked A
  fail : String → Checked A

infixl 5 ◌>>=◌ ◌>>◌
abbrev pub ◌>>=◌ {ℓ κ} : {A : Type ℓ} {B : Type κ} → Checked A → (A → Checked B) → Checked B
ok a >>= f = f a
fail message >>= f = fail message

abbrev pub ◌>>◌ {ℓ} : {B : Type ℓ} → Checked (Unit {0}) → Checked B → Checked B
m >> k = m >>= λ _. k

abbrev pub require : Bool → String → Checked (Unit {0})
require holds message = if holds then ok tt else fail message

abbrev is_digit : ℕ → Bool
is_digit c = leb b'0' c && leb c b'9'

-- `0|[1-9]\d*`.
unfoldable pub is_number : Text → Bool
is_number [] = false
is_number (c ∷ s) = if c == b'0' then is_empty s else is_digit c && all is_digit s

abbrev dot : ℕ
dot = 0x2e

-- The parts between the dots; `part` is what was read of the first.
unfoldable pub split_dots : Text → Text → List Text
split_dots part [] = part ∷ []
split_dots part (c ∷ s) =
    let next_part = split_dots [] s in
    let same_part = split_dots (part ++ c ∷ []) s in
    if c == dot then part ∷ next_part else same_part

-- `stableVersion.test(version)`.
unfoldable pub is_stable : Text → Bool
unfolding split_dots is_number
is_stable version = length (split_dots [] version) == 3 && all is_number (split_dots [] version)

abbrev pub placeholder : Text
placeholder = codes "0.0.0"

-- `assertStableVersion(version, subject, {allowPlaceholder})`.
unfoldable pub assert_stable_version : Option Text → Bool → Checked Text
unfolding is_stable
assert_stable_version none allow_placeholder = fail "must be a stable numeric X.Y.Z version"
assert_stable_version (some version) allow_placeholder =
    if not (is_stable version)
    then fail "must be a stable numeric X.Y.Z version"
    else if not allow_placeholder && text_eq version placeholder
    then fail "must not be the 0.0.0 placeholder"
    else ok version

abbrev pub native_packages : List Text
native_packages =
    codes "@keyobject/aws-kms-darwin-arm64"
    ∷ codes "@keyobject/aws-kms-linux-arm64"
    ∷ codes "@keyobject/aws-kms-linux-x64"
    ∷ codes "@keyobject/aws-kms-linuxmusl-arm64"
    ∷ codes "@keyobject/aws-kms-linuxmusl-x64"
    ∷ []

-- The package manifest. `dependencies` is `optionalDependencies`, `none` where it is no object.
pub record PackageManifest : Type 0 where
  pub name : Option Text
  pub version : Option Text
  pub dependencies : Option (List (Text × Option Text))

unfoldable pub lookup : Text → List (Text × Option Text) → Option Text
lookup key [] = none
lookup key ((k, v) ∷ entries) = let rest = lookup key entries in if text_eq k key then v else rest

unfoldable pub text_leb : Text → Text → Bool
text_leb [] t = true
text_leb (c ∷ s) [] = false
text_leb (c ∷ s) (d ∷ t) = ltb c d || (c == d && text_leb s t)

unfoldable pub insert_sorted : Text → List Text → List Text
unfolding text_leb
insert_sorted x [] = x ∷ []
insert_sorted x (y ∷ ys) =
    let rest = insert_sorted x ys in if text_leb x y then x ∷ y ∷ ys else y ∷ rest

-- `.sort()`.
unfoldable pub sorted : List Text → List Text
unfolding insert_sorted
sorted [] = []
sorted (x ∷ xs) = insert_sorted x (sorted xs)

unfoldable pub texts_eq : List Text → List Text → Bool
texts_eq [] [] = true
texts_eq [] (y ∷ ys) = false
texts_eq (x ∷ xs) [] = false
texts_eq (x ∷ xs) (y ∷ ys) = text_eq x y && texts_eq xs ys

unfoldable pub keys_of : List (Text × Option Text) → List Text
keys_of [] = []
keys_of ((k, v) ∷ entries) = k ∷ keys_of entries

-- The loop over the native packages: each has a stable version.
unfoldable pub assert_versions : List (Text × Option Text) → List Text → Checked (Unit {0})
assert_versions dependencies [] = ok tt
assert_versions dependencies (name ∷ names) =
    let rest = assert_versions dependencies names in
    (assert_stable_version (lookup name dependencies) true >>= λ version. rest)

abbrev opt_is : Option Text → Text → Bool
opt_is none t = false
opt_is (some s) t = text_eq s t

pub record Package : Type 0 where
  pub version : Text
  pub dependencies : List (Text × Option Text)

-- The tests on `optionalDependencies`.
unfoldable pub parse_dependencies : Text → Option (List (Text × Option Text)) → Checked Package
unfolding assert_versions sorted texts_eq keys_of
parse_dependencies version none = fail "optionalDependencies must be an object"
parse_dependencies version (some dependencies) =
    require (texts_eq (sorted (keys_of dependencies)) (sorted native_packages))
      "must have exactly these native optionalDependencies"
    >> (assert_versions dependencies native_packages
        >> ok (record { version = version; dependencies = dependencies }))

-- `parseManifest(contents)`; `none` is a text that is no JSON.
unfoldable pub parse_manifest : Option PackageManifest → Checked Package
unfolding parse_dependencies
parse_manifest none = fail "is not valid JSON"
parse_manifest (some m) =
    require (opt_is m.name (codes "@keyobject/aws-kms")) "must describe @keyobject/aws-kms"
    >> (assert_stable_version m.version true >>= λ version.
        parse_dependencies version m.dependencies)

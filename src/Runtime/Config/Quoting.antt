-- ===== src/Runtime/Config/Quoting.antt =====
-- Quoted values of an OpenSSL config (quoteOpenSSLConfigValue of npm/core/index.js).
use keyobject_aws_kms.Prelude.{
  ℕ, Bool, true, false, ◌==◌, ◌≡◌, refl, ap, ◌∙◌, if◌then◌else◌, Option, none, some, [], ◌∷◌, ◌++◌,
  is_empty, any, Text, arith, append_assoc, Bool-cases, ◌⊎◌, inl, inr,
}
use keyobject_aws_kms.Runtime.Config.{
  returns, throws, is_control, escape, unsafe_module_path, quote_config_value,
}

abbrev add : ℕ → Option Text → Option Text
add c none = none
add c (some s) = some (c ∷ s)

-- A reader of what stands behind the opening quote, after a backslash or not: a backslash makes the
-- next character literal, the next quote ends the value, and a dollar sign starts a variable, which is
-- refused here, like text behind the value.
unfoldable pub read_value : Bool → Text → Option Text
read_value escaped [] = none
read_value escaped (c ∷ s) =
    let literal = add c (read_value false s) in
    let next = read_value true s in
    if escaped
    then literal
    else if c == b'\\'
    then next
    else if c == b'"'
    then if is_empty s then some [] else none
    else if c == b'$'
    then none
    else literal

unfoldable pub read_quoted : Text → Option Text
read_quoted [] = none
read_quoted (c ∷ s) = if c == b'"' then read_value false s else none

abbrev escape_one : ℕ → Text
escape_one c =
    if c == b'\\'
    then b'\\' ∷ b'\\' ∷ []
    else if c == b'"'
    then b'\\' ∷ b'"' ∷ []
    else if c == b'$'
    then b'\\' ∷ b'$' ∷ []
    else c ∷ []

escape-cons : (c : ℕ) (s : Text) → escape (c ∷ s) ≡ escape_one c ++ escape s
unfolding escape
escape-cons c s = ground arith

read_value-escape_one :
    (c : ℕ) (s : Text) → read_value false (escape_one c ++ s) ≡ add c (read_value false s)
unfolding read_value
read_value-escape_one c s = ground arith

read_value-escape : (s : Text) → read_value false (escape s ++ b'"' ∷ []) ≡ some s
unfolding read_value escape
read_value-escape [] = refl
read_value-escape (c ∷ s) =
    let parts : escape (c ∷ s) ++ b'"' ∷ [] ≡ escape_one c ++ (escape s ++ b'"' ∷ []) =
      ap (λ t. t ++ b'"' ∷ []) (escape-cons c s) ∙ append_assoc (escape_one c) (escape s) _ in
    ap (read_value false) parts
    ∙ read_value-escape_one c (escape s ++ b'"' ∷ [])
    ∙ ap (add c) (read_value-escape s)

-- A module path without a control character is quoted, and a reader of the quoted value, for which a
-- backslash makes the next character literal and an escaped dollar sign starts no variable, reads the
-- path back, and nothing else. Another path is refused with ERR_AWSKMS_UNSAFE_MODULE_PATH.
pub read_quoted-quote_config_value :
    (value : Text)
    → ((any is_control value ≡ false)
        × (q : Text) × (quote_config_value value ≡ returns q)
        × (read_quoted q ≡ some value))
      ⊎ ((any is_control value ≡ true) × (quote_config_value value ≡ throws unsafe_module_path))
unfolding quote_config_value read_quoted
read_quoted-quote_config_value value = elim (Bool-cases (any is_control value)) [
  | inl unsafe ↦ inr (unsafe, rw unsafe refl)
  | inr safe ↦ inl (safe, b'"' ∷ (escape value ++ b'"' ∷ []), rw safe refl, read_value-escape value)
]

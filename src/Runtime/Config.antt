-- ===== src/Runtime/Config.antt =====
-- The OpenSSL config of the provider (quoteOpenSSLConfigValue and renderConfig of npm/core/index.js).
pub mod Quoting
pub mod Rendering
use keyobject_aws_kms.Prelude.{
  ℕ, zero, suc, Bool, true, false, ◌&&◌, ◌||◌, ◌==◌, leb, ltb, if◌then◌else◌, Option, none, some,
  List, [], ◌∷◌, ◌++◌, any, length, Text, codes, text_eq, starts_with, drop,
}
use keyobject_aws_kms.Runtime.Host.{Failure, awskms_error}

-- A result, or the error that is thrown.
pub data Result (A : Type 0) : Type 0 where
  returns : A → Result A
  throws : Failure → Result A

-- `[\u0000-\u001f\u007f]`.
unfoldable pub is_control : ℕ → Bool
is_control c = leb c 31 || c == 127

-- `value.replaceAll(character, replacement)` for one character.
abbrev pub replace_all : ℕ → Text → Text → Text
replace_all c replacement [] = []
replace_all c replacement (d ∷ s) =
    let rest = replace_all c replacement s in if d == c then replacement ++ rest else d ∷ rest

-- The three replacements of `quoteOpenSSLConfigValue`, in their order.
unfoldable pub escape : Text → Text
escape value =
    replace_all b'$' (codes "\\$")
      (replace_all b'"' (codes "\\\"") (replace_all b'\\' (codes "\\\\") value))

unfoldable pub unsafe_module_path : Failure
unsafe_module_path = awskms_error (codes "ERR_AWSKMS_UNSAFE_MODULE_PATH") (
    codes
      "The provider module path contains a control character that cannot be encoded safely in openssl.cnf.")

-- `quoteOpenSSLConfigValue(value)`.
unfoldable pub quote_config_value : Text → Result Text
quote_config_value value =
    if any is_control value
    then throws unsafe_module_path
    else returns (codes "\"" ++ escape value ++ codes "\"")

-- A line, with the line terminator behind it.
pub record Line : Type 0 where
  pub content : Text
  pub ending : Option ℕ

-- The line terminators of a regular expression with the flag `m`.
abbrev is_terminator : ℕ → Bool
is_terminator c = c == 10 || c == 13 || c == 8232 || c == 8233

abbrev add_to_first : ℕ → List Line → List Line
add_to_first c [] = record { content = c ∷ []; ending = none } ∷ []
add_to_first c (l ∷ ls) = record { content = c ∷ l.content; ending = l.ending } ∷ ls

-- The lines of a text, the last one without a terminator.
unfoldable pub split_lines : Text → List Line
split_lines [] = record { content = []; ending = none } ∷ []
split_lines (c ∷ s) =
    let rest = split_lines s in
    if is_terminator c then record { content = []; ending = some c } ∷ rest else add_to_first c rest

abbrev ending_text : Option ℕ → Text
ending_text none = []
ending_text (some c) = c ∷ []

unfoldable pub join_lines : List Line → Text
join_lines [] = []
join_lines (l ∷ ls) = l.content ++ ending_text l.ending ++ join_lines ls

-- `[ \t]`.
abbrev is_blank : ℕ → Bool
is_blank c = c == 32 || c == 9

-- The blanks at the start, and what follows them.
abbrev span_blanks : Text → Text × Text
span_blanks [] = ([], [])
span_blanks (c ∷ s) =
    let rest = span_blanks s in if is_blank c then (c ∷ rest.0, rest.1) else ([], c ∷ s)

abbrev all_blank : Text → Bool
all_blank [] = true
all_blank (c ∷ s) = is_blank c && all_blank s

infixl 5 ◌>>=◌
abbrev ◌>>=◌ : {A B : Type 0} → Option A → (A → Option B) → Option B
none >>= f = none
some a >>= f = f a

-- What follows a literal.
abbrev behind : Text → Text → Option Text
behind literal s = if starts_with s literal then some (drop (length literal) s) else none

abbrev module_word : Text
module_word = codes "module"

abbrev variable : Text
variable = codes "$ENV::AWSKMS_MODULE"

-- The group of `^([ \t]*module[ \t]*=[ \t]*)\$ENV::AWSKMS_MODULE[ \t]*$`, on one line.
unfoldable pub module_prefix : Text → Option Text
module_prefix line = do
  let start = span_blanks line
  word ← behind module_word (start.1)
  let gap = span_blanks word
  sign ← behind (codes "=") (gap.1)
  let space = span_blanks sign
  rest ← behind variable (space.1)
  if all_blank rest then some (start.0 ++ module_word ++ gap.0 ++ codes "=" ++ space.0) else none

unfoldable pub is_module_line : Line → Bool
is_module_line l = elim (module_prefix l.content) [ some prefix ↦ true | none ↦ false ]

-- `[...template.matchAll(moduleLine)].length`.
unfoldable pub count_module_lines : List Line → ℕ
count_module_lines [] = 0
count_module_lines (l ∷ ls) =
    let rest = count_module_lines ls in if is_module_line l then suc rest else rest

abbrev pub with_value : Option Text → Text → Line → Line
with_value none quoted l = l
with_value (some prefix) quoted l = record { content = prefix ++ quoted; ending = l.ending }

unfoldable pub replace_lines : Text → List Line → List Line
replace_lines quoted [] = []
replace_lines quoted (l ∷ ls) =
    with_value (module_prefix l.content) quoted l ∷ replace_lines quoted ls

unfoldable pub bad_template : Failure
bad_template =
    awskms_error (codes "ERR_AWSKMS_BAD_CONFIG_TEMPLATE")
      (codes "The shipped awskms.cnf must contain exactly one module = $ENV::AWSKMS_MODULE line.")

-- `template.replace(moduleLine, …)`.
unfoldable pub with_module : List Line → Result Text → Result Text
with_module lines (returns quoted) = returns (join_lines (replace_lines quoted lines))
with_module lines (throws e) = throws e

-- `renderConfig(template, module)`.
unfoldable pub render_config : Text → Text → Result Text
render_config template library =
    if count_module_lines (split_lines template) == 1
    then with_module (split_lines template) (quote_config_value library)
    else throws bad_template

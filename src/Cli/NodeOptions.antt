-- ===== src/Cli/NodeOptions.antt =====
-- npm/core/bin/awskms.js: reading NODE_OPTIONS into arguments (parseNodeOptions), dropping the
-- OpenSSL config options (withoutOpenSSLConfig) and writing NODE_OPTIONS back
-- (nodeOptionsWithConfig), with `JSON.stringify` on strings.
pub mod Reading
pub mod RoundTrip
pub mod Retained
use keyobject_aws_kms.Prelude.{
  ℕ, ◌+◌, ◌-◌, ◌*◌, Bool, true, false, not, ◌&&◌, ◌||◌, Option, none, some, List, [], ◌∷◌, ◌++◌,
  map, ltb, leb, ◌==◌, if◌then◌else◌, is_empty, any, Text, codes, text_eq, starts_with,
}
use Prim.Native.Nat.{◌/◌, ◌%◌}

abbrev pub double_quote : ℕ
double_quote = 0x22

abbrev pub single_quote : ℕ
single_quote = 0x27

abbrev pub backslash : ℕ
backslash = 0x5c

abbrev pub space : ℕ
space = 0x20

-- `/\s/u` on one character.
unfoldable pub is_space : ℕ → Bool
is_space c =
    (leb 0x09 c && leb c 0x0d)
    || c == 0x20
    || c == 0xa0
    || c == 0x1680
    || (leb 0x2000 c && leb c 0x200a)
    || c == 0x2028
    || c == 0x2029
    || c == 0x202f
    || c == 0x205f
    || c == 0x3000
    || c == 0xfeff

-- The variables of the loop in `parseNodeOptions`.
pub record Lexer : Type 0 where
  pub args : List Text
  pub current : Text
  pub quote : Option ℕ
  pub escaped : Bool

abbrev pub append_character : Lexer → ℕ → Lexer
append_character l c = record l { current = l.current ++ c ∷ [] }

abbrev pub quote_is : Option ℕ → ℕ → Bool
quote_is none q = false
quote_is (some p) q = p == q

-- `if (current !== '') { args.push(current); … }`.
abbrev pub pushed : List Text → Text → List Text
pushed args current = if is_empty current then args else args ++ current ∷ []

-- The branch for a character outside quotes.
unfoldable pub read_bare : Lexer → ℕ → Lexer
unfolding is_space
read_bare l c =
    if c == double_quote || c == single_quote
    then record l { quote = some c }
    else if is_space c
    then record l { args = pushed l.args l.current; current = [] }
    else append_character l c

-- The branch for a character between quotes.
unfoldable pub read_quoted : Lexer → ℕ → ℕ → Lexer
read_quoted l q c = if c == q then record l { quote = none } else append_character l c

-- One round of the loop.
unfoldable pub read_character : Lexer → ℕ → Lexer
unfolding read_bare read_quoted
read_character l c =
    if l.escaped
    then record l { current = l.current ++ c ∷ []; escaped = false }
    else if c == backslash && not (quote_is l.quote single_quote)
    then record l { escaped = true }
    else elim l.quote [ some q ↦ read_quoted l q c | none ↦ read_bare l c ]

unfoldable pub read_all : Lexer → Text → Lexer
read_all l [] = l
read_all l (c ∷ s) = read_all (read_character l c) s

abbrev pub start : Lexer
start = record { args = []; current = []; quote = none; escaped = false }

-- The tests after the loop. `none` is the thrown `Error` for an unmatched quote.
unfoldable pub finish : Lexer → Option (List Text)
finish l =
    let current = if l.escaped then l.current ++ backslash ∷ [] else l.current in
    elim l.quote [ some q ↦ none | none ↦ some (pushed l.args current) ]

-- `parseNodeOptions(value)`; `none` as the argument is `undefined`.
unfoldable pub parse_node_options : Option Text → Option (List Text)
unfolding read_all read_character finish
parse_node_options none = finish (read_all start [])
parse_node_options (some value) = finish (read_all start value)

abbrev pub config_flag : Text
config_flag = codes "--openssl-config"

abbrev pub config_prefix : Text
config_prefix = codes "--openssl-config="

abbrev pub is_config : Text → Bool
is_config arg = text_eq arg config_flag || starts_with arg config_prefix

unfoldable pub has_openssl_config : List Text → Bool
has_openssl_config args = any is_config args

-- The flag says that the argument before was `--openssl-config`, whose value is skipped.
unfoldable pub retained : Bool → List Text → List Text
retained skip [] = []
retained true (arg ∷ args) = retained false args
retained false (arg ∷ args) =
    let rest = retained false args in
    let skipped = retained true args in
    if text_eq arg config_flag
    then skipped
    else if not (starts_with arg config_prefix)
    then arg ∷ rest
    else rest

unfoldable pub without_openssl_config : List Text → List Text
unfolding retained
without_openssl_config args = retained false args

unfoldable pub hex_digit : ℕ → ℕ
hex_digit n = if ltb n 10 then 0x30 + n else 0x57 + n

-- Two letters of an escape, `\n`.
abbrev pub short_escape : ℕ → Text
short_escape letter = backslash ∷ letter ∷ []

-- The digits of an escape `\u000b`.
abbrev pub hex_digits : ℕ → Text
hex_digits c =
    hex_digit (c / 4096 % 16)
    ∷ hex_digit (c / 256 % 16)
    ∷ hex_digit (c / 16 % 16)
    ∷ hex_digit (c % 16)
    ∷ []

abbrev pub is_surrogate : ℕ → Bool
is_surrogate c = leb 0xd800 c && leb c 0xdfff

-- The letter of a two-letter escape, for the characters that have one.
unfoldable pub escape_letter : ℕ → Option ℕ
escape_letter c =
    if c == double_quote || c == backslash
    then some c
    else if c == 0x08
    then some b'b'
    else if c == 0x09
    then some b't'
    else if c == 0x0a
    then some b'n'
    else if c == 0x0c
    then some b'f'
    else if c == 0x0d
    then some b'r'
    else none

abbrev pub is_hex_escaped : ℕ → Bool
is_hex_escaped c = ltb c space || is_surrogate c

-- `JSON.stringify` of one character of a string. A surrogate code point stands alone here.
unfoldable pub json_character : ℕ → Text
unfolding escape_letter
json_character c = elim (escape_letter c) [
  | some letter ↦ short_escape letter
  | none ↦ if is_hex_escaped c then backslash ∷ b'u' ∷ hex_digits c else c ∷ []
]

unfoldable pub json_characters : Text → Text
json_characters [] = []
json_characters (c ∷ s) = json_character c ++ json_characters s

-- `JSON.stringify(argument)`.
unfoldable pub json_string : Text → Text
unfolding json_characters json_character
json_string s = double_quote ∷ json_characters s ++ double_quote ∷ []

-- `.join(' ')`.
unfoldable pub join_words : List Text → Text
join_words [] = []
join_words (w ∷ []) = w
join_words (w ∷ v ∷ ws) = w ++ (space ∷ join_words (v ∷ ws))

-- `retained.map((argument) => JSON.stringify(argument)).join(' ')`.
unfoldable pub quote_arguments : List Text → Text
unfolding join_words json_string
quote_arguments args = join_words (map json_string args)

-- The list that `nodeOptionsWithConfig` writes.
unfoldable pub options_with_config : List Text → Text → List Text
unfolding without_openssl_config
options_with_config args path = without_openssl_config args ++ (config_prefix ++ path) ∷ []

-- `nodeOptionsWithConfig(path)`, with the value of NODE_OPTIONS; `none` when parsing throws.
unfoldable pub node_options_with_config : Option Text → Text → Option Text
unfolding quote_arguments options_with_config
node_options_with_config value path = elim (parse_node_options value) [
  | none ↦ none
  | some args ↦ some (quote_arguments (options_with_config args path))
]

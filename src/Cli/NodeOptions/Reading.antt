-- ===== src/Cli/NodeOptions/Reading.antt =====
-- How the lexer of npm/core/bin/awskms.js reads what `JSON.stringify` writes.
use keyobject_aws_kms.Prelude.{
  ℕ, ◌≡◌, refl, ◌∙◌, Bool, true, false, none, some, List, [], ◌∷◌, ◌++◌, arith, ◌==◌, if◌then◌else◌,
  All, Option-cases, Bool-cases, inl, inr, not, ap, Text, append_assoc, append-nil, ◌||◌,
}
use keyobject_aws_kms.Cli.NodeOptions.{
  Lexer, read_character, read_all, double_quote, backslash, json_character, json_characters,
  json_string, short_escape, hex_digits, is_hex_escaped, escape_letter, hex_digit,
}

pub read_all-append : (l : Lexer) (s t : Text) → read_all l (s ++ t) ≡ read_all (read_all l s) t
unfolding read_all
read_all-append l [] t = refl
read_all-append l (c ∷ s) t = read_all-append (read_character l c) s t

-- Between double quotes, with some text read.
abbrev inside : List Text → Text → Lexer
inside args current = record {
  args = args;
  current = current;
  quote = some double_quote;
  escaped = false;
}

-- Between arguments or at the end of one.
abbrev pub outside : List Text → Text → Lexer
outside args current = record { args = args; current = current; quote = none; escaped = false }

-- What the lexer makes of a character that `JSON.stringify` wrote: each escape loses its backslash.
unfoldable pub reread : ℕ → Text
reread c = elim (escape_letter c) [
  | some letter ↦ letter ∷ []
  | none ↦ if is_hex_escaped c then b'u' ∷ hex_digits c else c ∷ []
]

unfoldable pub reread_all : Text → Text
reread_all [] = []
reread_all (c ∷ s) = reread c ++ reread_all s

abbrev is_verbatim : ℕ → Bool
is_verbatim c = not (c == double_quote || c == backslash)

read_verbatim :
    (args : List Text) (current : Text) (c : ℕ)
    → is_verbatim c ≡ true
    → read_character (inside args current) c ≡ inside args (current ++ c ∷ [])
unfolding read_character
read_verbatim args current c h = ground arith

read_all-verbatim :
    (args : List Text) (current s : Text)
    → All (λ c. is_verbatim c ≡ true) s
    → read_all (inside args current) s ≡ inside args (current ++ s)
unfolding read_all
read_all-verbatim args current [] h = rw append-nil
read_all-verbatim args current (c ∷ s) h =
    rw (read_verbatim args current c h.0)
      (read_all-verbatim args (current ++ c ∷ []) s h.1 ∙ rw append_assoc)

read_escape :
    (args : List Text) (current : Text) (letter : ℕ)
    → read_all (inside args current) (short_escape letter) ≡ inside args (current ++ letter ∷ [])
unfolding read_all read_character
read_escape args current letter = refl

hex_digit-verbatim : (n : ℕ) → is_verbatim (hex_digit n) ≡ true
unfolding hex_digit
hex_digit-verbatim n = ground arith

read_hex_escape :
    (args : List Text) (current : Text) (c : ℕ)
    → read_all (inside args current) (backslash ∷ b'u' ∷ hex_digits c)
      ≡ inside args (current ++ (b'u' ∷ hex_digits c))
read_hex_escape args current c =
    rw (read_all-append (inside args current) (short_escape b'u') (hex_digits c), read_escape)
      (read_all-verbatim args (current ++ b'u' ∷ []) (hex_digits c) (
        hex_digit-verbatim _,
        (hex_digit-verbatim _, (hex_digit-verbatim _, (hex_digit-verbatim _, tt))),
      )
        ∙ rw append_assoc)

escape_letter-none : (c : ℕ) → escape_letter c ≡ none → is_verbatim c ≡ true
unfolding escape_letter
escape_letter-none c h = ground arith

read_json_character :
    (args : List Text) (current : Text) (c : ℕ)
    → read_all (inside args current) (json_character c) ≡ inside args (current ++ reread c)
unfolding json_character reread
read_json_character args current c = elim (Option-cases (escape_letter c)) [
  | inr (letter, e) ↦ rw (e, json_character, reread) (read_escape args current letter)
  | inl e ↦ elim (Bool-cases (is_hex_escaped c)) [
    | inl hex ↦ rw (e, hex, json_character, reread) (read_hex_escape args current c)
    | inr plain ↦
        rw (e, plain, json_character, reread)
          (read_all-verbatim args current (c ∷ []) (escape_letter-none c e, tt))
  ]
]

read_json_characters :
    (args : List Text) (current s : Text)
    → read_all (inside args current) (json_characters s) ≡ inside args (current ++ reread_all s)
unfolding json_characters reread_all read_all
read_json_characters args current [] = rw append-nil
read_json_characters args current (c ∷ s) =
    rw
      (
        read_all-append (inside args current) (json_character c) (json_characters s),
        read_json_character,
      )
      (read_json_characters args (current ++ reread c) s ∙ rw append_assoc)

-- One argument, from its first quote to its last.
pub read_json_string :
    (args : List Text) (s : Text)
    → read_all (outside args []) (json_string s) ≡ outside args (reread_all s)
unfolding json_string read_all read_character
read_json_string args s =
    read_all-append (inside args []) (json_characters s) (double_quote ∷ [])
    ∙ ap (λ l. read_all l (double_quote ∷ [])) (read_json_characters args [] s)

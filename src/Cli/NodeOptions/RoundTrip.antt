-- ===== src/Cli/NodeOptions/RoundTrip.antt =====
-- Which arguments of NODE_OPTIONS survive quoting and reading back (npm/core/bin/awskms.js).
use keyobject_aws_kms.Prelude.{
  ℕ, ◌≡◌, refl, ◌∙◌, ◌↔◌, true, false, Option, none, some, List, [], ◌∷◌, ◌++◌, map, arith, All,
  Bool-cases, inl, inr, not, ap, keep, is_empty, All-append, Text, append_assoc, append-nil,
}
use keyobject_aws_kms.Cli.NodeOptions.{
  Lexer, read_character, read_all, start, finish, pushed, backslash, space, json_string, join_words,
  quote_arguments, parse_node_options, is_hex_escaped, escape_letter,
}
use keyobject_aws_kms.Cli.NodeOptions.Reading.{
  read_all-append, outside, reread, reread_all, read_json_string,
}

abbrev pub nonempty : List Text → List Text
nonempty = keep (λ w. not (is_empty w))

pushed_lem : (args : List Text) (w : Text) → pushed args w ≡ args ++ nonempty (w ∷ [])
pushed_lem args [] = rw append-nil
pushed_lem args (c ∷ w) = refl

pushed-append :
    (args : List Text) (w : Text) (ws : List Text)
    → pushed args w ++ nonempty ws ≡ args ++ nonempty (w ∷ ws)
pushed-append args [] ws = refl
pushed-append args (c ∷ w) ws = append_assoc args _ _

read_space :
    (args : List Text) (w s : Text)
    → read_all (outside args w) (space ∷ s) ≡ read_all (outside (pushed args w) []) s
unfolding read_all read_character
read_space args w s = refl

finish-outside : (args : List Text) (w : Text) → finish (outside args w) ≡ some (pushed args w)
unfolding finish
finish-outside args w = refl

-- A word and the blank behind it.
read_json_word :
    (args : List Text) (w s : Text)
    → read_all (outside args []) (json_string w ++ (space ∷ s))
      ≡ read_all (outside (pushed args (reread_all w)) []) s
read_json_word args w s =
    read_all-append (outside args []) (json_string w) (space ∷ s)
    ∙ ap (λ l. read_all l (space ∷ s)) (read_json_string args w)
    ∙ read_space args (reread_all w) s

read_quote_arguments :
    (args ws : List Text)
    → finish (read_all (outside args []) (quote_arguments ws))
      ≡ some (args ++ nonempty (map reread_all ws))
unfolding quote_arguments join_words read_all
read_quote_arguments args [] = rw append-nil (finish-outside args [])
read_quote_arguments args (w ∷ []) =
    ap finish (read_json_string args w)
    ∙ finish-outside args (reread_all w)
    ∙ ap some (pushed_lem args (reread_all w))
read_quote_arguments args (w ∷ v ∷ ws) =
    ap finish (read_json_word args w (quote_arguments (v ∷ ws)))
    ∙ read_quote_arguments (pushed args (reread_all w)) (v ∷ ws)
    ∙ ap some (pushed-append args (reread_all w) (map reread_all (v ∷ ws)))

-- What `parseNodeOptions` reads of quoted arguments.
pub parse-quote_arguments :
    (ws : List Text)
    → parse_node_options (some (quote_arguments ws)) ≡ some (nonempty (map reread_all ws))
unfolding parse_node_options
parse-quote_arguments ws = read_quote_arguments [] ws

-- The characters that come back as they were: no control characters, no lone surrogates.
abbrev pub IsKept : Text → Type 0
IsKept = All (λ c. is_hex_escaped c ≡ false)

reread-kept : (c : ℕ) → is_hex_escaped c ≡ false → reread c ≡ c ∷ []
unfolding reread escape_letter
reread-kept c h = ground arith

reread-altered : (c : ℕ) (t s : Text) → is_hex_escaped c ≡ true → (reread c ++ t) ≡ c ∷ s → ⊥
unfolding reread escape_letter
reread-altered c t s h e = ground arith

pub reread_all-kept : (s : Text) → IsKept s → reread_all s ≡ s
unfolding reread_all
reread_all-kept [] h = refl
reread_all-kept (c ∷ s) h = rw (reread-kept c h.0, reread_all-kept s h.1)

pub IsKept-reread_all : (s : Text) → reread_all s ≡ s → IsKept s
unfolding reread_all
IsKept-reread_all [] e = tt
IsKept-reread_all (c ∷ s) e = elim (Bool-cases (is_hex_escaped c)) [
  | inl hex ↦ absurd (reread-altered c (reread_all s) s hex e)
  | inr plain ↦ (plain, IsKept-reread_all s (cc (rw (reread-kept c plain) at e)))
]

-- Arguments that `parseNodeOptions` can give: none is empty.
abbrev pub IsNonempty : Text → Type 0
IsNonempty w = is_empty w ≡ false

nonempty-reread_all :
    (ws : List Text) → All IsKept ws → All IsNonempty ws → nonempty (map reread_all ws) ≡ ws
nonempty-reread_all [] k n = refl
nonempty-reread_all (w ∷ ws) k n = rw (reread_all-kept w k.0, nonempty-reread_all ws k.1 n.1, n.0)

-- Quoting arguments and reading them back.
pub parse-quote_arguments_kept :
    (ws : List Text)
    → All IsKept ws
    → All IsNonempty ws
    → parse_node_options (some (quote_arguments ws)) ≡ some ws
parse-quote_arguments_kept ws k n = parse-quote_arguments ws ∙ ap some (nonempty-reread_all ws k n)

pushed-IsNonempty :
    (args : List Text) (w : Text) → All IsNonempty args → All IsNonempty (pushed args w)
pushed-IsNonempty args [] h = h
pushed-IsNonempty args (c ∷ w) h = All-append IsNonempty args _ h (refl, tt)

read_character-IsNonempty :
    (l : Lexer) (c : ℕ) → All IsNonempty l.args → All IsNonempty (read_character l c).args
unfolding read_character
read_character-IsNonempty l c h = ground (arith, pushed-IsNonempty l.args l.current)

read_all-IsNonempty :
    (l : Lexer) (s : Text) → All IsNonempty l.args → All IsNonempty (read_all l s).args
unfolding read_all
read_all-IsNonempty l [] h = h
read_all-IsNonempty l (c ∷ s) h =
    read_all-IsNonempty (read_character l c) s (read_character-IsNonempty l c h)

finish-IsNonempty :
    (l : Lexer) {args : List Text}
    → All IsNonempty l.args
    → finish l ≡ some args
    → All IsNonempty args
unfolding finish
finish-IsNonempty l h e = grind (
  arith,
  pushed-IsNonempty l.args l.current,
  pushed-IsNonempty l.args (l.current ++ backslash ∷ []),
)

pub parse-IsNonempty :
    (value : Option Text) {args : List Text}
    → parse_node_options value ≡ some args
    → All IsNonempty args
unfolding parse_node_options
parse-IsNonempty none e = finish-IsNonempty (read_all start []) (read_all-IsNonempty start [] tt) e
parse-IsNonempty (some s) e =
    finish-IsNonempty (read_all start s) (read_all-IsNonempty start s tt) e

reread_all-IsNonempty : (w : Text) → IsNonempty w → IsNonempty (reread_all w)
unfolding reread_all reread
reread_all-IsNonempty [] h = h
reread_all-IsNonempty (c ∷ w) h = ground arith

map-reread_all :
    (ws : List Text) → All IsNonempty ws → nonempty (map reread_all ws) ≡ map reread_all ws
map-reread_all [] n = refl
map-reread_all (w ∷ ws) n = rw (reread_all-IsNonempty w n.0, map-reread_all ws n.1)

IsKept-map : (ws : List Text) → map reread_all ws ≡ ws → All IsKept ws
IsKept-map [] e = tt
IsKept-map (w ∷ ws) e = (IsKept-reread_all w (cc e), IsKept-map ws (cc e))

-- Arguments that are not empty come back from the quoting of `nodeOptionsWithConfig` and the reading
-- of `parseNodeOptions` as they were exactly when none of them holds a control character or a lone
-- surrogate.
pub parse-quote_arguments_iff :
    (ws : List Text)
    → All IsNonempty ws
    → (parse_node_options (some (quote_arguments ws)) ≡ some ws) ↔ All IsKept ws
parse-quote_arguments_iff ws n = (
  λ e. IsKept-map ws (cc (parse-quote_arguments ws ∙ ap some (map-reread_all ws n), e)),
  λ k. parse-quote_arguments_kept ws k n,
)

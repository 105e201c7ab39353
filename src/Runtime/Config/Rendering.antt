-- ===== src/Runtime/Config/Rendering.antt =====
-- The rendered config against its template (renderConfig of npm/core/index.js).
use keyobject_aws_kms.Prelude.{
  true, ◌==◌, ◌≡◌, refl, sym, ap, ◌∙◌, none, some, List, [], ◌∷◌, ◌++◌, All, Text, arith,
  Bool-cases, Option-cases, ◌⊎◌, inl, inr, ==_iff,
}
use keyobject_aws_kms.Runtime.Config.{
  Result, returns, throws, quote_config_value, Line, split_lines, join_lines, module_prefix,
  with_value, is_module_line, count_module_lines, replace_lines, with_module, render_config,
}

-- The lines of a text are all of it.
pub join_lines-split_lines : (s : Text) → join_lines (split_lines s) ≡ s
unfolding join_lines split_lines
join_lines-split_lines [] = refl
join_lines-split_lines (c ∷ s) =
    let rest = join_lines-split_lines s in
    let all = Lines-cases (split_lines s) in ground (arith, rest, all)
  where
    Lines-cases : (ls : List Line) → (ls ≡ []) ⊎ ((l : Line) × (ms : List Line) × (ls ≡ l ∷ ms))
    Lines-cases [] = inl refl
    Lines-cases (l ∷ ls) = inr (l, ls, refl)

abbrev pub IsPlain : Line → Type 0
IsPlain l = module_prefix l.content ≡ none

replace_lines-IsPlain :
    (quoted : Text) (ls : List Line)
    → count_module_lines ls ≡ 0
    → (replace_lines quoted ls ≡ ls) × All IsPlain ls
unfolding count_module_lines replace_lines is_module_line
replace_lines-IsPlain quoted [] h = (refl, tt)
replace_lines-IsPlain quoted (l ∷ ls) h =
    let rest = replace_lines-IsPlain quoted ls in
    elim (Option-cases (module_prefix l.content)) [
      | inl e ↦ ground (arith, e, h, rest)
      | inr (p, e) ↦ absurd (ground (arith, e, h))
    ]

-- A line of the template is the module line, and the lines around it are not.
pub record HasOneLine (lines : List Line) : Type 0 where
  pub before : List Line
  pub line : Line
  pub after : List Line
  pub prefix : Text
  pub split : lines ≡ before ++ line ∷ after
  pub plain_before : All IsPlain before
  pub matches : module_prefix line.content ≡ some prefix
  pub plain_after : All IsPlain after

-- The config that replaces the variable of that line, and nothing else.
abbrev pub replaced : {lines : List Line} → HasOneLine lines → Text → List Line
replaced one quoted =
    one.before ++ record { content = one.prefix ++ quoted; ending = one.line.ending } ∷ one.after

one_line :
    (ls : List Line)
    → count_module_lines ls ≡ 1
    → (one : HasOneLine ls) × ((quoted : Text) → replace_lines quoted ls ≡ replaced one quoted)
unfolding count_module_lines replace_lines is_module_line
one_line [] h = absurd (omega arith)
one_line (l ∷ ls) h = elim (Option-cases (module_prefix l.content)) [
  | inl e ↦
      let (one, same) = one_line ls (ground (arith, e, h)) in
      (
        record {
          before = l ∷ one.before;
          line = one.line;
          after = one.after;
          prefix = one.prefix;
          split = ap (λ r. l ∷ r) one.split;
          plain_before = (e, one.plain_before);
          matches = one.matches;
          plain_after = one.plain_after;
        },
        λ quoted.
            ap (λ o. with_value o quoted l ∷ replace_lines quoted ls) e
            ∙ ap (λ r. l ∷ r) (same quoted),
      )
  | inr (p, e) ↦
      let none_left : count_module_lines ls ≡ 0 = ground (arith, e, h) in
      (
        record {
          before = [];
          line = l;
          after = ls;
          prefix = p;
          split = refl;
          plain_before = tt;
          matches = e;
          plain_after = (replace_lines-IsPlain [] ls none_left).1;
        },
        λ quoted.
            ap (λ o. with_value o quoted l ∷ replace_lines quoted ls) e
            ∙ ap (λ r. with_value (some p) quoted l ∷ r)
                (replace_lines-IsPlain quoted ls none_left).0,
      )
]

-- `renderConfig` returns a text only where exactly one line of the template, between line terminators,
-- is `module = $ENV::AWSKMS_MODULE`: the text is the template, that line's variable replaced by the
-- quoted module path, all other lines and all line terminators as they were.
pub render_config-HasOneLine :
    (template library out : Text)
    → render_config template library ≡ returns out
    → (one : HasOneLine (split_lines template)) × (quoted : Text) × (quote_config_value library
        ≡ returns quoted)
      × (out ≡ join_lines (replaced one quoted))
      × (template ≡ join_lines (one.before ++ one.line ∷ one.after))
unfolding render_config with_module
render_config-HasOneLine template library out h =
    elim (Bool-cases (count_module_lines (split_lines template) == 1)) [
      | inl found ↦ rendered found (quote_config_value library) refl (rw found at h)
      | inr not_one ↦ absurd (ground (arith, not_one, h))
    ]
  where
    rendered :
        (count_module_lines (split_lines template) == 1) ≡ true
        → (r : Result Text) → quote_config_value library ≡ r
        → with_module (split_lines template) (quote_config_value library) ≡ returns out
        → (one : HasOneLine (split_lines template)) × (quoted : Text) × (quote_config_value library
            ≡ returns quoted)
          × (out ≡ join_lines (replaced one quoted))
          × (template ≡ join_lines (one.before ++ one.line ∷ one.after))
    rendered found (throws e) q h = absurd (ground (arith, q, h))
    rendered found (returns quoted) q h =
        let (one, same) = one_line (split_lines template) ((==_iff _ 1).0 found) in
        (
          one,
          quoted,
          q,
          ground (arith, h, q, same quoted),
          sym (join_lines-split_lines template) ∙ ap join_lines one.split,
        )

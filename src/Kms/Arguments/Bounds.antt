-- ===== src/Kms/Arguments/Bounds.antt =====
-- What `parseArgs` of scripts/real-kms-keys.mjs has established of the options that it returns.
use keyobject_aws_kms.Prelude.{
  arith, ℕ, ◌≡◌, refl, subst, Bool, true, false, ◌<◌, ◌≤◌, Option, none, some, List, [], ◌∷◌, inl,
  inr, ◌⊎◌, Text, codes, if◌then◌else◌,
}
use keyobject_aws_kms.Kms.Manifest.{all_roles}
use keyobject_aws_kms.Kms.Arguments.{
  Arguments, Parsed, rejected, accepted, Variables, defaults, takes_value, set_roles, set_flag,
  set_value, parse_options, is_setup, is_positive, is_window, check_options, parse_args,
}

-- The roles are those of the inventory or the one of the tests, and were chosen if they are not the
-- former; a manifest that was not named is the default `d`.
abbrev pub HasChoices : Text → Arguments → Type 0
HasChoices d o =
    ((o.roles ≡ all_roles) ⊎ ((o.roles ≡ codes "test" ∷ []) × (o.roles_explicit ≡ true)))
    × ((o.manifest_explicit ≡ true) ⊎ (o.manifest ≡ d))

abbrev Keeps : Text → Parsed → Type 0
Keeps d (rejected message) = Unit
Keeps d (accepted o) = HasChoices d o

module _ (d : Text) where
  Keeps-if : (b : Bool) (x y : Parsed) → Keeps d x → Keeps d y → Keeps d (if b then x else y)
  Keeps-if true x y p q = p
  Keeps-if false x y p q = q

  set_flag-Keeps : (opts : Arguments) (a : Text) → HasChoices d opts → Keeps d (set_flag opts a)
  unfolding set_flag
  set_flag-Keeps opts a h = ground arith

  set_roles-Keeps :
      (opts : Arguments) (value : Text) → HasChoices d opts → Keeps d (set_roles opts value)
  unfolding set_roles
  set_roles-Keeps opts value h = ground arith

  module _ (number : Text → Option ℕ) where
    set_value-Keeps :
        (opts : Arguments) (a value : Text)
        → HasChoices d opts
        → Keeps d (set_value number opts a value)
    unfolding set_value
    set_value-Keeps opts a value h = ground (arith, set_roles-Keeps opts value h)

    parse_options-Keeps :
        (pending : Option Text) (p : Parsed) (rest : List Text)
        → Keeps d p
        → Keeps d (parse_options number pending p rest)
    unfolding parse_options
    parse_options-Keeps pending (rejected message) rest h = tt
    parse_options-Keeps none (accepted opts) [] h = h
    parse_options-Keeps (some a) (accepted opts) [] h = tt
    parse_options-Keeps (some a) (accepted opts) (value ∷ rest) h =
        parse_options-Keeps none (set_value number opts a value) rest
          (set_value-Keeps opts a value h)
    parse_options-Keeps none (accepted opts) (a ∷ rest) h =
        Keeps-if (takes_value a) (parse_options number (some a) (accepted opts) rest)
          (parse_options number none (set_flag opts a) rest)
          (parse_options-Keeps (some a) (accepted opts) rest h)
          (parse_options-Keeps none (set_flag opts a) rest (set_flag-Keeps opts a h))

-- The options of a command that may run.
pub record IsInBounds (command : Option Text) (opts : Arguments) : Type 0 where
  pub concurrency : ℕ
  pub window : ℕ
  pub has_concurrency : opts.concurrency ≡ some concurrency
  pub positive : 0 < concurrency
  pub has_window : opts.window ≡ some window
  pub at_least : 7 ≤ window
  pub at_most : window ≤ 30
  pub choices : HasChoices (codes "build/real-kms-keys.json") opts
  pub all_unless_setup : (is_setup command ≡ true) ⊎ (opts.roles ≡ all_roles)

abbrev default_manifest : Text
default_manifest = codes "build/real-kms-keys.json"

positive_number : (c : Option ℕ) → is_positive c ≡ true → (n : ℕ) × (c ≡ some n) × (0 < n)
positive_number none h = absurd (cc h)
positive_number (some n) h = (n, refl, ground arith)

window_number : (w : Option ℕ) → is_window w ≡ true → (n : ℕ) × (w ≡ some n) × (7 ≤ n) × (n ≤ 30)
window_number none h = absurd (cc h)
window_number (some n) h = (n, refl, ground arith, ground arith)

check_options-IsInBounds :
    (command : Option Text) (p : Parsed) (opts : Arguments)
    → Keeps default_manifest p
    → check_options command p ≡ accepted opts
    → IsInBounds command opts
unfolding check_options
check_options-IsInBounds command (rejected message) opts h e = absurd (cc e)
check_options-IsInBounds command (accepted o) opts h e =
    let same : o ≡ opts = ground arith in
    let (n, has_n, positive) = positive_number o.concurrency (ground arith) in
    let (w, has_w, least, most) = window_number o.window (ground arith) in
    subst (IsInBounds command) same (record {
      concurrency = n;
      window = w;
      has_concurrency = has_n;
      positive = positive;
      has_window = has_w;
      at_least = least;
      at_most = most;
      choices = h;
      all_unless_setup = ground arith;
    })

-- Where `parseArgs` returns, the concurrency is a positive integer and the window one from 7 through
-- 30; the roles are all those of the inventory, or, after `--roles` with `setup`, the one of the tests;
-- and a manifest that was not named is the default.
pub parse_args-IsInBounds :
    (number : Text → Option ℕ) (env : Variables) (argv : List Text) (opts : Arguments)
    → (parse_args number env argv).1 ≡ accepted opts
    → IsInBounds (parse_args number env argv).0 opts
unfolding parse_args defaults
parse_args-IsInBounds number env [] opts e =
    check_options-IsInBounds none (accepted (defaults env)) opts (inl refl, inr refl) e
parse_args-IsInBounds number env (command ∷ rest) opts e =
    check_options-IsInBounds (some command)
      (parse_options number none (accepted (defaults env)) rest) opts
      (parse_options-Keeps default_manifest number none (accepted (defaults env)) rest
        (inl refl, inr refl))
      e

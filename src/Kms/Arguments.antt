-- ===== src/Kms/Arguments.antt =====
-- scripts/real-kms-keys.mjs: parseArgs. `Number` is a parameter that gives a natural number, or nothing
-- for any other value.
pub mod Bounds
use keyobject_aws_kms.Prelude.{
  ℕ, zero, suc, Bool, true, false, not, ◌&&◌, ◌||◌, ltb, leb, Option, none, some, List, [], ◌∷◌,
  if◌then◌else◌, is_empty, Text, codes, text_eq, String,
}
use keyobject_aws_kms.Kms.Manifest.{all_roles}

-- `opts`. A number that is not natural is `none`.
pub record Arguments : Type 0 where
  pub region : Option Text
  pub profile : Option Text
  pub smoke : Bool
  pub roles : List Text
  pub roles_explicit : Bool
  pub manifest : Text
  pub manifest_explicit : Bool
  pub window : Option ℕ
  pub concurrency : Option ℕ
  pub sweep : Bool
  pub dry_run : Bool
  pub json : Bool

pub data Parsed : Type 0 where
  rejected : String → Parsed
  accepted : Arguments → Parsed

-- What `parseArgs` reads of `process.env`.
pub record Variables : Type 0 where
  pub aws_region : Option Text
  pub aws_default_region : Option Text
  pub aws_profile : Option Text

-- `a || b`.
unfoldable pub first_set : Option Text → Option Text → Option Text
first_set none b = b
first_set (some a) b = if is_empty a then b else some a

unfoldable pub defaults : Variables → Arguments
unfolding first_set
defaults env = record {
  region = first_set env.aws_region env.aws_default_region;
  profile = env.aws_profile;
  smoke = false;
  roles = all_roles;
  roles_explicit = false;
  manifest = codes "build/real-kms-keys.json";
  manifest_explicit = false;
  window = some 7;
  concurrency = some 4;
  sweep = false;
  dry_run = false;
  json = false;
}

-- The options that read the next argument.
unfoldable pub takes_value : Text → Bool
takes_value a =
    text_eq a (codes "--region")
    || text_eq a (codes "--profile")
    || text_eq a (codes "--manifest")
    || text_eq a (codes "--window")
    || text_eq a (codes "--concurrency")
    || text_eq a (codes "--roles")

unfoldable pub set_roles : Arguments → Text → Parsed
set_roles opts value =
    if text_eq value (codes "test")
    then accepted (record opts { roles = codes "test" ∷ []; roles_explicit = true })
    else if text_eq value (codes "all")
    then accepted (record opts { roles = all_roles; roles_explicit = true })
    else rejected "--roles must be test or all"

unfoldable pub set_flag : Arguments → Text → Parsed
set_flag opts a =
    if text_eq a (codes "--smoke")
    then accepted (record opts { smoke = true })
    else if text_eq a (codes "--sweep")
    then accepted (record opts { sweep = true })
    else if text_eq a (codes "--dry-run")
    then accepted (record opts { dry_run = true })
    else if text_eq a (codes "--json")
    then accepted (record opts { json = true })
    else rejected "unknown option"

abbrev pub is_setup : Option Text → Bool
is_setup none = false
is_setup (some command) = text_eq command (codes "setup")

abbrev pub is_positive : Option ℕ → Bool
is_positive none = false
is_positive (some n) = ltb 0 n

abbrev pub is_window : Option ℕ → Bool
is_window none = false
is_window (some n) = leb 7 n && leb n 30

-- The tests behind the loop.
unfoldable pub check_options : Option Text → Parsed → Parsed
check_options command (rejected message) = rejected message
check_options command (accepted opts) =
    if not (is_positive opts.concurrency)
    then rejected "--concurrency must be a positive integer"
    else if not (is_window opts.window)
    then rejected "--window must be an integer from 7 through 30"
    else if not (is_setup command) && opts.roles_explicit
    then rejected "--roles is only valid with setup"
    else accepted opts

module _ (number : Text → Option ℕ) where
  unfoldable pub set_value : Arguments → Text → Text → Parsed
  unfolding set_roles
  set_value opts a value =
      if text_eq a (codes "--region")
      then accepted (record opts { region = some value })
      else if text_eq a (codes "--profile")
      then accepted (record opts { profile = some value })
      else if text_eq a (codes "--manifest")
      then accepted (record opts { manifest = value; manifest_explicit = true })
      else if text_eq a (codes "--window")
      then accepted (record opts { window = number value })
      else if text_eq a (codes "--concurrency")
      then accepted (record opts { concurrency = number value })
      else set_roles opts value

  -- The loop. The flag says that the argument before reads this one.
  unfoldable pub parse_options : Option Text → Parsed → List Text → Parsed
  unfolding set_value set_flag takes_value
  parse_options pending (rejected message) rest = rejected message
  parse_options none (accepted opts) [] = accepted opts
  parse_options (some a) (accepted opts) [] = rejected "needs a value"
  parse_options (some a) (accepted opts) (value ∷ rest) =
      parse_options none (set_value opts a value) rest
  parse_options none (accepted opts) (a ∷ rest) =
      let with_value = parse_options (some a) (accepted opts) rest in
      let flag = parse_options none (set_flag opts a) rest in
      if takes_value a then with_value else flag

  -- `parseArgs(argv)`: the command is the first argument, if there is one.
  unfoldable pub parse_args : Variables → List Text → Option Text × Parsed
  unfolding parse_options check_options defaults
  parse_args env [] = (none, check_options none (accepted (defaults env)))
  parse_args env (command ∷ rest) = (
    some command,
    check_options (some command) (parse_options none (accepted (defaults env)) rest),
  )

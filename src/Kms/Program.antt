-- ===== src/Kms/Program.antt =====
-- Programs that call the AWS command line (awsTry and awsTryAsync of scripts/aws-cli.mjs). A program
-- is the tree of its calls: what it does next may depend on every reply. The service is not
-- modelled: statements range over all replies.
pub mod Logic
pub mod After
use keyobject_aws_kms.Prelude.{
  ℕ, Bool, true, false, ◌&&◌, ◌||◌, ◌==◌, Option, none, some, List, [], ◌∷◌, ◌++◌, if◌then◌else◌,
  leb, is_empty, Text, codes, starts_with, text_eq, drop, String,
}

-- The AWS CLI commands that the scripts use.
pub data Command : Type 0 where
  describe_key : (key_id : Text) → Command
  list_resource_tags : (key_id : Text) → Command
  get_resources : (owner_key owner_value : Text) → Command
  list_keys : Command
  get_caller_identity : Command
  create_key : (spec description : Text) (tags : List (Text × Text)) → Command
  create_alias : (alias key_id : Text) → Command
  delete_alias : (alias : Text) → Command
  schedule_key_deletion : (key_id : Text) (window : ℕ) → Command
  -- Not a command: the pause of `sleep`, in milliseconds.
  sleep : ℕ → Command

-- A command with the global options that are passed explicitly.
pub record Request : Type 0 where
  pub command : Command
  pub region : Option Text
  pub profile : Option Text

-- `KeyMetadata` of a reply to describe-key or create-key.
pub record Metadata : Type 0 where
  pub arn : Text
  pub key_id : Text
  pub key_spec : Text
  pub key_state : Text

pub record KeyEntry : Type 0 where
  pub key_id : Text
  pub key_arn : Option Text

-- The parts of a parsed JSON reply that the scripts read; a part that is absent is `none`.
pub record Value : Type 0 where
  pub key_metadata : Option Metadata
  pub tags : Option (List (Text × Text))
  pub resource_arns : Option (List Text)
  pub keys : Option (List KeyEntry)
  pub account : Option Text

-- What running the CLI gives: exit status 0 with parsed output (`none` for no output), another
-- status with what was printed, or a launch that failed.
pub data Reply : Type 0 where
  printed : Option Value → Reply
  exited : (stderr : Text) → Reply
  not_launched : String → Reply

-- A thrown error: an `AwsCliError`, or another `Error` by its message.
pub data Failure : Type 0 where
  aws_cli_error : (stderr : Text) → Failure
  other_error : String → Failure

pub data Program (A : Type 0) : Type 0 where
  done : A → Program A
  throw : Failure → Program A
  call : Request → (Reply → Program A) → Program A

module _ {A B : Type 0} where
  -- To go on with the result, or with the failure.
  unfoldable pub attempt : Program A → (A → Program B) → (Failure → Program B) → Program B
  attempt (done a) ok failed = ok a
  attempt (throw e) ok failed = failed e
  attempt (call c k) ok failed = call c (λ r. attempt (k r) ok failed)

infixl 5 ◌>>=◌ ◌>>◌
abbrev pub ◌>>=◌ : {A B : Type 0} → Program A → (A → Program B) → Program B
m >>= f = attempt m f throw

abbrev pub ◌>>◌ : {B : Type 0} → Program (Unit {0}) → Program B → Program B
m >> k = m >>= λ _. k

-- `try { m } catch (error) { … }`.
abbrev pub catch : {A : Type 0} → Program A → (Failure → Program A) → Program A
catch m handler = attempt m done handler

-- `[A-Za-z0-9_.]`.
unfoldable pub is_code_character : ℕ → Bool
is_code_character c =
    (leb b'A' c && leb c b'Z')
    || (leb b'a' c && leb c b'z')
    || (leb b'0' c && leb c b'9')
    || c == b'_'
    || c == b'.'

-- The characters up to the first `)`, if there are some and all may stand in a code.
unfoldable pub code_from : Text → Text → Option Text
unfolding is_code_character
code_from code [] = none
code_from code (c ∷ s) =
    let rest = code_from (code ++ c ∷ []) s in
    if c == b')'
    then if is_empty code then none else some code
    else if is_code_character c
    then rest
    else none

abbrev error_prefix : Text
error_prefix = codes "An error occurred ("

-- `errorCodeOf(stderr)`.
unfoldable pub error_code_of : Text → Option Text
unfolding code_from
error_code_of [] = none
error_code_of (c ∷ s) =
    let later = error_code_of s in
    if starts_with (c ∷ s) error_prefix
    then elim (code_from [] (drop 19 (c ∷ s))) [ some code ↦ some code | none ↦ later ]
    else later

-- The result of `awsTry`: `{ok: true, value}` or `{ok: false, error}`.
pub data Tried : Type 0 where
  succeeded : Option Value → Tried
  failed : (stderr : Text) → Tried

abbrev pub tried : Reply → Program Tried
tried (printed value) = done (succeeded value)
tried (exited stderr) = done (failed stderr)
tried (not_launched message) = throw (other_error message)

-- The options that reach the CLI.
pub record Options : Type 0 where
  pub region : Option Text
  pub profile : Option Text
  pub dry_run : Bool

-- `awsTry(args, opts)` and `awsTryAsync(args, opts)`: a dry run makes no call.
unfoldable pub aws_try : Options → Command → Program Tried
aws_try opts command =
    if opts.dry_run
    then done (succeeded none)
    else call (record { command = command; region = opts.region; profile = opts.profile }) tried

-- `readOnlyOptions(opts)`.
unfoldable pub read_only_options : Options → Options
read_only_options opts = record opts { dry_run = false }

abbrev has_code : Option Text → Text → Bool
has_code none code = false
has_code (some actual) code = text_eq actual code

-- `error.errorCode === code`.
unfoldable pub code_is : Text → Text → Bool
unfolding error_code_of
code_is stderr code = has_code (error_code_of stderr) code

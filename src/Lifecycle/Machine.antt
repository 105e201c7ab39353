-- ===== src/Lifecycle/Machine.antt =====
-- What scripts/release-lifecycle.mjs uses of Node: calls of node:fs, of other programs, of the network
-- and of the clock are requests; what has no side effect is the record `Tools`.
use keyobject_aws_kms.Prelude.{
  ℕ, ◌==◌, Bool, false, not, ◌&&◌, Option, none, some, List, ◌++◌, Text, codes, if◌then◌else◌,
}
use keyobject_aws_kms.Effects
use keyobject_aws_kms.Effects.{Io, done, throw, ◌>>=◌}
use keyobject_aws_kms.Effects.Calls
use keyobject_aws_kms.Effects.Clock
pub use keyobject_aws_kms.Effects.Calls.{ok, failed}
unfoldable pub use keyobject_aws_kms.Effects.Calls.{sys}
use keyobject_aws_kms.Effects.Logic.{Duty}

abbrev pub Bytes : Type 0
Bytes = List ℕ

-- A thrown `Error`, by its message.
abbrev pub Failure : Type 0
Failure = Text

-- The result of `spawnSync` for a program that was started.
pub record Completed : Type 0 where
  pub status : Option ℕ
  pub stdout : Text
  pub stderr : Text

-- A member of parsed JSON that should be a string, and the manifest of a packed package.
pub record Manifest : Type 0 where
  pub name : Option Text
  pub version : Option Text
  -- The members of `optionalDependencies ?? {}`.
  pub dependencies : List (Text × Option Text)

-- The parts of a Sigstore bundle that are read.
pub record Bundle : Type 0 where
  pub media_type : Option Text
  pub payload_type : Option Text
  pub payload : Option Text
  -- The length of `signatures`, where it is an array.
  pub signatures : Option ℕ
  pub has_material : Bool

-- An in-toto statement; the name and the SHA-256 digest of each subject, where there are subjects.
pub record Statement : Type 0 where
  pub type_name : Option Text
  pub subjects : Option (List (Option Text × Option Text))

-- `gh release view --json assets,isDraft`.
pub record Release : Type 0 where
  pub assets : List Text
  pub is_draft : Bool

-- The `id` of an artifact: a whole number, of any size, that is not negative; or something else, with what
-- tells it from others.
pub data Identifier : Type 0 where
  number : (n : ℕ) → Identifier
  other : (value : Text) → Identifier

-- An artifact of a workflow run; `expired` is `none` where it is no boolean.
pub record Artifact : Type 0 where
  pub name : Option Text
  pub expired : Option Bool
  pub id : Identifier

-- The answer of the registry for one version of a package, and its parsed body.
pub record Response : Type 0 where
  pub is_ok : Bool
  pub status : ℕ

pub record PublishedVersion : Type 0 where
  pub version : Option Text
  pub integrity : Option Text

-- The JSON parser gives `none` where it throws; `locale_leb` is the order of `localeCompare`.
pub record Tools : Type 0 where
  pub decode : Bytes → Text
  pub sha256 : Bytes → Text
  pub sha512 : Bytes → Text
  pub base64_decode : Text → Text
  pub join : Text → Text → Text
  pub resolve : Text → Text → Text
  pub parse_manifest : Text → Option Manifest
  pub parse_bundle : Text → Option Bundle
  pub parse_statement : Text → Option Statement
  pub parse_release : Text → Option Release
  -- The pages of artifacts; `some none` is JSON without them.
  pub parse_pages : Text → Option (Option (List (List Artifact)))
  pub locale_leb : Text → Text → Bool
  pub encode_uri : Text → Text
  pub tmpdir : Text

pub data Request : Type 0 where
  -- `spawnSync(command, args)`.
  run : (command : Text) (args : List Text) → Request
  list_directory : (path : Text) → Request
  read_file : (path : Text) → Request
  write_file : (path contents : Text) → Request
  -- `copyFileSync`, with COPYFILE_EXCL or not.
  copy_file : (source target : Text) (exclusive : Bool) → Request
  exists : (path : Text) → Request
  mkdir : (path : Text) → Request
  mkdtemp : (prefix : Text) → Request
  -- `rmSync(path, { recursive: true, force: true })`.
  remove : (path : Text) → Request
  -- The clock, in milliseconds.
  now : Request
  sleep : (milliseconds : ℕ) → Request
  -- `fetch(url)` with a time limit, and `response.json()`.
  fetch : (url : Text) (milliseconds : ℕ) → Request
  read_json : (url : Text) → Request

abbrev pub Result : Request → Type 0
Result (run command args) = Completed
Result (list_directory path) = List Text
Result (read_file path) = Bytes
Result (exists path) = Bool
Result (mkdtemp prefix) = Text
Result now = ℕ
Result (fetch url milliseconds) = Response
Result (read_json url) = PublishedVersion
Result _ = Unit {0}

abbrev pub Reply : Request → Type 0
Reply = Calls.Reply Failure Result

-- The script keeps no variables.
abbrev pub Script : Type 0 → Type 0
Script A = Io (Unit {0}) Request Reply Failure A

abbrev pub History : Type 0
History = Effects.History Request Reply

abbrev pub answered : (c : Request) → Result c → Effects.Event Request Reply
answered = Calls.answered Failure Result

abbrev pub Duties : Type 1
Duties = Duty (Unit {0}) Request Reply Failure

abbrev pub fail : {A : Type 0} → Text → Script A
fail message = throw message

abbrev pub parsed : {A : Type 0} → Option A → Script A
parsed none = fail (codes "Unexpected token in JSON")
parsed (some a) = done a

abbrev is_zero : Option ℕ → Bool
is_zero none = false
is_zero (some status) = status == 0

-- `result.status === 0`.
unfoldable pub succeeded : Completed → Bool
succeeded result = is_zero result.status

-- `command(commandName, args, options)`.
unfoldable pub command : Text → List Text → Bool → Script Completed
command name args allow_failure = do
  result ← sys (run name args)
  if not (succeeded result) && not allow_failure
      then fail (name ++ codes " exited with a status")
      else done result

abbrev pub reading : (c : Request) → Reply c → Option ℕ
reading now (ok time) = some time
reading _ _ = none

abbrev pub latest : History → ℕ
latest = Clock.latest reading

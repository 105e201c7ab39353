-- ===== src/Runtime/Host.antt =====
-- What npm/core/index.js uses of Node: the process and the functions that answer without a side
-- effect are the record `Host`, the calls of node:fs, of the clock and of the loader are requests. The
-- variables of the module are the record `Session`.
use keyobject_aws_kms.Prelude.{ℕ, ◌%◌, Bool, false, Option, none, some, List, Text, codes, text_eq}
use keyobject_aws_kms.Effects
use keyobject_aws_kms.Effects.Calls
pub use keyobject_aws_kms.Effects.Calls.{ok, failed}
unfoldable pub use keyobject_aws_kms.Effects.Calls.{sys}
use keyobject_aws_kms.Effects.{Io, done, throw, stuck, call, read_state, assign, ◌>>=◌}

abbrev pub Bytes : Type 0
Bytes = List ℕ

-- A thrown `Error`: its `code`, its `message`, and its `cause` where it has one.
pub data Failure : Type 0 where
  error : (code : Option Text) (message : Text) → Failure
  caused_error : (code : Option Text) (message : Text) (cause : Failure) → Failure

abbrev pub code_of : Failure → Option Text
code_of (error code message) = code
code_of (caused_error code message cause) = code

abbrev pub message_of : Failure → Text
message_of (error code message) = message
message_of (caused_error code message cause) = message

abbrev pub cause_of : Failure → Option Failure
cause_of (error code message) = none
cause_of (caused_error code message cause) = some cause

abbrev pub is_text : Option Text → Text → Bool
is_text none t = false
is_text (some s) t = text_eq s t

-- `error?.code === code`.
unfoldable pub has_code : Failure → Text → Bool
has_code e code = is_text (code_of e) code

-- `awskmsError(code, message)` and `awskmsError(code, message, cause)`.
abbrev pub awskms_error : Text → Text → Failure
awskms_error code message = error (some code) message

abbrev pub awskms_error_from : Text → Text → Failure → Failure
awskms_error_from code message cause = caused_error (some code) message cause

abbrev pub temp_integrity : Text
temp_integrity = codes "ERR_AWSKMS_TEMP_INTEGRITY"

abbrev pub invalid_platform_package : Text
invalid_platform_package = codes "ERR_AWSKMS_INVALID_PLATFORM_PACKAGE"

-- The fields of `fs.Stats` that the runtime reads.
pub record Stat : Type 0 where
  pub is_file : Bool
  pub is_directory : Bool
  pub is_symbolic_link : Bool
  pub uid : ℕ
  pub mode : ℕ
  pub nlink : ℕ
  pub dev : ℕ
  pub ino : ℕ

-- `stat.mode & 0o777`.
abbrev pub permissions : Stat → ℕ
permissions st = st.mode % 512

-- A member of a parsed package.json.
pub data Member : Type 0 where
  absent : Member
  null : Member
  text : Text → Member
  -- An array; an element that is not a string is `none`.
  array : List (Option Text) → Member
  other : Text → Member

pub record Manifest : Type 0 where
  pub name : Member
  pub version : Member
  pub os : Member
  pub cpu : Member
  pub libc : Member

-- `JSON.parse` of a package.json: an error, `null`, or a value with members.
pub data Parsed : Type 0 where
  syntax_error : Failure → Parsed
  null_value : Parsed
  value : Manifest → Parsed

pub record Host : Type 0 where
  pub platform : Text
  pub arch : Text
  -- `glibcVersionRuntime` of the process report is there.
  pub glibc : Bool
  pub pid : Text
  pub time_origin : Text
  -- `process.getuid()`, where the process has that function.
  pub getuid : Option ℕ
  -- The constants `O_NOFOLLOW` and `O_CLOEXEC` are defined.
  pub o_nofollow : Bool
  pub o_cloexec : Bool
  pub tmpdir : Text
  -- `import.meta.url`, and `version` of the runtime's own package.json.
  pub url : Text
  pub version : Text
  pub node_version : Text
  pub sha256 : Bytes → Text
  pub decode : Bytes → Text
  pub encode : Text → Bytes
  pub parse : Text → Parsed
  -- `JSON.stringify`, and the text in a template literal.
  pub stringify : Member → Text
  pub display : Member → Text
  -- A number in a template literal.
  pub decimal : ℕ → Text
  pub join : Text → Text → Text
  pub dirname : Text → Text
  pub basename : Text → Text

pub data Flag : Type 0 where
  rdonly : Flag
  wronly : Flag
  creat : Flag
  excl : Flag
  nofollow : Flag
  cloexec : Flag

pub data Request : Type 0 where
  -- `require.resolve`.
  resolve : (specifier : Text) → Request
  read_file : (path : Text) → Request
  lstat : (path : Text) → Request
  open_file : (path : Text) (flags : List Flag) (mode : Option ℕ) → Request
  fstat : (fd : ℕ) → Request
  read_open : (fd : ℕ) → Request
  write_open : (fd : ℕ) (bytes : Bytes) → Request
  fchmod : (fd mode : ℕ) → Request
  fsync : (fd : ℕ) → Request
  close : (fd : ℕ) → Request
  link : (path target : Text) → Request
  unlink : (path : Text) → Request
  rmdir : (path : Text) → Request
  mkdir : (path : Text) (mode : ℕ) → Request
  mkdtemp : (prefix : Text) → Request
  chmod : (path : Text) (mode : ℕ) → Request
  -- `process.dlopen`.
  dlopen : (path : Text) → Request
  -- `createPrivateKey({ key: new URL('aws-kms:') })`.
  probe : Request
  -- `performance.now()`, in nanoseconds.
  now : Request
  -- `Atomics.wait` for so many milliseconds.
  wait : (milliseconds : ℕ) → Request

abbrev pub Answer : Type 0 → Type 0
Answer A = Calls.Answer Failure A

abbrev pub Result : Request → Type 0
Result (resolve specifier) = Text
Result (read_file path) = Bytes
Result (lstat path) = Stat
Result (open_file path flags mode) = ℕ
Result (fstat fd) = Stat
Result (read_open fd) = Bytes
Result (mkdtemp prefix) = Text
Result now = ℕ
Result _ = Unit {0}

abbrev pub Reply : Request → Type 0
Reply c = Answer (Result c)

-- `{ path, bytes, digest }`.
pub record Snapshot : Type 0 where
  pub path : Text
  pub bytes : Bytes
  pub digest : Text

pub record Satellite : Type 0 where
  pub name : Text
  pub manifest_file : Snapshot
  pub module_file : Snapshot
  pub config_file : Snapshot

-- A directory, known by its device and inode.
pub record Place : Type 0 where
  pub path : Text
  pub dev : ℕ
  pub ino : ℕ

pub record Marker : Type 0 where
  pub path : Text
  pub dev : ℕ
  pub ino : ℕ
  pub bytes : Bytes
  pub digest : Text

pub record TempDirectory : Type 0 where
  pub place : Place
  pub root : Place
  pub marker : Marker

pub record PrivateFile : Type 0 where
  pub path : Text
  pub dev : ℕ
  pub ino : ℕ
  pub mode : ℕ
  pub bytes : Bytes
  pub digest : Text

pub record Module : Type 0 where
  pub path : Text
  pub private_file : Option PrivateFile

-- The variables of the module.
pub record Session : Type 0 where
  pub cached_satellite : Option Satellite
  pub temp_directory : Option TempDirectory
  pub cached_module : Option Module
  pub cached_config : Option PrivateFile
  pub registered : Bool

abbrev pub Script : Type 0 → Type 0
Script A = Io Session Request Reply Failure A

abbrev pub Event : Type 0
Event = Effects.Event Request Reply

abbrev pub History : Type 0
History = Effects.History Request Reply

-- ===== src/Runtime/File.antt =====
-- Private files of the process (npm/core/index.js from privateFileSnapshot to validatePrivateFile): a
-- file is created once, by the process or by another of its isolates, and validated before every use.
-- `rounds` is the fuel of the two loops that wait for another isolate.
pub mod Vetted
pub mod Awaited
pub mod Written
use keyobject_aws_kms.Prelude.{
  ℕ, zero, suc, ◌+◌, Bool, true, false, not, ◌&&◌, ◌==◌, ltb, if◌then◌else◌, Option, none, some,
  ◌++◌, length, Text, codes, text_eq,
}
use keyobject_aws_kms.Effects.{done, throw, stuck, attempt, ◌>>=◌, ◌>>◌}
use keyobject_aws_kms.Runtime.Host.{
  Bytes, Failure, has_code, Stat, permissions, Host, lstat, open_file, write_open, fchmod, fsync,
  close, unlink, now, wait, PrivateFile, Script, sys,
}
use keyobject_aws_kms.Runtime.Directory.{
  best_effort, Opened, failure, failure_from, attempt_sys, uid_matches, no_follow_read,
}
use keyobject_aws_kms.Runtime.Rendezvous.{
  create_flags, validate_temp_directory, private_temp_directory,
}

-- `publicationTimeout`, in the nanoseconds of the clock.
abbrev pub publication_timeout : ℕ
publication_timeout = 5000000000

module _ (host : Host) where
  -- The file is the recorded one.
  unfoldable pub is_recorded : PrivateFile → Opened → Bool
  is_recorded file (st, bytes) =
      st.is_file
      && st.nlink == 1
      && uid_matches host st
      && st.dev == file.dev
      && st.ino == file.ino
      && permissions st == file.mode
      && length bytes == length file.bytes
      && text_eq (host.sha256 bytes) file.digest

  -- `validatePrivateFile(file, snapshot)`, behind `validateTempDirectory`.
  unfoldable pub accept_opened : PrivateFile → Opened → Script (Unit {0})
  accept_opened file opened =
      if is_recorded file opened
      then done tt
      else throw (failure (codes "Private runtime file changed after creation: " ++ file.path))

  abbrev pub vanished : Text → Failure → Failure
  vanished path cause = failure_from (codes "Private runtime file disappeared: " ++ path) cause

  -- `validatePrivateFile(file)`.
  unfoldable pub validate_private_file : PrivateFile → Script (Unit {0})
  validate_private_file file = do
    validate_temp_directory host
    opened ← attempt_sys (no_follow_read host file.path) (vanished file.path)
    accept_opened file opened

  unfoldable pub file_of : Text → Bytes → ℕ → Stat → PrivateFile
  file_of path bytes mode st = record {
    path = path;
    dev = st.dev;
    ino = st.ino;
    mode = mode;
    bytes = bytes;
    digest = host.sha256 bytes;
  }

  -- `privateFileSnapshot(path, bytes, finalMode)`.
  unfoldable pub private_file_snapshot : Text → Bytes → ℕ → Script PrivateFile
  private_file_snapshot path bytes mode = do
    opened ← attempt_sys (no_follow_read host path) (vanished path)
    let file = file_of path bytes mode (opened.0)
    validate_temp_directory host
    accept_opened file opened
    done file

  -- What `lstatSync` found: nothing, or a file.
  unfoldable pub look_at : Text → Script (Option Stat)
  look_at path =
      attempt (sys (lstat path)) (λ st. done (some st))
        (λ cause.
          if has_code cause (codes "ENOENT")
          then done none
          else throw (failure_from (codes "Could not inspect private runtime file " ++ path) cause))

  -- Its creator has not finished.
  unfoldable pub is_pending : Stat → Bool
  is_pending st =
      st.is_file
      && not st.is_symbolic_link
      && uid_matches host st
      && st.nlink == 1
      && permissions st == 384

  module _ (path : Text) (bytes : Bytes) (mode : ℕ) where
    -- What follows the inspection; `later` is the next turn of the loop.
    unfoldable pub after_look :
        Script (Option PrivateFile) → Option Stat → Script (Option PrivateFile)
    after_look later none = done none
    after_look later (some st) =
        if is_pending st
        then sys (wait 5) >> later
        else private_file_snapshot path bytes mode >>= λ file. done (some file)

    -- One turn of the loop of `awaitPrivateFile`.
    unfoldable pub await_turn : ℕ → Script (Option PrivateFile) → ℕ → Script (Option PrivateFile)
    await_turn deadline later time =
        if ltb time deadline
        then look_at path >>= after_look later
        else throw (failure (codes "Timed out waiting for private runtime file " ++ path))

    -- `awaitPrivateFile(path, bytes, finalMode, deadline)`.
    unfoldable pub await_private_file : ℕ → ℕ → Script (Option PrivateFile)
    await_private_file deadline zero = stuck
    await_private_file deadline (suc rounds) =
        sys now >>= (await_turn deadline (await_private_file deadline rounds))

  abbrev pub could_not_create : Text → Failure → Failure
  could_not_create path cause =
      failure_from (codes "Could not create private runtime file " ++ path) cause

  -- The bytes and the final mode. The mode that readers wait for is set last.
  unfoldable pub fill : ℕ → Bytes → ℕ → Script (Unit {0})
  fill fd bytes mode = do sys (write_open fd bytes); sys (fsync fd); sys (fchmod fd mode)

  -- The error handling while a file is written.
  unfoldable pub abandon : ℕ → Text → Bool → Failure → Script (Unit {0})
  abandon fd path published cause =
      best_effort (sys (close fd))
      >> (if published then done tt else best_effort (sys (unlink path)))
      >> throw (could_not_create path cause)

  unfoldable pub write_created : Text → Bytes → ℕ → ℕ → Script (Unit {0})
  write_created path bytes mode fd =
      attempt (fill fd bytes mode)
        (λ filled. attempt (sys (fsync fd) >> sys (close fd)) done (abandon fd path true))
        (abandon fd path false)

  module _ (rounds : ℕ) (path : Text) (bytes : Bytes) (mode : ℕ) where
    unfoldable pub create_new : ℕ → Script PrivateFile
    create_new fd = write_created path bytes mode fd >> private_file_snapshot path bytes mode

    -- The file of another isolate, or the next turn of the loop.
    unfoldable pub adopt : Script PrivateFile → Option PrivateFile → Script PrivateFile
    adopt later (some existing) = done existing
    adopt later none = later

    unfoldable pub create_failed : ℕ → Script PrivateFile → Failure → Script PrivateFile
    create_failed deadline later cause =
        if has_code cause (codes "EEXIST")
        then await_private_file path bytes mode deadline rounds >>= adopt later
        else throw (could_not_create path cause)

    -- The loop of `writePrivateFile`, and what follows it.
    unfoldable pub create_loop : ℕ → ℕ → Script PrivateFile
    create_loop deadline zero = stuck
    create_loop deadline (suc turns) =
        attempt (sys (open_file path (create_flags host) (some 384))) create_new
          (create_failed deadline (create_loop deadline turns))

    unfoldable pub create_at : Script PrivateFile
    create_at =
        if host.o_nofollow
        then sys now >>= (λ time. create_loop (time + publication_timeout) rounds)
        else throw (
            failure (
              codes
                "This platform cannot create private runtime files without following symbolic links."))

  -- `writePrivateFile(name, bytes, finalMode)`.
  unfoldable pub write_private_file : ℕ → Text → Bytes → ℕ → Script PrivateFile
  write_private_file rounds name bytes mode = do
    directory ← private_temp_directory host
    create_at rounds (host.join directory name) bytes mode

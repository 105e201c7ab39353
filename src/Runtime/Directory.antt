-- ===== src/Runtime/Directory.antt =====
-- The private directory of the process (npm/core/index.js from uidMatches to privateTempDirectory): a
-- directory that only its owner may use, found through a marker file in a root that all processes of a
-- user share.
pub mod Inspected
use keyobject_aws_kms.Prelude.{
  ℕ, Bool, true, not, ◌&&◌, ◌||◌, ◌==◌, leb, if◌then◌else◌, Option, none, some, List, [], ◌∷◌, ◌++◌,
  length, drop, all, Text, codes, text_eq, starts_with,
}
use keyobject_aws_kms.Effects.{done, throw, attempt, ◌>>=◌, catch, finally}
use keyobject_aws_kms.Runtime.Host.{
  Bytes, Failure, awskms_error, awskms_error_from, temp_integrity, Stat, permissions, Host, Flag,
  rdonly, nofollow, cloexec, lstat, open_file, fstat, read_open, close, Place, TempDirectory,
  Script, sys,
}

-- `try { c } catch {}`.
unfoldable pub best_effort : {A : Type 0} → Script A → Script (Unit {0})
best_effort c = attempt c (λ a. done tt) (λ e. done tt)

-- What `noFollowRead` returns.
abbrev pub Opened : Type 0
Opened = Stat × Bytes

abbrev pub failure : Text → Failure
failure message = awskms_error temp_integrity message

abbrev pub failure_from : Text → Failure → Failure
failure_from message cause = awskms_error_from temp_integrity message cause

abbrev pub attempt_sys : {A : Type 0} → Script A → (Failure → Failure) → Script A
attempt_sys m wrap = catch m (λ cause. throw (wrap cause))

module _ (host : Host) where
  unfoldable pub uid_matches : Stat → Bool
  uid_matches st = elim host.getuid [ none ↦ true | some uid ↦ st.uid == uid ]

  abbrev pub is_at : Stat → Option Place → Bool
  is_at st none = true
  is_at st (some place) = st.dev == place.dev && st.ino == place.ino

  unfoldable pub is_private_directory : Stat → Option Place → Bool
  is_private_directory st expected =
      st.is_directory
      && not st.is_symbolic_link
      && uid_matches st
      && permissions st == 448
      && is_at st expected

  -- `assertPrivateDirectory(path, expected)`.
  unfoldable pub assert_private_directory : Text → Option Place → Script Stat
  assert_private_directory path expected = do
    st ←
        attempt_sys (sys (lstat path))
          (failure_from (codes "Private runtime directory disappeared: " ++ path))
    if is_private_directory st expected
        then done st
        else throw (
            failure (codes "Private runtime directory changed or has unsafe permissions: " ++ path))

  unfoldable pub close_on_exec : List Flag
  close_on_exec = if host.o_cloexec then cloexec ∷ [] else []

  abbrev pub read_flags : List Flag
  read_flags = rdonly ∷ nofollow ∷ close_on_exec

  -- `noFollowRead(path)`.
  unfoldable pub no_follow_read : Text → Script Opened
  no_follow_read path =
      if host.o_nofollow
      then sys (open_file path read_flags none) >>= read_and_close
      else throw (
          failure (
            codes
              "This platform cannot inspect private runtime files without following symbolic links."))
    where
      read_both : ℕ → Script Opened
      read_both fd = do st ← sys (fstat fd); bytes ← sys (read_open fd); done (st, bytes)

      read_and_close : ℕ → Script Opened
      read_and_close fd = finally (read_both fd) (sys (close fd))

  unfoldable pub process_identity : Text
  process_identity =
      host.pid ++ codes "-" ++ host.sha256 (host.encode (host.pid ++ 0 ∷ host.time_origin))

  unfoldable pub directory_prefix : Text
  directory_prefix = codes "runtime-" ++ process_identity ++ codes "-"

  unfoldable pub rendezvous_name : Text
  rendezvous_name = codes "process-" ++ process_identity ++ codes ".path"

  abbrev is_alphanumeric : ℕ → Bool
  is_alphanumeric c = (leb 65 c && leb c 90) || (leb 97 c && leb c 122) || (leb 48 c && leb c 57)

  -- `/^[A-Za-z0-9]{6}$/u.test(suffix)`.
  unfoldable pub is_suffix : Text → Bool
  is_suffix s = length s == 6 && all is_alphanumeric s

  unfoldable pub is_marker : Stat → Bool
  is_marker st = st.is_file && uid_matches st && permissions st == 256

  unfoldable pub is_directory_name : Text → Bool
  is_directory_name name =
      text_eq name (host.basename name)
      && starts_with name directory_prefix
      && is_suffix (drop (length directory_prefix) name)

  -- What is remembered of the directory: where it is, its root, and its marker.
  unfoldable pub known_directory : Place → Text → Opened → Stat → TempDirectory
  known_directory root marker_path (st, bytes) at = record {
    place = record { path = host.join root.path (host.decode bytes); dev = at.dev; ino = at.ino };
    root = root;
    marker = record {
      path = marker_path;
      dev = st.dev;
      ino = st.ino;
      bytes = bytes;
      digest = host.sha256 bytes;
    };
  }

  -- The directory that a marker names.
  unfoldable pub directory_of : Place → Text → Opened → Script TempDirectory
  directory_of root marker_path marker =
      if is_marker (marker.0) && is_directory_name (host.decode (marker.1))
      then assert_private_directory (host.join root.path (host.decode (marker.1))) none
        >>= (λ at. done (known_directory root marker_path marker at))
      else throw
          (failure (codes "The aws-kms process rendezvous is malformed or unsafe: " ++ marker_path))

  -- `readRendezvous(root, markerPath)`.
  unfoldable pub read_rendezvous : Place → Text → Script TempDirectory
  read_rendezvous root marker_path = do
    marker ←
        attempt_sys (no_follow_read marker_path)
          (failure_from (codes "Could not read the aws-kms process rendezvous: " ++ marker_path))
    directory_of root marker_path marker

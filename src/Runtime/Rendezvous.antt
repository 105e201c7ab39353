-- ===== src/Runtime/Rendezvous.antt =====
-- How the processes of a user agree on their private directories (rendezvousRoot, publishRendezvous,
-- validateTempDirectory and privateTempDirectory of npm/core/index.js).
pub mod Trusted
pub mod Published
pub mod Found
use keyobject_aws_kms.Prelude.{
  ℕ, Bool, true, false, not, ◌&&◌, ◌==◌, if◌then◌else◌, Option, none, some, List, ◌∷◌, ◌++◌, length,
  Text, codes, text_eq,
}
use keyobject_aws_kms.Effects.{done, throw, read_state, assign, attempt, ◌>>=◌, ◌>>◌, catch}
use keyobject_aws_kms.Runtime.Host.{
  Failure, error, cause_of, has_code, Host, Flag, wronly, creat, excl, nofollow, open_file,
  write_open, fchmod, fsync, close, link, unlink, rmdir, mkdir, mkdtemp, chmod, Place,
  TempDirectory, Script, sys,
}
use keyobject_aws_kms.Runtime.Directory.{
  best_effort, Opened, failure, failure_from, attempt_sys, assert_private_directory, close_on_exec,
  no_follow_read, directory_prefix, rendezvous_name, is_marker, read_rendezvous,
}

-- The variables of `publishRendezvous` that its error handling reads.
pub record Locals : Type 0 where
  pub candidate : Option Text
  pub publication : Option Text
  pub fd : Option ℕ
  pub published : Bool

abbrev pub each : {A : Type 0} → Option A → (A → Script (Unit {0})) → Script (Unit {0})
each none f = done tt
each (some a) f = f a

abbrev pub when : Bool → Script (Unit {0}) → Script (Unit {0})
when b m = if b then m else done tt

-- Whether a cause of the error is that of a missing file.
unfoldable pub is_missing : Failure → Bool
is_missing cause = elim (cause_of cause) [
  | none ↦ false
  | some first ↦ has_code first (codes "ENOENT")
]

module _ (host : Host) where
  -- The root, once the directory is there.
  unfoldable pub root_at : Text → Script Place
  root_at path = do
    st ← assert_private_directory host path none
    done (record { path = path; dev = st.dev; ino = st.ino })

  unfoldable pub create_root : Text → Script (Unit {0})
  create_root path =
      attempt (sys (mkdir path 448)) (λ made. sys (chmod path 448))
        (λ cause.
          if has_code cause (codes "EEXIST")
          then done tt
          else throw (
              failure_from
                (codes "Could not create the private aws-kms rendezvous directory: " ++ path)
                cause))

  unfoldable pub root_of : Option ℕ → Script Place
  root_of none =
      throw (failure (codes "The aws-kms runtime package requires a POSIX user identity."))
  root_of (some uid) =
      let path = host.join host.tmpdir (codes "keyobject-aws-kms-" ++ host.decimal uid) in
      create_root path >> root_at path

  -- `rendezvousRoot()`.
  unfoldable pub rendezvous_root : Script Place
  rendezvous_root = root_of host.getuid

  abbrev pub create_flags : List Flag
  create_flags = wronly ∷ creat ∷ excl ∷ nofollow ∷ close_on_exec host

  -- The error handling of `publishRendezvous`.
  unfoldable pub clean_up : Locals → Script (Unit {0})
  clean_up locals = do
    each locals.fd (λ fd. best_effort (sys (close fd)))
    when (not locals.published) (each locals.publication (λ path. best_effort (sys (unlink path))))
    when (not locals.published) (each locals.candidate (λ path. best_effort (sys (rmdir path))))

  unfoldable pub recover : Place → Text → Locals → Failure → Script TempDirectory
  recover root marker_path locals cause =
      clean_up locals
      >> (if has_code cause (codes "EEXIST")
          then read_rendezvous host root marker_path
          else throw
              (failure_from (codes "Could not publish a private aws-kms process directory.") cause))

  -- Makes the directory, and nobody else may use it.
  unfoldable pub secure_candidate : Text → Script (Unit {0})
  secure_candidate candidate = do
    sys (chmod candidate 448)
    assert_private_directory host candidate none
    done tt

  unfoldable pub write_marker : ℕ → Text → Script (Unit {0})
  write_marker fd candidate = do
    sys (write_open fd (host.encode (host.basename candidate)))
    sys (fchmod fd 256)
    sys (fsync fd)
    sys (close fd)

  -- `publishRendezvous(root, markerPath)`.
  module _ (root : Place) (marker_path : Text) where
    unfoldable pub publish_linked : Text → Text → Script TempDirectory
    publish_linked candidate publication =
        best_effort (sys (unlink publication))
        >> attempt (read_rendezvous host root marker_path) done (
            recover root marker_path (record {
              candidate = some candidate;
              publication = none;
              fd = none;
              published = true;
            }))

    unfoldable pub publish_written : Text → Text → Script TempDirectory
    publish_written candidate publication =
        attempt (sys (link publication marker_path))
          (λ linked. publish_linked candidate publication)
          (recover root marker_path (record {
            candidate = some candidate;
            publication = some publication;
            fd = none;
            published = false;
          }))

    unfoldable pub publish_opened : Text → Text → ℕ → Script TempDirectory
    publish_opened candidate publication fd =
        attempt (write_marker fd candidate) (λ written. publish_written candidate publication)
          (recover root marker_path (record {
            candidate = some candidate;
            publication = some publication;
            fd = some fd;
            published = false;
          }))

    unfoldable pub publish_secured : Text → Text → Script TempDirectory
    publish_secured candidate publication =
        attempt (sys (open_file publication create_flags (some 384)))
          (publish_opened candidate publication)
          (recover root marker_path (record {
            candidate = some candidate;
            publication = some publication;
            fd = none;
            published = false;
          }))

    unfoldable pub publish_candidate : Text → Script TempDirectory
    publish_candidate candidate =
        attempt (secure_candidate candidate)
          (λ secured. publish_secured candidate (host.join candidate (codes ".publish")))
          (recover root marker_path (record {
            candidate = some candidate;
            publication = none;
            fd = none;
            published = false;
          }))

    unfoldable pub publish_rendezvous : Script TempDirectory
    publish_rendezvous =
        attempt (sys (mkdtemp (host.join root.path (directory_prefix host)))) publish_candidate (
          recover root marker_path
            (record { candidate = none; publication = none; fd = none; published = false }))

  -- The marker is the remembered one.
  unfoldable pub same_marker : TempDirectory → Opened → Bool
  same_marker temp (st, bytes) =
      is_marker host st
      && st.dev == temp.marker.dev
      && st.ino == temp.marker.ino
      && length bytes == length temp.marker.bytes
      && text_eq (host.sha256 bytes) temp.marker.digest
      && text_eq (host.decode bytes) (host.basename temp.place.path)

  unfoldable pub validate_known : TempDirectory → Script Text
  validate_known temp = do
    assert_private_directory host temp.root.path (some temp.root)
    marker ←
        attempt_sys (no_follow_read host temp.marker.path)
          (failure_from (codes "The aws-kms process rendezvous disappeared: " ++ temp.marker.path))
    if same_marker temp marker
        then assert_private_directory host temp.place.path (some temp.place) >> done temp.place.path
        else throw (failure (codes "The aws-kms process rendezvous changed: " ++ temp.marker.path))

  unfoldable pub validate_remembered : Option TempDirectory → Script Text
  validate_remembered none =
      throw (error none (codes "Cannot read properties of undefined (reading 'root')"))
  validate_remembered (some temp) = validate_known temp

  -- `validateTempDirectory()`. Its callers have set the variable; a `TypeError` otherwise.
  unfoldable pub validate_temp_directory : Script Text
  validate_temp_directory = read_state (λ s. validate_remembered s.temp_directory)

  abbrev pub remember : TempDirectory → Script (Unit {0})
  remember temp = read_state (λ s. assign (record s { temp_directory = some temp }) (done tt))

  unfoldable pub find_temp_directory : Script TempDirectory
  find_temp_directory = do
    root ← rendezvous_root
    let marker_path = host.join root.path (rendezvous_name host)
    catch (read_rendezvous host root marker_path)
        (λ cause. if is_missing cause then publish_rendezvous root marker_path else throw cause)

  unfoldable pub remembered_or_found : Option TempDirectory → Script Text
  remembered_or_found (some temp) = validate_temp_directory
  remembered_or_found none = find_temp_directory >>= remember >> validate_temp_directory

  -- `privateTempDirectory()`.
  unfoldable pub private_temp_directory : Script Text
  private_temp_directory = read_state (λ s. remembered_or_found s.temp_directory)

-- ===== src/Runtime/Tests.antt =====
-- The npm runtime on one host: a Linux machine with a file system that remembers what was published and
-- written.
use keyobject_aws_kms.Prelude.{
  ℕ, ◌+◌, ◌≤◌, ◌<◌, ◌≡◌, refl, Bool, true, false, ◌&&◌, ◌==◌, if◌then◌else◌, Option, none, some,
  List, [], ◌∷◌, ◌++◌, Text, codes, text_eq, arith,
}
use keyobject_aws_kms.Effects.Logic.{Runs}
use keyobject_aws_kms.Effects.Run.{returned, threw, ran_out, run}
use keyobject_aws_kms.Runtime.Host.{
  Bytes, Failure, error, Stat, text, array, other, absent, value, Host, Request, resolve, read_file,
  lstat, open_file, fstat, read_open, write_open, link, mkdtemp, probe, now, Reply, Answer, ok,
  failed, PrivateFile, Session, History,
}
use keyobject_aws_kms.Runtime.File.{publication_timeout}
use keyobject_aws_kms.Runtime.Entry.{module_path, openssl_config_path, is_supported}
use keyobject_aws_kms.Runtime.Entry.Sound.{Sound, Sound-Kept}
use keyobject_aws_kms.Runtime.Entry.Located.{Located}
use keyobject_aws_kms.Runtime.Entry.Configured.{Configured}
use keyobject_aws_kms.Runtime.Entry.Supported.{calm, Reported}
use keyobject_aws_kms.Runtime.Entry.Promises.{
  Duties, Confined, Reachable-Sound, openssl_config_path_lem, module_path_lem, perform-Confined,
  perform_ends, openssl_config_path_stable, is_supported_lem,
}
use keyobject_aws_kms.Runtime.Entry.Exports.{
  initial, Answers, Ending, get_openssl_config_path, perform, Reachable, unchanged, after, Leaves,
}
use keyobject_aws_kms.Runtime.Logic.{latest}

abbrev last_part : Text → Text → Text
last_part part [] = part
last_part part (c ∷ s) = if c == b'/' then last_part [] s else last_part (part ++ c ∷ []) s

abbrev linux : Host
linux = record {
  platform = codes "linux";
  arch = codes "x64";
  glibc = true;
  pid = codes "7";
  time_origin = codes "1";
  getuid = some 5;
  o_nofollow = true;
  o_cloexec = true;
  tmpdir = codes "/tmp";
  url = codes "aws-kms";
  version = codes "1.2.3";
  node_version = codes "24";
  sha256 = λ bytes. codes "h" ++ bytes;
  decode = λ bytes. bytes;
  encode = λ s. s;
  parse = λ s. value (record {
    name = text (codes "@keyobject/aws-kms-linux-x64");
    version = text (codes "1.2.3");
    os = array (some (codes "linux") ∷ []);
    cpu = array (some (codes "x64") ∷ []);
    libc = array (some (codes "glibc") ∷ []);
  });
  stringify = λ m. [];
  display = λ m. [];
  decimal = λ n. codes "5";
  join = λ a b. a ++ codes "/" ++ b;
  dirname = λ p. codes "/p";
  basename = last_part [];
}

abbrev status : Bool → ℕ → ℕ → Stat
status directory mode ino = record {
  is_file = if directory then false else true;
  is_directory = directory;
  is_symbolic_link = false;
  uid = 5;
  mode = mode;
  nlink = 1;
  dev = 1;
  ino = ino;
}

-- What the history says: whether a marker was published, and what was written to a descriptor.
abbrev published_by : Request → Bool → Bool
published_by (link path target) before = true
published_by _ before = before

abbrev published : History → Bool
published [] = false
published (e ∷ h) = published_by e.request (published h)

abbrev written_by : ℕ → Request → Bytes → Bytes
written_by fd (write_open d bytes) before = if d == fd then bytes else before
written_by fd _ before = before

abbrev written : ℕ → History → Bytes
written fd [] = []
written fd (e ∷ h) = written_by fd e.request (written fd h)

abbrev missing : Failure
missing = error (some (codes "ENOENT")) []

abbrev ends_with : Text → Text → Bool
ends_with [] t = text_eq [] t
ends_with (c ∷ s) t = if text_eq (c ∷ s) t then true else ends_with s t

-- The marker is open as 1 or 3, the config as 2.
abbrev answers : Answers
answers h (resolve specifier) = ok (codes "/p/" ++ specifier)
answers h (read_file path) =
    ok (if ends_with path (codes ".cnf") then codes "module = $ENV::AWSKMS_MODULE" else codes "x")
answers h (lstat path) = ok (status true 448 9)
answers h (open_file path flags none) =
    if ends_with path (codes "awskms.cnf")
    then ok 2
    else if published h
    then ok 1
    else failed missing
answers h (open_file path flags (some mode)) =
    if ends_with path (codes "awskms.cnf") then ok 2 else ok 3
answers h (fstat fd) = ok (status false 256 fd)
answers h (read_open fd) = ok (written (if fd == 1 then 3 else fd) h)
answers h (mkdtemp prefix) = ok (prefix ++ codes "abcdef")
answers h now = ok (latest h + 1)
answers h probe = failed (error (some (codes "ERR_OSSL_OSSL_STORE_UNSUPPORTED")) [])
answers h _ = ok tt

abbrev value_of : {A : Type 0} → Ending A → Option A
value_of (returned h s a) = some a
value_of (threw h s e) = none
value_of (ran_out h) = none

openssl_config_path_test :
    value_of (run answers [] initial (openssl_config_path linux 5000000000))
    ≡ some (codes "/tmp/keyobject-aws-kms-5/runtime-7-h7\01-abcdef/awskms.cnf")
unfolding keyobject_aws_kms.Effects.attempt text_eq keyobject_aws_kms.Prelude.starts_with
    keyobject_aws_kms.Runtime.Host.has_code keyobject_aws_kms.Runtime.Host.sys
    keyobject_aws_kms.Runtime.Target.platform_package keyobject_aws_kms.Runtime.Target.target_key
    keyobject_aws_kms.Runtime.Metadata.exact_singleton keyobject_aws_kms.Runtime.Metadata.is_string
    keyobject_aws_kms.Runtime.Metadata.expected_os keyobject_aws_kms.Runtime.Metadata.expected_libc
    keyobject_aws_kms.Runtime.Metadata.libc_matches
    keyobject_aws_kms.Runtime.Metadata.platform_matches keyobject_aws_kms.Runtime.Satellite.files_of
    keyobject_aws_kms.Runtime.Satellite.resolve_satellite_files
    keyobject_aws_kms.Runtime.Satellite.snapshot keyobject_aws_kms.Runtime.Satellite.same_content
    keyobject_aws_kms.Runtime.Satellite.validate_snapshot
    keyobject_aws_kms.Runtime.Satellite.validate_satellite
    keyobject_aws_kms.Runtime.Satellite.check_manifest
    keyobject_aws_kms.Runtime.Satellite.same_directory
    keyobject_aws_kms.Runtime.Satellite.package_paths
    keyobject_aws_kms.Runtime.Satellite.remember_satellite
    keyobject_aws_kms.Runtime.Satellite.new_satellite
    keyobject_aws_kms.Runtime.Satellite.published_satellite
    keyobject_aws_kms.Runtime.Satellite.satellite_of
    keyobject_aws_kms.Runtime.Satellite.resolve_satellite
    keyobject_aws_kms.Runtime.Directory.best_effort keyobject_aws_kms.Runtime.Directory.uid_matches
    keyobject_aws_kms.Runtime.Directory.is_private_directory
    keyobject_aws_kms.Runtime.Directory.assert_private_directory
    keyobject_aws_kms.Runtime.Directory.close_on_exec
    keyobject_aws_kms.Runtime.Directory.no_follow_read
    keyobject_aws_kms.Runtime.Directory.process_identity
    keyobject_aws_kms.Runtime.Directory.directory_prefix
    keyobject_aws_kms.Runtime.Directory.rendezvous_name
    keyobject_aws_kms.Runtime.Directory.is_suffix keyobject_aws_kms.Runtime.Directory.is_marker
    keyobject_aws_kms.Runtime.Directory.is_directory_name
    keyobject_aws_kms.Runtime.Directory.known_directory
    keyobject_aws_kms.Runtime.Directory.directory_of
    keyobject_aws_kms.Runtime.Directory.read_rendezvous
    keyobject_aws_kms.Runtime.Rendezvous.is_missing keyobject_aws_kms.Runtime.Rendezvous.root_at
    keyobject_aws_kms.Runtime.Rendezvous.create_root keyobject_aws_kms.Runtime.Rendezvous.root_of
    keyobject_aws_kms.Runtime.Rendezvous.rendezvous_root
    keyobject_aws_kms.Runtime.Rendezvous.secure_candidate
    keyobject_aws_kms.Runtime.Rendezvous.write_marker
    keyobject_aws_kms.Runtime.Rendezvous.publish_linked
    keyobject_aws_kms.Runtime.Rendezvous.publish_written
    keyobject_aws_kms.Runtime.Rendezvous.publish_opened
    keyobject_aws_kms.Runtime.Rendezvous.publish_secured
    keyobject_aws_kms.Runtime.Rendezvous.publish_candidate
    keyobject_aws_kms.Runtime.Rendezvous.publish_rendezvous
    keyobject_aws_kms.Runtime.Rendezvous.same_marker
    keyobject_aws_kms.Runtime.Rendezvous.validate_known
    keyobject_aws_kms.Runtime.Rendezvous.validate_remembered
    keyobject_aws_kms.Runtime.Rendezvous.validate_temp_directory
    keyobject_aws_kms.Runtime.Rendezvous.find_temp_directory
    keyobject_aws_kms.Runtime.Rendezvous.remembered_or_found
    keyobject_aws_kms.Runtime.Rendezvous.private_temp_directory
    keyobject_aws_kms.Runtime.File.is_recorded keyobject_aws_kms.Runtime.File.accept_opened
    keyobject_aws_kms.Runtime.File.validate_private_file keyobject_aws_kms.Runtime.File.file_of
    keyobject_aws_kms.Runtime.File.private_file_snapshot keyobject_aws_kms.Runtime.File.fill
    keyobject_aws_kms.Runtime.File.write_created keyobject_aws_kms.Runtime.File.create_new
    keyobject_aws_kms.Runtime.File.create_loop keyobject_aws_kms.Runtime.File.create_at
    keyobject_aws_kms.Runtime.File.write_private_file keyobject_aws_kms.Runtime.Config.is_control
    keyobject_aws_kms.Runtime.Config.escape keyobject_aws_kms.Runtime.Config.quote_config_value
    keyobject_aws_kms.Runtime.Config.split_lines keyobject_aws_kms.Runtime.Config.join_lines
    keyobject_aws_kms.Runtime.Config.module_prefix keyobject_aws_kms.Runtime.Config.is_module_line
    keyobject_aws_kms.Runtime.Config.count_module_lines
    keyobject_aws_kms.Runtime.Config.replace_lines keyobject_aws_kms.Runtime.Config.with_module
    keyobject_aws_kms.Runtime.Config.render_config keyobject_aws_kms.Runtime.Entry.inside_archive
    keyobject_aws_kms.Runtime.Entry.module_of keyobject_aws_kms.Runtime.Entry.resolve_module
    keyobject_aws_kms.Runtime.Entry.module_or_new keyobject_aws_kms.Runtime.Entry.validate_copy
    keyobject_aws_kms.Runtime.Entry.module_path keyobject_aws_kms.Runtime.Entry.rendered_config
    keyobject_aws_kms.Runtime.Entry.config_file_of
    keyobject_aws_kms.Runtime.Entry.openssl_config_path
openssl_config_path_test = refl

abbrev rounds : ℕ
rounds = 5000000000

enough : publication_timeout ≤ rounds
enough = omega arith

abbrev session_of : {A : Type 0} → Ending A → Session
session_of (returned h s a) = s
session_of (threw h s e) = s
session_of (ran_out h) = initial

abbrev configured : Session
configured = session_of (run answers [] initial (perform linux rounds get_openssl_config_path))

configured_file : (file : PrivateFile) × (configured.cached_config ≡ some file)
unfolding keyobject_aws_kms.Effects.attempt text_eq keyobject_aws_kms.Prelude.starts_with
    keyobject_aws_kms.Runtime.Host.has_code keyobject_aws_kms.Runtime.Host.sys
    keyobject_aws_kms.Runtime.Target.platform_package keyobject_aws_kms.Runtime.Target.target_key
    keyobject_aws_kms.Runtime.Metadata.exact_singleton keyobject_aws_kms.Runtime.Metadata.is_string
    keyobject_aws_kms.Runtime.Metadata.expected_os keyobject_aws_kms.Runtime.Metadata.expected_libc
    keyobject_aws_kms.Runtime.Metadata.libc_matches
    keyobject_aws_kms.Runtime.Metadata.platform_matches keyobject_aws_kms.Runtime.Satellite.files_of
    keyobject_aws_kms.Runtime.Satellite.resolve_satellite_files
    keyobject_aws_kms.Runtime.Satellite.snapshot keyobject_aws_kms.Runtime.Satellite.same_content
    keyobject_aws_kms.Runtime.Satellite.validate_snapshot
    keyobject_aws_kms.Runtime.Satellite.validate_satellite
    keyobject_aws_kms.Runtime.Satellite.check_manifest
    keyobject_aws_kms.Runtime.Satellite.same_directory
    keyobject_aws_kms.Runtime.Satellite.package_paths
    keyobject_aws_kms.Runtime.Satellite.remember_satellite
    keyobject_aws_kms.Runtime.Satellite.new_satellite
    keyobject_aws_kms.Runtime.Satellite.published_satellite
    keyobject_aws_kms.Runtime.Satellite.satellite_of
    keyobject_aws_kms.Runtime.Satellite.resolve_satellite
    keyobject_aws_kms.Runtime.Directory.best_effort keyobject_aws_kms.Runtime.Directory.uid_matches
    keyobject_aws_kms.Runtime.Directory.is_private_directory
    keyobject_aws_kms.Runtime.Directory.assert_private_directory
    keyobject_aws_kms.Runtime.Directory.close_on_exec
    keyobject_aws_kms.Runtime.Directory.no_follow_read
    keyobject_aws_kms.Runtime.Directory.process_identity
    keyobject_aws_kms.Runtime.Directory.directory_prefix
    keyobject_aws_kms.Runtime.Directory.rendezvous_name
    keyobject_aws_kms.Runtime.Directory.is_suffix keyobject_aws_kms.Runtime.Directory.is_marker
    keyobject_aws_kms.Runtime.Directory.is_directory_name
    keyobject_aws_kms.Runtime.Directory.known_directory
    keyobject_aws_kms.Runtime.Directory.directory_of
    keyobject_aws_kms.Runtime.Directory.read_rendezvous
    keyobject_aws_kms.Runtime.Rendezvous.is_missing keyobject_aws_kms.Runtime.Rendezvous.root_at
    keyobject_aws_kms.Runtime.Rendezvous.create_root keyobject_aws_kms.Runtime.Rendezvous.root_of
    keyobject_aws_kms.Runtime.Rendezvous.rendezvous_root
    keyobject_aws_kms.Runtime.Rendezvous.secure_candidate
    keyobject_aws_kms.Runtime.Rendezvous.write_marker
    keyobject_aws_kms.Runtime.Rendezvous.publish_linked
    keyobject_aws_kms.Runtime.Rendezvous.publish_written
    keyobject_aws_kms.Runtime.Rendezvous.publish_opened
    keyobject_aws_kms.Runtime.Rendezvous.publish_secured
    keyobject_aws_kms.Runtime.Rendezvous.publish_candidate
    keyobject_aws_kms.Runtime.Rendezvous.publish_rendezvous
    keyobject_aws_kms.Runtime.Rendezvous.same_marker
    keyobject_aws_kms.Runtime.Rendezvous.validate_known
    keyobject_aws_kms.Runtime.Rendezvous.validate_remembered
    keyobject_aws_kms.Runtime.Rendezvous.validate_temp_directory
    keyobject_aws_kms.Runtime.Rendezvous.find_temp_directory
    keyobject_aws_kms.Runtime.Rendezvous.remembered_or_found
    keyobject_aws_kms.Runtime.Rendezvous.private_temp_directory
    keyobject_aws_kms.Runtime.File.is_recorded keyobject_aws_kms.Runtime.File.accept_opened
    keyobject_aws_kms.Runtime.File.validate_private_file keyobject_aws_kms.Runtime.File.file_of
    keyobject_aws_kms.Runtime.File.private_file_snapshot keyobject_aws_kms.Runtime.File.fill
    keyobject_aws_kms.Runtime.File.write_created keyobject_aws_kms.Runtime.File.create_new
    keyobject_aws_kms.Runtime.File.create_loop keyobject_aws_kms.Runtime.File.create_at
    keyobject_aws_kms.Runtime.File.write_private_file keyobject_aws_kms.Runtime.Config.is_control
    keyobject_aws_kms.Runtime.Config.escape keyobject_aws_kms.Runtime.Config.quote_config_value
    keyobject_aws_kms.Runtime.Config.split_lines keyobject_aws_kms.Runtime.Config.join_lines
    keyobject_aws_kms.Runtime.Config.module_prefix keyobject_aws_kms.Runtime.Config.is_module_line
    keyobject_aws_kms.Runtime.Config.count_module_lines
    keyobject_aws_kms.Runtime.Config.replace_lines keyobject_aws_kms.Runtime.Config.with_module
    keyobject_aws_kms.Runtime.Config.render_config keyobject_aws_kms.Runtime.Entry.inside_archive
    keyobject_aws_kms.Runtime.Entry.module_of keyobject_aws_kms.Runtime.Entry.resolve_module
    keyobject_aws_kms.Runtime.Entry.module_or_new keyobject_aws_kms.Runtime.Entry.validate_copy
    keyobject_aws_kms.Runtime.Entry.module_path keyobject_aws_kms.Runtime.Entry.rendered_config
    keyobject_aws_kms.Runtime.Entry.config_file_of
    keyobject_aws_kms.Runtime.Entry.openssl_config_path
    keyobject_aws_kms.Runtime.Entry.Exports.perform
configured_file = (_, refl)

configured-Reachable : Reachable linux rounds initial configured
unfolding keyobject_aws_kms.Effects.attempt text_eq keyobject_aws_kms.Prelude.starts_with
    keyobject_aws_kms.Runtime.Host.has_code keyobject_aws_kms.Runtime.Host.sys
    keyobject_aws_kms.Runtime.Target.platform_package keyobject_aws_kms.Runtime.Target.target_key
    keyobject_aws_kms.Runtime.Metadata.exact_singleton keyobject_aws_kms.Runtime.Metadata.is_string
    keyobject_aws_kms.Runtime.Metadata.expected_os keyobject_aws_kms.Runtime.Metadata.expected_libc
    keyobject_aws_kms.Runtime.Metadata.libc_matches
    keyobject_aws_kms.Runtime.Metadata.platform_matches keyobject_aws_kms.Runtime.Satellite.files_of
    keyobject_aws_kms.Runtime.Satellite.resolve_satellite_files
    keyobject_aws_kms.Runtime.Satellite.snapshot keyobject_aws_kms.Runtime.Satellite.same_content
    keyobject_aws_kms.Runtime.Satellite.validate_snapshot
    keyobject_aws_kms.Runtime.Satellite.validate_satellite
    keyobject_aws_kms.Runtime.Satellite.check_manifest
    keyobject_aws_kms.Runtime.Satellite.same_directory
    keyobject_aws_kms.Runtime.Satellite.package_paths
    keyobject_aws_kms.Runtime.Satellite.remember_satellite
    keyobject_aws_kms.Runtime.Satellite.new_satellite
    keyobject_aws_kms.Runtime.Satellite.published_satellite
    keyobject_aws_kms.Runtime.Satellite.satellite_of
    keyobject_aws_kms.Runtime.Satellite.resolve_satellite
    keyobject_aws_kms.Runtime.Directory.best_effort keyobject_aws_kms.Runtime.Directory.uid_matches
    keyobject_aws_kms.Runtime.Directory.is_private_directory
    keyobject_aws_kms.Runtime.Directory.assert_private_directory
    keyobject_aws_kms.Runtime.Directory.close_on_exec
    keyobject_aws_kms.Runtime.Directory.no_follow_read
    keyobject_aws_kms.Runtime.Directory.process_identity
    keyobject_aws_kms.Runtime.Directory.directory_prefix
    keyobject_aws_kms.Runtime.Directory.rendezvous_name
    keyobject_aws_kms.Runtime.Directory.is_suffix keyobject_aws_kms.Runtime.Directory.is_marker
    keyobject_aws_kms.Runtime.Directory.is_directory_name
    keyobject_aws_kms.Runtime.Directory.known_directory
    keyobject_aws_kms.Runtime.Directory.directory_of
    keyobject_aws_kms.Runtime.Directory.read_rendezvous
    keyobject_aws_kms.Runtime.Rendezvous.is_missing keyobject_aws_kms.Runtime.Rendezvous.root_at
    keyobject_aws_kms.Runtime.Rendezvous.create_root keyobject_aws_kms.Runtime.Rendezvous.root_of
    keyobject_aws_kms.Runtime.Rendezvous.rendezvous_root
    keyobject_aws_kms.Runtime.Rendezvous.secure_candidate
    keyobject_aws_kms.Runtime.Rendezvous.write_marker
    keyobject_aws_kms.Runtime.Rendezvous.publish_linked
    keyobject_aws_kms.Runtime.Rendezvous.publish_written
    keyobject_aws_kms.Runtime.Rendezvous.publish_opened
    keyobject_aws_kms.Runtime.Rendezvous.publish_secured
    keyobject_aws_kms.Runtime.Rendezvous.publish_candidate
    keyobject_aws_kms.Runtime.Rendezvous.publish_rendezvous
    keyobject_aws_kms.Runtime.Rendezvous.same_marker
    keyobject_aws_kms.Runtime.Rendezvous.validate_known
    keyobject_aws_kms.Runtime.Rendezvous.validate_remembered
    keyobject_aws_kms.Runtime.Rendezvous.validate_temp_directory
    keyobject_aws_kms.Runtime.Rendezvous.find_temp_directory
    keyobject_aws_kms.Runtime.Rendezvous.remembered_or_found
    keyobject_aws_kms.Runtime.Rendezvous.private_temp_directory
    keyobject_aws_kms.Runtime.File.is_recorded keyobject_aws_kms.Runtime.File.accept_opened
    keyobject_aws_kms.Runtime.File.validate_private_file keyobject_aws_kms.Runtime.File.file_of
    keyobject_aws_kms.Runtime.File.private_file_snapshot keyobject_aws_kms.Runtime.File.fill
    keyobject_aws_kms.Runtime.File.write_created keyobject_aws_kms.Runtime.File.create_new
    keyobject_aws_kms.Runtime.File.create_loop keyobject_aws_kms.Runtime.File.create_at
    keyobject_aws_kms.Runtime.File.write_private_file keyobject_aws_kms.Runtime.Config.is_control
    keyobject_aws_kms.Runtime.Config.escape keyobject_aws_kms.Runtime.Config.quote_config_value
    keyobject_aws_kms.Runtime.Config.split_lines keyobject_aws_kms.Runtime.Config.join_lines
    keyobject_aws_kms.Runtime.Config.module_prefix keyobject_aws_kms.Runtime.Config.is_module_line
    keyobject_aws_kms.Runtime.Config.count_module_lines
    keyobject_aws_kms.Runtime.Config.replace_lines keyobject_aws_kms.Runtime.Config.with_module
    keyobject_aws_kms.Runtime.Config.render_config keyobject_aws_kms.Runtime.Entry.inside_archive
    keyobject_aws_kms.Runtime.Entry.module_of keyobject_aws_kms.Runtime.Entry.resolve_module
    keyobject_aws_kms.Runtime.Entry.module_or_new keyobject_aws_kms.Runtime.Entry.validate_copy
    keyobject_aws_kms.Runtime.Entry.module_path keyobject_aws_kms.Runtime.Entry.rendered_config
    keyobject_aws_kms.Runtime.Entry.config_file_of
    keyobject_aws_kms.Runtime.Entry.openssl_config_path
    keyobject_aws_kms.Runtime.Entry.Exports.perform
configured-Reachable = after get_openssl_config_path answers unchanged refl

clock : (h : History) (time : ℕ) → answers h now ≡ ok time → latest h < time
clock h time e = ground (arith, e)

Reachable-Sound_example : Sound linux configured
Reachable-Sound_example = Reachable-Sound linux rounds enough configured configured-Reachable

openssl_config_path_lem_example :
    Runs
      (Duties linux rounds enough)
      (Configured linux rounds enough (Sound linux) (Sound-Kept linux))
      []
      initial
      (openssl_config_path linux rounds)
openssl_config_path_lem_example = openssl_config_path_lem linux rounds enough initial unchanged

module_path_lem_example :
    Runs
      (Duties linux rounds enough)
      (Located linux rounds enough (Sound linux) (Sound-Kept linux))
      []
      initial
      (module_path linux rounds)
module_path_lem_example = module_path_lem linux rounds enough initial unchanged

perform-Confined_example :
    Runs
      (Confined linux rounds enough)
      (λ h t u. Unit)
      []
      configured
      (perform linux rounds get_openssl_config_path)
perform-Confined_example =
    perform-Confined linux rounds enough get_openssl_config_path configured configured-Reachable

perform_ends_example :
    (t : Session) × Leaves (run answers [] initial (perform linux rounds get_openssl_config_path)) t
perform_ends_example =
    perform_ends linux rounds enough answers clock get_openssl_config_path initial unchanged

openssl_config_path_stable_example :
    (configured.cached_config ≡ some (configured_file.0))
    × Runs
        (record (Confined linux rounds enough) {
          thrown = λ h u e. u.cached_config ≡ some (configured_file.0);
        })
        (λ h u path.
          (u.cached_config ≡ some (configured_file.0)) × (path ≡ (configured_file.0).path))
        []
        configured
        (openssl_config_path linux rounds)
openssl_config_path_stable_example =
    openssl_config_path_stable linux rounds enough configured configured (configured_file.0)
      configured-Reachable (configured_file.1) unchanged

is_supported_lem_example :
    Runs
      (calm linux rounds enough (Sound linux) (Sound-Kept linux))
      (Reported linux rounds enough (Sound linux) (Sound-Kept linux))
      []
      initial
      (is_supported linux rounds)
is_supported_lem_example = is_supported_lem linux rounds enough initial unchanged

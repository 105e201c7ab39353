-- ===== src/Runtime/Satellite.antt =====
-- The platform package (npm/core/index.js from resolveSatelliteFiles to resolveSatellite): its files
-- and the checks before it is used.
pub mod Accepted
pub mod Resolved
use keyobject_aws_kms.Prelude.{
  Bool, not, ◌&&◌, ◌==◌, if◌then◌else◌, Option, none, some, ◌++◌, length, Text, codes, text_eq,
}
use keyobject_aws_kms.Effects.{done, throw, read_state, assign, ◌>>=◌, ◌>>◌, catch}
use keyobject_aws_kms.Runtime.Host.{
  Bytes, Failure, error, awskms_error, awskms_error_from, Parsed, syntax_error, null_value, value,
  Host, resolve, read_file, Snapshot, Satellite, Script, sys,
}
use keyobject_aws_kms.Runtime.Target.{
  platform_package, target_key, library_name, not_published, module_not_found,
}
use keyobject_aws_kms.Runtime.Metadata.{
  is_string, platform_matches, unreadable_manifest, wrong_name, version_mismatch, wrong_metadata,
  different_locations, unreadable_files, is_own, null_message,
}

abbrev pub Paths : Type 0
Paths = Text × Text × Text

module _ (host : Host) where
  abbrev require_resolve : Text → Script Text
  require_resolve specifier = sys (resolve specifier)

  unfoldable pub files_of : Option Text → Script Paths
  files_of none = throw (not_published host)
  files_of (some pkg) = do
    manifest ← require_resolve (pkg ++ codes "/package.json")
    library ← require_resolve (pkg ++ library_name host)
    config ← require_resolve (pkg ++ codes "/awskms.cnf")
    done (manifest, library, config)

  -- The manifest, the module and the config of `resolveSatelliteFiles()`.
  unfoldable pub resolve_satellite_files : Script Paths
  resolve_satellite_files = files_of (platform_package (target_key host))

  abbrev read_file_sync : Text → Script Bytes
  read_file_sync path = sys (read_file path)

  -- `snapshot(path)`.
  unfoldable pub snapshot : Text → Script Snapshot
  snapshot path = do
    bytes ← read_file_sync path
    done (record { path = path; bytes = bytes; digest = host.sha256 bytes })

  unfoldable pub same_content : Snapshot → Bytes → Bool
  same_content file actual =
      length actual == length file.bytes && text_eq (host.sha256 actual) file.digest

  abbrev package_integrity : Text
  package_integrity = codes "ERR_AWSKMS_PACKAGE_INTEGRITY"

  unfoldable pub disappeared : Text → Text → Failure → Failure
  disappeared label path cause =
      awskms_error_from package_integrity
        (label ++ codes " disappeared after it was resolved: " ++ path) cause

  unfoldable pub changed : Text → Text → Failure
  changed label path =
      awskms_error package_integrity (label ++ codes " changed after it was resolved: " ++ path)

  -- `validateSnapshot(file, label)`.
  unfoldable pub validate_snapshot : Snapshot → Text → Script (Unit {0})
  validate_snapshot file label = do
    actual ← catch (read_file_sync file.path) (λ cause. throw (disappeared label file.path cause))
    if same_content file actual then done tt else throw (changed label file.path)

  unfoldable pub validate_satellite : Satellite → Script (Unit {0})
  validate_satellite satellite = do
    validate_snapshot satellite.manifest_file (codes "platform package manifest")
    validate_snapshot satellite.module_file (codes "provider module")
    validate_snapshot satellite.config_file (codes "OpenSSL config template")

  -- The checks of the parsed manifest.
  unfoldable pub check_manifest : Text → Parsed → Script (Unit {0})
  check_manifest expected_name (syntax_error cause) =
      throw (unreadable_manifest host expected_name cause)
  check_manifest expected_name null_value = throw (error none null_message)
  check_manifest expected_name (value manifest) =
      if not (is_string host manifest.name expected_name)
      then throw (wrong_name host expected_name manifest.name)
      else if not (is_string host manifest.version host.version)
      then throw (version_mismatch host expected_name manifest.version)
      else if not (platform_matches host manifest)
      then throw (wrong_metadata host expected_name)
      else done tt

  unfoldable pub same_directory : Paths → Bool
  same_directory (manifest, library, config) =
      text_eq (host.dirname manifest) (host.dirname library)
      && text_eq (host.dirname manifest) (host.dirname config)

  unfoldable pub package_paths : Text → Script Paths
  package_paths expected_name = catch resolve_satellite_files (λ cause.
      if is_own host cause then throw cause else throw (module_not_found host expected_name cause))

  -- Reads the other two files and remembers all three.
  unfoldable pub remember_satellite : Text → Snapshot → Paths → Script Satellite
  remember_satellite expected_name manifest_file (manifest, library, config) = do
    module_file ←
        catch (snapshot library) (λ cause. throw (unreadable_files host expected_name cause))
    config_file ←
        catch (snapshot config) (λ cause. throw (unreadable_files host expected_name cause))
    let satellite : Satellite = record {
      name = expected_name;
      manifest_file = manifest_file;
      module_file = module_file;
      config_file = config_file;
    }
    read_state (λ s. assign (record s { cached_satellite = some satellite }) (done satellite))

  unfoldable pub new_satellite : Text → Script Satellite
  new_satellite expected_name = do
    paths ← package_paths expected_name
    manifest_file ←
        catch (snapshot (paths.0)) (λ cause. throw (unreadable_manifest host expected_name cause))
    check_manifest expected_name (host.parse (host.decode manifest_file.bytes))
    if same_directory paths
        then remember_satellite expected_name manifest_file paths
        else throw (different_locations host expected_name)

  unfoldable pub published_satellite : Option Text → Script Satellite
  published_satellite none = throw (not_published host)
  published_satellite (some expected_name) = new_satellite expected_name

  unfoldable pub satellite_of : Option Satellite → Script Satellite
  satellite_of (some satellite) = validate_satellite satellite >> done satellite
  satellite_of none = published_satellite (platform_package (target_key host))

  -- `resolveSatellite()`.
  unfoldable pub resolve_satellite : Script Satellite
  resolve_satellite = read_state (λ s. satellite_of s.cached_satellite)

-- ===== src/Runtime/Metadata.antt =====
-- The metadata of the platform package (the checks of resolveSatellite in npm/core/index.js), with
-- its errors.
use keyobject_aws_kms.Prelude.{
  Bool, true, false, ◌&&◌, if◌then◌else◌, Option, none, some, [], ◌∷◌, ◌++◌, Text, codes, text_eq,
  starts_with,
}
use keyobject_aws_kms.Runtime.Host.{
  Failure, code_of, is_text, awskms_error, awskms_error_from, invalid_platform_package, Member,
  absent, null, text, array, Manifest, Host,
}
use keyobject_aws_kms.Runtime.Target.{target_key}

module _ (host : Host) where
  -- `exactSingleton(value, expected)`.
  unfoldable pub exact_singleton : Member → Text → Bool
  exact_singleton (array (x ∷ [])) expected = is_text x expected
  exact_singleton _ expected = false

  abbrev is_absent : Member → Bool
  is_absent absent = true
  is_absent _ = false

  unfoldable pub is_string : Member → Text → Bool
  is_string (text s) t = text_eq s t
  is_string _ t = false

  unfoldable pub expected_os : Text
  expected_os =
      if starts_with (target_key host) (codes "darwin-") then codes "darwin" else codes "linux"

  unfoldable pub expected_libc : Option Text
  expected_libc =
      if starts_with (target_key host) (codes "linuxmusl-")
      then some (codes "musl")
      else if starts_with (target_key host) (codes "linux-")
      then some (codes "glibc")
      else none

  unfoldable pub libc_matches : Option Text → Member → Bool
  libc_matches none libc = is_absent libc
  libc_matches (some expected) libc = exact_singleton libc expected

  -- The metadata is that of the target.
  unfoldable pub platform_matches : Manifest → Bool
  platform_matches manifest =
      exact_singleton manifest.os expected_os
      && exact_singleton manifest.cpu host.arch
      && libc_matches expected_libc manifest.libc

  abbrev or_unversioned : Member → Text
  or_unversioned absent = codes "unversioned"
  or_unversioned null = codes "unversioned"
  or_unversioned version = host.display version

  unfoldable pub unreadable_manifest : Text → Failure → Failure
  unreadable_manifest expected_name cause =
      awskms_error_from invalid_platform_package
        (expected_name ++ codes " has an unreadable or invalid package.json") cause

  unfoldable pub wrong_name : Text → Member → Failure
  wrong_name expected_name name = awskms_error invalid_platform_package (
      codes "Resolved "
      ++ expected_name
      ++ codes ", but its package.json identifies it as "
      ++ host.stringify name
      ++ codes ".")

  unfoldable pub version_mismatch : Text → Member → Failure
  version_mismatch expected_name version = awskms_error (codes "ERR_AWSKMS_VERSION_MISMATCH") (
      codes "@keyobject/aws-kms is "
      ++ host.version
      ++ codes ", but "
      ++ expected_name
      ++ codes " is "
      ++ or_unversioned version
      ++ codes
          ". Reinstall both packages together without overriding optional dependency versions.")

  unfoldable pub wrong_metadata : Text → Failure
  wrong_metadata expected_name = awskms_error invalid_platform_package (
      expected_name
      ++ codes " has platform metadata that does not match "
      ++ target_key host
      ++ codes ".")

  unfoldable pub different_locations : Text → Failure
  different_locations expected_name = awskms_error invalid_platform_package (
      expected_name ++ codes " resolved its manifest, module, and config from different locations.")

  unfoldable pub unreadable_files : Text → Failure → Failure
  unreadable_files expected_name cause =
      awskms_error_from invalid_platform_package
        (expected_name ++ codes " has an unreadable native module or OpenSSL config template.")
        cause

  -- `cause?.code?.startsWith('ERR_AWSKMS_')`.
  unfoldable pub is_own : Failure → Bool
  is_own cause = elim (code_of cause) [
    | some code ↦ starts_with code (codes "ERR_AWSKMS_")
    | none ↦ false
  ]

-- The message of the `TypeError` of `null.name`.
abbrev pub null_message : Text
null_message = codes "Cannot read properties of null (reading 'name')"

-- ===== src/Runtime/Target.antt =====
-- The target of the process, the package for it, and the errors when there is none
-- (PLATFORM_PACKAGES, targetKey and moduleNotFound of npm/core/index.js).
use keyobject_aws_kms.Prelude.{
  ℕ, Bool, ◌||◌, ◌+◌, if◌then◌else◌, Option, none, some, List, [], ◌∷◌, ◌++◌, Text, codes, text_eq,
  starts_with,
}
use keyobject_aws_kms.Runtime.Host.{
  Failure, code_of, message_of, awskms_error, awskms_error_from, Host,
}

-- `PLATFORM_PACKAGES[target]`.
abbrev package_of : List Text → Text → Option Text
package_of [] target = none
package_of (t ∷ ts) target =
    let rest = package_of ts target in
    if text_eq target t then some (codes "@keyobject/aws-kms-" ++ t) else rest

abbrev targets : List Text
targets =
    codes "darwin-arm64"
    ∷ codes "linux-arm64"
    ∷ codes "linux-x64"
    ∷ codes "linuxmusl-arm64"
    ∷ codes "linuxmusl-x64"
    ∷ []

unfoldable pub platform_package : Text → Option Text
platform_package target = package_of targets target

-- `Object.keys(PLATFORM_PACKAGES).join(', ')`.
abbrev joined : List Text → Text
joined [] = []
joined (t ∷ []) = t
joined (t ∷ u ∷ ts) = t ++ codes ", " ++ joined (u ∷ ts)

-- `reportable ?? 'not found'`, of `cause?.code ?? cause?.message`.
abbrev code_or_message : Failure → Text
code_or_message e = elim (code_of e) [ some code ↦ code | none ↦ message_of e ]

-- `url.includes('aws-kms')`.
unfoldable pub includes : Text → Text → Bool
includes [] t = starts_with [] t
includes (c ∷ s) t = let later = includes s t in starts_with (c ∷ s) t || later

abbrev numbered : ℕ → List Text → Text
numbered n [] = []
numbered n (p ∷ []) = codes "  " ++ (48 + n) ∷ codes ". " ++ p
numbered n (p ∷ q ∷ ps) =
    codes "  " ++ (48 + n) ∷ codes ". " ++ p ++ codes "\n\n" ++ numbered (n + 1) (q ∷ ps)

module _ (host : Host) where
  -- `targetKey()`.
  unfoldable pub target_key : Text
  target_key =
      if text_eq host.platform (codes "linux")
      then codes "linux" ++ (if host.glibc then [] else codes "musl") ++ codes "-" ++ host.arch
      else host.platform ++ codes "-" ++ host.arch

  abbrev not_installed : Text → Failure → Text
  not_installed pkg cause =
      pkg
      ++ codes " is not installed ("
      ++ code_or_message cause
      ++ codes
          ").\n     If you used --omit=optional or --no-optional, reinstall with:\n       npm install --include=optional\n     If you installed on a different platform than you are running on:\n       npm install --os="
      ++ host.platform
      ++ codes " --cpu="
      ++ host.arch
      ++ (if text_eq host.platform (codes "linux")
          then codes " --libc="
            ++ (if starts_with target_key (codes "linuxmusl") then codes "musl" else codes "glibc")
          else [])

  abbrev bundled : List Text
  bundled =
      if includes host.url (codes "aws-kms")
      then []
      else codes
          "This package appears to have been bundled. Mark @keyobject/aws-kms and\n     its platform package external so they can resolve native files at runtime."
        ∷ []

  abbrev not_found_message : Text → Text
  not_found_message problem =
      codes "Could not load the aws-kms provider for "
      ++ target_key
      ++ codes ".\n\n"
      ++ numbered 1 (problem ∷ bundled)
      ++ codes "\n"

  -- `moduleNotFound(undefined)` and `moduleNotFound(pkg, cause)`.
  unfoldable pub not_published : Failure
  not_published = awskms_error (codes "ERR_AWSKMS_MODULE_NOT_FOUND") (
      not_found_message
        (codes "This platform is not published. Supported: " ++ joined targets ++ codes "."))

  unfoldable pub module_not_found : Text → Failure → Failure
  module_not_found pkg cause =
      awskms_error_from (codes "ERR_AWSKMS_MODULE_NOT_FOUND")
        (not_found_message (not_installed pkg cause)) cause

  abbrev pub library_name : Text
  library_name =
      if starts_with target_key (codes "darwin-")
      then codes "/aws-kms.dylib"
      else codes "/aws-kms.so"

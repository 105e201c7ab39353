-- ===== src/Lifecycle/Payload.antt =====
-- The payload of a release (scripts/release-lifecycle.mjs from targets to inspectPayload).
pub mod Evidence
pub mod Inspected
use keyobject_aws_kms.Prelude.{
  ℕ, ◌==◌, Bool, true, false, not, ◌&&◌, ◌||◌, Option, none, some, List, [], ◌∷◌, ◌++◌, map, all,
  any, if◌then◌else◌, Text, codes, text_eq, starts_with, is_empty, ltb,
}
use keyobject_aws_kms.Effects.{Io, done, throw, attempt, ◌>>=◌, ◌>>◌, catch}
use keyobject_aws_kms.Release.Version.{sorted, texts_eq, lookup, keys_of}
use keyobject_aws_kms.Lifecycle.Machine.{
  Bytes, Failure, Completed, Manifest, Bundle, Statement, Tools, Request, run, list_directory,
  read_file, copy_file, exists, sys, Script, fail, parsed, command,
}

abbrev pub targets : List Text
targets =
    codes "darwin-arm64"
    ∷ codes "linux-arm64"
    ∷ codes "linux-x64"
    ∷ codes "linuxmusl-arm64"
    ∷ codes "linuxmusl-x64"
    ∷ []

abbrev pub core_name : Text
core_name = codes "@keyobject/aws-kms"

abbrev pub satellite_names : List Text
satellite_names = map (λ target. codes "@keyobject/aws-kms-" ++ target) targets

unfoldable pub package_names : List Text
package_names = core_name ∷ satellite_names

-- `packageName.slice(1).replace('/', '-')`.
abbrev replace_slash : Text → Text
replace_slash [] = []
replace_slash (c ∷ s) = let rest = replace_slash s in if c == b'/' then b'-' ∷ s else c ∷ rest

abbrev behind_first : Text → Text
behind_first [] = []
behind_first (c ∷ s) = s

-- `tarballName(packageName, version)`.
unfoldable pub tarball_name : Text → Text → Text
tarball_name name version =
    replace_slash (behind_first name) ++ codes "-" ++ version ++ codes ".tgz"

abbrev pub attestation_bundle_name : Text
attestation_bundle_name = codes "release-payload.sigstore.json"

abbrev pub checksums_name : Text
checksums_name = codes "SHA256SUMS"

-- `releaseSubjects(version)`.
unfoldable pub release_subjects : Text → List Text
release_subjects version = sorted (
    map (λ target. codes "awskms-" ++ version ++ codes "-" ++ target ++ codes ".tar.gz") targets
    ++ map (λ name. tarball_name name version) package_names)

-- `expectedPayload(version, { attested })`.
unfoldable pub expected_payload : Text → Bool → List Text
expected_payload version attested = sorted (
    release_subjects version
    ++ checksums_name ∷ (if attested then attestation_bundle_name ∷ [] else []))

abbrev pub opt_is : Option Text → Text → Bool
opt_is none t = false
opt_is (some s) t = text_eq s t

abbrev is_bundle_type : Option Text → Bool
is_bundle_type none = false
is_bundle_type (some s) = starts_with s (codes "application/vnd.dev.sigstore.bundle.")

abbrev some_signature : Option ℕ → Bool
some_signature none = false
some_signature (some n) = ltb 0 n

abbrev is_some : Option Text → Bool
is_some none = false
is_some (some t) = true

unfoldable pub is_sigstore : Bundle → Bool
is_sigstore bundle =
    is_bundle_type bundle.media_type
    && opt_is bundle.payload_type (codes "application/vnd.in-toto+json")
    && is_some bundle.payload
    && some_signature bundle.signatures
    && bundle.has_material

abbrev pub Subject : Type 0
Subject = Text × Text

-- The subjects, if all have a name and a digest.
abbrev complete : List (Option Text × Option Text) → Option (List Subject)
complete [] = some []
complete ((none, digest) ∷ subjects) = none
complete ((some name, none) ∷ subjects) = none
complete ((some name, some digest) ∷ subjects) = elim (complete subjects) [
  | none ↦ none
  | some rest ↦ some ((name, digest) ∷ rest)
]

abbrev complete_subjects : Option (List (Option Text × Option Text)) → Option (List Subject)
complete_subjects none = none
complete_subjects (some subjects) = complete subjects

unfoldable pub subjects_eq : List Subject → List Subject → Bool
subjects_eq [] [] = true
subjects_eq [] (y ∷ ys) = false
subjects_eq (x ∷ xs) [] = false
subjects_eq (x ∷ xs) (y ∷ ys) = text_eq (x.0) (y.0) && text_eq (x.1) (y.1) && subjects_eq xs ys

module _ (tools : Tools) where
  abbrev insert_by_name : Subject → List Subject → List Subject
  insert_by_name x [] = x ∷ []
  insert_by_name x (y ∷ ys) =
      let rest = insert_by_name x ys in
      if tools.locale_leb (x.0) (y.0) then x ∷ y ∷ ys else y ∷ rest

  -- `.sort((left, right) => left.name.localeCompare(right.name))`.
  unfoldable pub sorted_by_name : List Subject → List Subject
  sorted_by_name [] = []
  sorted_by_name (x ∷ xs) = insert_by_name x (sorted_by_name xs)

  -- `sha256(path)`.
  unfoldable pub digest : Text → Script Text
  digest path = do bytes ← sys (read_file path); done (tools.sha256 bytes)

  -- The subjects with their digests, in their order.
  unfoldable pub digests : Text → List Text → Script (List Subject)
  digests directory [] = done []
  digests directory (name ∷ names) = do
    value ← digest (tools.join directory name)
    rest ← digests directory names
    done ((name, value) ∷ rest)

  abbrev pub text_or_empty : Option Text → Text
  text_or_empty none = []
  text_or_empty (some t) = t

  abbrev unreadable : Failure → Script Statement
  unreadable e =
      if starts_with e (codes "attestation bundle")
      then throw e
      else fail (codes "attestation bundle is unreadable: " ++ e)

  unfoldable pub statement_of : Text → Script Statement
  statement_of path = do
    bytes ← sys (read_file path)
    bundle ← parsed (tools.parse_bundle (tools.decode bytes))
    if is_sigstore bundle
        then parsed (tools.parse_statement (tools.base64_decode (text_or_empty bundle.payload)))
          >>= in_toto
        else fail (codes "attestation bundle is not a Sigstore in-toto DSSE bundle")
    where
      in_toto : Statement → Script Statement
      in_toto statement =
          if opt_is statement.type_name (codes "https://in-toto.io/Statement/v1")
          then done statement
          else fail (codes "attestation bundle does not contain an in-toto v1 statement")

  unfoldable pub covers : Statement → List Subject → Bool
  covers statement expected = elim (complete_subjects statement.subjects) [
    | none ↦ false
    | some subjects ↦ subjects_eq (sorted_by_name subjects) expected
  ]

  -- `inspectAttestationBundle(path, directory, subjects)`.
  unfoldable pub inspect_attestation_bundle : Text → Text → List Text → Script (Unit {0})
  inspect_attestation_bundle path directory subjects = do
    statement ← catch (statement_of path) unreadable
    expected ← digests directory subjects
    if covers statement expected
        then done tt
        else fail (codes "attestation bundle subjects do not match the eleven release tarballs")

-- A packed npm package.
pub record Packed : Type 0 where
  pub name : Text
  pub path : Text
  pub manifest : Manifest
  pub integrity : Text

-- The checksum file of these subjects.
unfoldable pub checksum_lines : List Subject → Text
checksum_lines [] = []
checksum_lines ((name, value) ∷ subjects) =
    value ++ codes "  " ++ name ++ codes "\n" ++ checksum_lines subjects

abbrev has_version : Text → List (Text × Option Text) → Text → Bool
has_version version dependencies name = opt_is (lookup name dependencies) version

-- The tests on `optionalDependencies` of the core package.
unfoldable pub depends_on_satellites : Text → Manifest → Bool
depends_on_satellites version manifest =
    texts_eq (sorted (keys_of manifest.dependencies)) (sorted satellite_names)
    && all (has_version version manifest.dependencies) (sorted satellite_names)

unfoldable pub core_depends : Text → List Packed → Bool
core_depends version [] = false
core_depends version (p ∷ packages) =
    let later = core_depends version packages in
    if text_eq p.name core_name then depends_on_satellites version p.manifest else later

module _ (tools : Tools) where
  -- `tarManifest(path)`.
  unfoldable pub tar_manifest : Text → Script Manifest
  tar_manifest path = do
    result ← command (codes "tar") (codes "-xOzf" ∷ path ∷ codes "package/package.json" ∷ []) false
    parsed (tools.parse_manifest result.stdout)

  unfoldable pub is_package : Text → Text → Manifest → Bool
  is_package name version manifest = opt_is manifest.name name && opt_is manifest.version version

  -- `sha512Integrity(path)`.
  unfoldable pub integrity_of : Text → Script Text
  integrity_of path = do bytes ← sys (read_file path); done (codes "sha512-" ++ tools.sha512 bytes)

  -- One packed package, checked.
  unfoldable pub inspect_package : Text → Text → Text → Script Packed
  inspect_package directory version name = do
    let path = tools.resolve directory (tarball_name name version)
    manifest ← tar_manifest path
    if is_package name version manifest
        then integrity_of path >>= packed path manifest
        else fail (path ++ codes " does not contain " ++ name)
    where
      packed : Text → Manifest → Text → Script Packed
      packed path manifest integrity =
          done (record { name = name; path = path; manifest = manifest; integrity = integrity })

  unfoldable pub inspect_packages : Text → Text → List Text → Script (List Packed)
  inspect_packages directory version [] = done []
  inspect_packages directory version (name ∷ names) = do
    first ← inspect_package directory version name
    rest ← inspect_packages directory version names
    done (first ∷ rest)

  unfoldable pub check_checksums : Text → List Subject → Script (Unit {0})
  check_checksums directory subjects = do
    bytes ← sys (read_file (tools.join directory checksums_name))
    if text_eq (tools.decode bytes) (checksum_lines subjects)
        then done tt
        else fail (codes "SHA256SUMS does not exactly cover the eleven sorted tarballs")

  unfoldable pub check_attested : Text → Text → Bool → Script (Unit {0})
  check_attested directory version false = done tt
  check_attested directory version true =
      inspect_attestation_bundle tools (tools.join directory attestation_bundle_name) directory
        (release_subjects version)

  -- What follows the comparison of the names.
  unfoldable pub inspect_contents : Text → Text → Bool → Script (List Packed)
  inspect_contents directory version attested = do
    packages ← inspect_packages directory version package_names
    if core_depends version packages
        then done tt
        else fail (codes "the packed core optionalDependencies do not match all five satellites")
    subjects ← digests tools directory (release_subjects version)
    check_checksums directory subjects
    check_attested directory version attested
    done packages

  -- `inspectPayload(directory, version, { attested })`.
  unfoldable pub inspect_payload : Text → Text → Bool → Script (List Packed)
  inspect_payload directory version attested = do
    names ← sys (list_directory directory)
    if texts_eq (sorted names) (expected_payload version attested)
        then inspect_contents directory version attested
        else fail (codes "release payload inventory mismatch")

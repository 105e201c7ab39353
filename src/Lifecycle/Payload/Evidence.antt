-- ===== src/Lifecycle/Payload/Evidence.antt =====
-- What a history shows of a payload.
use keyobject_aws_kms.Prelude.{◌≡◌, refl, Bool, true, false, some, List, [], ◌∷◌, ◌++◌, Text, codes}
use keyobject_aws_kms.Effects.Logic.{Seen, Seen-⊑, ◌⊑◌}
use keyobject_aws_kms.Release.Version.{sorted}
use keyobject_aws_kms.Lifecycle.Machine.{
  Bytes, Statement, Tools, list_directory, read_file, answered, History,
}
use keyobject_aws_kms.Lifecycle.Payload.{
  tarball_name, Subject, Packed, package_names, checksums_name, release_subjects, expected_payload,
  covers, checksum_lines, core_depends,
}

module _ (tools : Tools) where
  -- The file was read, and this is the digest of its contents.
  abbrev pub HasDigest : Text → Text → History → Type 0
  HasDigest path value h =
      (bytes : Bytes) × Seen (answered (read_file path) bytes) h × (value ≡ tools.sha256 bytes)

  -- The subjects are these files of the directory, with their digests.
  abbrev pub AreDigested : Text → List Text → List Subject → History → Type 0
  AreDigested directory [] [] h = Unit
  AreDigested directory [] (x ∷ subjects) h = ⊥
  AreDigested directory (name ∷ names) [] h = ⊥
  AreDigested directory (name ∷ names) ((other, value) ∷ subjects) h =
      (other ≡ name)
      × HasDigest (tools.join directory name) value h
      × AreDigested directory names subjects h

  abbrev pub IsAttested : Text → Text → Bool → History → Type 0
  IsAttested directory version false h = Unit
  IsAttested directory version true h =
      (statement : Statement) × (subjects : List Subject) × AreDigested directory
        (release_subjects version) subjects h
      × (covers tools statement subjects ≡ true)

  abbrev pub HasIntegrity : Text → Text → History → Type 0
  HasIntegrity path integrity h =
      (bytes : Bytes) × Seen (answered (read_file path) bytes) h
      × (integrity ≡ codes "sha512-" ++ tools.sha512 bytes)

  -- The manifest in the tarball is that of the package and of the version, and the integrity is that of
  -- the tarball.
  abbrev pub IsPacked : Text → Text → Text → Packed → History → Type 0
  IsPacked directory version name p h =
      (p.name ≡ name)
      × (p.path ≡ tools.resolve directory (tarball_name name version))
      × (p.manifest.name ≡ some name)
      × (p.manifest.version ≡ some version)
      × HasIntegrity p.path p.integrity h

  abbrev pub ArePacked : Text → Text → List Text → List Packed → History → Type 0
  ArePacked directory version [] [] h = Unit
  ArePacked directory version [] (p ∷ packages) h = ⊥
  ArePacked directory version (name ∷ names) [] h = ⊥
  ArePacked directory version (name ∷ names) (p ∷ packages) h =
      IsPacked directory version name p h × ArePacked directory version names packages h

  -- The directory holds exactly the expected files, each package tarball holds its package, the core package depends on exactly the satellites
  -- of its version, the checksum file covers exactly the tarballs with their digests, and so does the
  -- attestation, if there is one.
  pub record Inspected (directory version : Text) (attested : Bool) (h : History) : Type 0 where
    pub names : List Text
    pub listed : Seen (answered (list_directory directory) names) h
    pub exact : sorted names ≡ expected_payload version attested
    pub packages : List Packed
    pub packed : ArePacked directory version package_names packages h
    pub depends : core_depends version packages ≡ true
    pub subjects : List Subject
    pub digested : AreDigested directory (release_subjects version) subjects h
    pub sums : Bytes
    pub read_sums : Seen (answered (read_file (tools.join directory checksums_name)) sums) h
    pub covered : tools.decode sums ≡ checksum_lines subjects
    pub attestation : IsAttested directory version attested h

  pub HasDigest-⊑ :
      (path value : Text) {h g : History} → h ⊑ g → HasDigest path value h → HasDigest path value g
  HasDigest-⊑ path value p (bytes, seen, e) = (bytes, Seen-⊑ _ p seen, e)

  pub AreDigested-⊑ :
      (directory : Text) (names : List Text) (subjects : List Subject) {h g : History}
      → h ⊑ g
      → AreDigested directory names subjects h
      → AreDigested directory names subjects g
  AreDigested-⊑ directory [] [] p x = tt
  AreDigested-⊑ directory [] (y ∷ subjects) p x = x
  AreDigested-⊑ directory (name ∷ names) [] p x = x
  AreDigested-⊑ directory (name ∷ names) ((other, value) ∷ subjects) p (e, d, rest) =
      (e, HasDigest-⊑ _ value p d, AreDigested-⊑ directory names subjects p rest)

  pub ArePacked-⊑ :
      (directory version : Text) (names : List Text) (packages : List Packed) {h g : History}
      → h ⊑ g
      → ArePacked directory version names packages h
      → ArePacked directory version names packages g
  ArePacked-⊑ directory version [] [] p x = tt
  ArePacked-⊑ directory version [] (q ∷ packages) p x = x
  ArePacked-⊑ directory version (name ∷ names) [] p x = x
  ArePacked-⊑ directory version (name ∷ names) (q ∷ packages) p
        ((n, d, m, v, (bytes, seen, e)), rest) =
      (
        (n, d, m, v, (bytes, Seen-⊑ _ p seen, e)),
        ArePacked-⊑ directory version names packages p rest,
      )

  pub IsAttested-⊑ :
      (directory version : Text) (attested : Bool) {h g : History}
      → h ⊑ g
      → IsAttested directory version attested h
      → IsAttested directory version attested g
  IsAttested-⊑ directory version false p x = tt
  IsAttested-⊑ directory version true p (statement, subjects, digested, covered) =
      (statement, subjects, AreDigested-⊑ directory _ subjects p digested, covered)

  -- The inspected packages are these.
  abbrev pub InspectedAs : Text → Text → Bool → List Packed → History → Type 0
  InspectedAs directory version attested packages h =
      (i : Inspected directory version attested h) × (i.packages ≡ packages)

  pub InspectedAs-⊑ :
      (directory version : Text) (attested : Bool) (packages : List Packed) {h g : History}
      → h ⊑ g
      → InspectedAs directory version attested packages h
      → InspectedAs directory version attested packages g
  InspectedAs-⊑ directory version attested packages p (x, e) = (
    record {
      names = x.names;
      listed = Seen-⊑ _ p x.listed;
      exact = x.exact;
      packages = x.packages;
      packed = ArePacked-⊑ directory version package_names x.packages p x.packed;
      depends = x.depends;
      subjects = x.subjects;
      digested = AreDigested-⊑ directory _ x.subjects p x.digested;
      sums = x.sums;
      read_sums = Seen-⊑ _ p x.read_sums;
      covered = x.covered;
      attestation = IsAttested-⊑ directory version attested p x.attestation;
    },
    e,
  )

  pub Inspected-⊑ :
      (directory version : Text) (attested : Bool) {h g : History}
      → h ⊑ g
      → Inspected directory version attested h
      → Inspected directory version attested g
  Inspected-⊑ directory version attested p x =
      (InspectedAs-⊑ directory version attested x.packages p (x, refl)).0

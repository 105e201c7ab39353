-- ===== src/Lifecycle/Payload/Inspected.antt =====
-- What the inspection of a payload shows (inspectPayload of scripts/release-lifecycle.mjs).
use keyobject_aws_kms.Prelude.{
  ◌≡◌, refl, ap, inl, Bool, true, false, Option, none, some, List, [], ◌∷◌, Text, codes, text_eq,
  starts_with, text_eq_sound, and_sound,
}
use keyobject_aws_kms.Effects.{done, catch}
use keyobject_aws_kms.Effects.Logic.{
  Runs-imp, Seen, Seen-⊑, ◌⊑◌, ⊑_trans, same, Runs, Runs-if, Runs-bind, Runs-attempt, Runs-later,
}
use keyobject_aws_kms.Effects.Calls.{Runs-sys}
use keyobject_aws_kms.Release.Version.{sorted, texts_eq}
use keyobject_aws_kms.Lifecycle.Machine.{
  Bytes, Manifest, Statement, Tools, Request, run, list_directory, read_file, answered, History,
  Duties, command, parsed,
}
use keyobject_aws_kms.Lifecycle.Rules.{rules, Any, parsed-Any, Ran, command-Ran}
use keyobject_aws_kms.Lifecycle.Payload.{
  tarball_name, Subject, Packed, package_names, checksums_name, release_subjects, expected_payload,
  opt_is, is_sigstore, text_or_empty, digest, digests, statement_of, covers,
  inspect_attestation_bundle, checksum_lines, core_depends, tar_manifest, is_package, integrity_of,
  inspect_package, inspect_packages, check_checksums, check_attested, inspect_contents,
  inspect_payload,
}
use keyobject_aws_kms.Lifecycle.Payload.Evidence.{
  HasDigest, HasDigest-⊑, AreDigested, AreDigested-⊑, IsAttested, HasIntegrity, IsPacked, ArePacked,
  ArePacked-⊑, Inspected, InspectedAs,
}

pub texts_eq_sound : (xs ys : List Text) → texts_eq xs ys ≡ true → xs ≡ ys
unfolding texts_eq
texts_eq_sound [] [] h = refl
texts_eq_sound [] (y ∷ ys) h = absurd (cc h)
texts_eq_sound (x ∷ xs) [] h = absurd (cc h)
texts_eq_sound (x ∷ xs) (y ∷ ys) h =
    let (first, rest) = and_sound _ _ h in
    let heads = text_eq_sound x y first in
    let tails = texts_eq_sound xs ys rest in cc (heads, tails)

module _ (tools : Tools) where
  pub opt_is_sound : (o : Option Text) (t : Text) → opt_is o t ≡ true → o ≡ some t
  opt_is_sound none t h = absurd (cc h)
  opt_is_sound (some s) t h = ap some (text_eq_sound s t h)

  is_package_sound :
      (name version : Text) (manifest : Manifest)
      → is_package tools name version manifest ≡ true
      → (manifest.name ≡ some name) × (manifest.version ≡ some version)
  unfolding is_package
  is_package_sound name version manifest h =
      let (n, v) = and_sound _ _ h in
      (opt_is_sound manifest.name name n, opt_is_sound manifest.version version v)

  -- A script that may read files, list directories and run tar.
  module _ (Q : History → Request → Type 0)
      (reads : (h : History) (path : Text) → Q h (read_file path))
      (lists : (h : History) (path : Text) → Q h (list_directory path))
      (tars : (h : History) (args : List Text) → Q h (run (codes "tar") args)) where
    abbrev quiet : Duties
    quiet = rules Q

    pub digest-HasDigest :
        (path : Text) (h : History)
        → Runs quiet (λ g t value. HasDigest tools path value g) h tt (digest tools path)
    unfolding digest
    digest-HasDigest path h =
        Runs-sys quiet (λ g t value. HasDigest tools path value g) h tt (read_file path) _
          (reads h path) (λ bytes. (bytes, inl refl, refl)) (λ e. tt)

    digests-AreDigested :
        (directory : Text) (names : List Text) (h : History)
        → Runs quiet
            (λ g t subjects. AreDigested tools directory names subjects g)
            h
            tt
            (digests tools directory names)
    unfolding digests
    digests-AreDigested directory [] h = tt
    digests-AreDigested directory (name ∷ names) h =
        Runs-bind quiet (λ g t value. HasDigest tools (tools.join directory name) value g)
          (λ g t subjects. AreDigested tools directory (name ∷ names) subjects g) _
          (digest tools (tools.join directory name)) h tt
          (digest-HasDigest (tools.join directory name) h)
          (λ g1 p1 t value d.
            Runs-bind quiet
              (λ g t subjects. (g1 ⊑ g) × AreDigested tools directory names subjects g)
              (λ g t subjects. AreDigested tools directory (name ∷ names) subjects g) _
              (digests tools directory names) g1 tt
              (Runs-later quiet (λ g t subjects. AreDigested tools directory names subjects g) g1
                (digests tools directory names) g1 tt same (digests-AreDigested directory names g1))
              (λ g2 p2 t subjects rest. (refl, HasDigest-⊑ tools _ value p2 d, rest.1)))

    inspect_package-IsPacked :
        (directory version name : Text) (h : History)
        → Runs quiet
            (λ g t p. IsPacked tools directory version name p g)
            h
            tt
            (inspect_package tools directory version name)
    unfolding inspect_package tar_manifest integrity_of
    inspect_package-IsPacked directory version name h =
        Runs-bind quiet Any Post _ (tar_manifest tools _) h tt
          (Runs-bind quiet (Ran Q (codes "tar") _ false) Any _ (command (codes "tar") _ false) h tt
            (command-Ran Q (codes "tar") _ false h (tars h _))
            (λ g p t r x. parsed-Any Q (tools.parse_manifest r.stdout) g))
          (λ g p t manifest x.
            Runs-if quiet Post g tt (is_package tools name version manifest) _ _
              (λ e.
                let (named, versioned) = is_package_sound name version manifest e in
                Runs-bind quiet
                  (λ g t value.
                    HasIntegrity tools (tools.resolve directory (tarball_name name version)) value
                      g)
                  Post _ (integrity_of tools (tools.resolve directory (tarball_name name version)))
                  g tt
                  (Runs-sys quiet _ g tt (read_file _) _ (reads g _)
                    (λ bytes. (bytes, inl refl, refl)) (λ e. tt))
                  (λ g2 p2 t v x. (refl, refl, named, versioned, x)))
              (λ e. tt))
      where
        Post : History → Unit {0} → Packed → Type 0
        Post g t p = IsPacked tools directory version name p g

    inspect_packages-ArePacked :
        (directory version : Text) (names : List Text) (h : History)
        → Runs quiet
            (λ g t packages. ArePacked tools directory version names packages g)
            h
            tt
            (inspect_packages tools directory version names)
    unfolding inspect_packages
    inspect_packages-ArePacked directory version [] h = tt
    inspect_packages-ArePacked directory version (name ∷ names) h =
        Runs-bind quiet (λ g t p. IsPacked tools directory version name p g)
          (λ g t packages. ArePacked tools directory version (name ∷ names) packages g) _
          (inspect_package tools directory version name) h tt
          (inspect_package-IsPacked directory version name h)
          (λ g p t first (n, d, m, v, (bytes, seen, e)).
            Runs-bind quiet
              (λ g2 t packages. (g ⊑ g2) × ArePacked tools directory version names packages g2)
              (λ g t packages. ArePacked tools directory version (name ∷ names) packages g) _
              (inspect_packages tools directory version names) g tt
              (Runs-later quiet (λ g t packages. ArePacked tools directory version names packages g)
                g (inspect_packages tools directory version names) g tt same
                (inspect_packages-ArePacked directory version names g))
              (λ g2 p2 t rest y. ((n, d, m, v, (bytes, Seen-⊑ _ p2 seen, e)), y.1)))

    statement_of-Any : (path : Text) (h : History) → Runs quiet Any h tt (statement_of tools path)
    unfolding statement_of
    statement_of-Any path h =
        Runs-sys quiet Any h tt (read_file path) _ (reads h path)
          (λ bytes.
            Runs-bind quiet Any Any _ (parsed (tools.parse_bundle (tools.decode bytes))) _ tt
              (parsed-Any Q (tools.parse_bundle (tools.decode bytes)) _)
              (λ g p t bundle x.
                Runs-if quiet Any g tt (is_sigstore bundle) _ _
                  (λ e.
                    Runs-bind quiet Any Any _
                      (parsed (
                        tools.parse_statement
                          (tools.base64_decode (text_or_empty tools bundle.payload))))
                      g tt (parsed-Any Q (tools.parse_statement _) g)
                      (λ g2 p2 t statement y.
                        Runs-if quiet Any g2 tt
                          (opt_is statement.type_name (codes "https://in-toto.io/Statement/v1")) _ _
                          (λ e. tt) (λ e. tt)))
                  (λ e. tt)))
          (λ e. tt)

    abbrev Covering : Text → List Text → History → Unit {0} → Unit {0} → Type 0
    Covering directory names g t u =
        (statement : Statement) × (subjects : List Subject) × AreDigested tools directory names
          subjects g
        × (covers tools statement subjects ≡ true)

    inspect_attestation_bundle-Covering :
        (path directory : Text) (names : List Text) (h : History)
        → Runs quiet
            (Covering directory names)
            h
            tt
            (inspect_attestation_bundle tools path directory names)
    unfolding inspect_attestation_bundle
    inspect_attestation_bundle-Covering path directory names h =
        Runs-bind quiet Any (Covering directory names) _ (catch (statement_of tools path) _) h tt
          (Runs-attempt quiet (λ g t e. Unit) Any Any done _ (statement_of tools path) h tt
            (statement_of-Any path h) (λ g p t a x. tt)
            (λ g p t e x.
              Runs-if quiet Any g tt (starts_with e (codes "attestation bundle")) _ _ (λ e. tt)
                (λ e. tt)))
          (λ g p t statement x.
            Runs-bind quiet (λ g t subjects. AreDigested tools directory names subjects g)
              (Covering directory names) _ (digests tools directory names) g tt
              (digests-AreDigested directory names g)
              (λ g2 p2 t subjects d.
                Runs-if quiet (Covering directory names) g2 tt (covers tools statement subjects) _ _
                  (λ e. (statement, subjects, d, e)) (λ e. tt)))

    check_attested-IsAttested :
        (directory version : Text) (attested : Bool) (h : History)
        → Runs quiet
            (λ g t u. IsAttested tools directory version attested g)
            h
            tt
            (check_attested tools directory version attested)
    unfolding check_attested
    check_attested-IsAttested directory version false h = tt
    check_attested-IsAttested directory version true h =
        inspect_attestation_bundle-Covering _ directory (release_subjects version) h

    check_checksums-Covered :
        (directory : Text) (subjects : List Subject) (h : History)
        → Runs quiet
            (λ g t u.
              (sums : Bytes) × Seen
                (answered (read_file (tools.join directory checksums_name)) sums)
                g
              × (tools.decode sums ≡ checksum_lines subjects))
            h
            tt
            (check_checksums tools directory subjects)
    unfolding check_checksums
    check_checksums-Covered directory subjects h =
        Runs-sys quiet _ h tt (read_file (tools.join directory checksums_name)) _ (reads h _)
          (λ sums.
            Runs-if quiet _ _ tt (text_eq (tools.decode sums) (checksum_lines subjects)) _ _
              (λ e. (sums, inl refl, text_eq_sound _ _ e)) (λ e. tt))
          (λ e. tt)

    module _ (directory version : Text) (attested : Bool) (names : List Text)
        (exact : sorted names ≡ expected_payload version attested) where
      inspect_contents-InspectedAs :
          (h : History)
          → Seen (answered (list_directory directory) names) h
          → Runs quiet
              (λ g t packages. InspectedAs tools directory version attested packages g)
              h
              tt
              (inspect_contents tools directory version attested)
      unfolding inspect_contents
      inspect_contents-InspectedAs h listed =
          Runs-bind quiet
            (λ g t packages. ArePacked tools directory version package_names packages g) Post _
            (inspect_packages tools directory version package_names) h tt
            (inspect_packages-ArePacked directory version package_names h)
            (λ g1 p1 t packages x.
              Runs-bind quiet (λ g t u. (g1 ⊑ g) × (core_depends version packages ≡ true)) Post _ _
                g1 tt
                (Runs-if quiet _ g1 tt (core_depends version packages) _ _ (λ e. (same, e))
                  (λ e. tt))
                (λ g2 p2 t u depends.
                  Runs-bind quiet
                    (λ g t subjects.
                      AreDigested tools directory (release_subjects version) subjects g)
                    Post _ (digests tools directory (release_subjects version)) g2 tt
                    (digests-AreDigested directory (release_subjects version) g2)
                    (λ g3 p3 t subjects digested.
                      Runs-bind quiet _ Post _ (check_checksums tools directory subjects) g3 tt
                        (check_checksums-Covered directory subjects g3)
                        (λ g4 p4 t u (sums, read_sums, covered).
                          Runs-bind quiet
                            (λ g t u. (g4 ⊑ g) × IsAttested tools directory version attested g) Post
                            _ (check_attested tools directory version attested) g4 tt
                            (Runs-later quiet
                              (λ g t u. IsAttested tools directory version attested g) g4
                              (check_attested tools directory version attested) g4 tt same
                              (check_attested-IsAttested directory version attested g4))
                            (λ g5 p5 t u attestation. (
                              record {
                                names = names;
                                listed =
                                    Seen-⊑ _ (⊑_trans p1 (⊑_trans p2 (⊑_trans p3 (⊑_trans p4 p5))))
                                      listed;
                                exact = exact;
                                packages = packages;
                                packed =
                                    ArePacked-⊑ tools directory version package_names packages
                                      (⊑_trans p2 (⊑_trans p3 (⊑_trans p4 p5))) x;
                                depends = depends.1;
                                subjects = subjects;
                                digested =
                                    AreDigested-⊑ tools directory (release_subjects version)
                                      subjects (⊑_trans p4 p5) digested;
                                sums = sums;
                                read_sums = Seen-⊑ _ p5 read_sums;
                                covered = covered;
                                attestation = attestation.1;
                              },
                              refl,
                            ))))))
        where
          Post : History → Unit {0} → List Packed → Type 0
          Post g t packages = InspectedAs tools directory version attested packages g

    pub inspect_payload-InspectedAs :
        (directory version : Text) (attested : Bool) (h : History)
        → Runs quiet
            (λ g t packages. InspectedAs tools directory version attested packages g)
            h
            tt
            (inspect_payload tools directory version attested)
    unfolding inspect_payload
    inspect_payload-InspectedAs directory version attested h =
        Runs-sys quiet (λ g t packages. InspectedAs tools directory version attested packages g) h
          tt (list_directory directory) _ (lists h directory)
          (λ names.
            Runs-if quiet (λ g t packages. InspectedAs tools directory version attested packages g)
              _ tt (texts_eq (sorted names) (expected_payload version attested)) _ _
              (λ e.
                inspect_contents-InspectedAs directory version attested names (texts_eq_sound _ _ e)
                  _ (inl refl))
              (λ e. tt))
          (λ e. tt)

    pub inspect_payload-Inspected :
        (directory version : Text) (attested : Bool) (h : History)
        → Runs quiet
            (λ g t packages. Inspected tools directory version attested g)
            h
            tt
            (inspect_payload tools directory version attested)
    inspect_payload-Inspected directory version attested h =
        Runs-imp quiet quiet
          (λ g t packages. InspectedAs tools directory version attested packages g)
          (λ g t packages. Inspected tools directory version attested g) (λ g c x. x) (λ g t e x. x)
          (λ g x. x) (λ g t packages x. x.0) (inspect_payload tools directory version attested) h tt
          (inspect_payload-InspectedAs directory version attested h)

-- ===== src/Runtime/Satellite/Resolved.antt =====
-- What resolveSatellite of npm/core/index.js shows: the platform package was accepted, and its files are
-- what they were then.
use keyobject_aws_kms.Prelude.{
  ◌≡◌, refl, ap, ◌∙◌, sym, inl, true, ◌==◌, Option, none, some, Text, codes, length, text_eq,
  text_eq_sound, ==_iff, arith,
}
use keyobject_aws_kms.Effects.Logic.{Seen, Seen-⊑, ◌⊑◌, ⊑_trans, Runs, Runs-if}
use keyobject_aws_kms.Runtime.Host.{
  Bytes, Host, read_file, resolve, Snapshot, Satellite, Session, History, value,
}
use keyobject_aws_kms.Runtime.Target.{platform_package, target_key}
use keyobject_aws_kms.Runtime.Metadata.{is_own}
use keyobject_aws_kms.Runtime.Satellite.{
  Paths, files_of, resolve_satellite_files, snapshot, same_content, validate_snapshot,
  validate_satellite, check_manifest, same_directory, package_paths, remember_satellite,
  new_satellite, published_satellite, satellite_of, resolve_satellite,
}
use keyobject_aws_kms.Runtime.Satellite.Accepted.{
  Matches, Accepted, check_manifest-Matches, same_directory_sound,
}
use keyobject_aws_kms.Runtime.Rendezvous.Published.{Any}
use keyobject_aws_kms.Runtime.Logic.{
  duty, still, Still, Runs-sys, Runs-wrapped, Runs-still, Runs-still_try, Runs-still_wrapped,
  Still-bind, still-duty, answered,
}

module _ (host : Host) where
  -- The file was read, and what was read has the size and the digest of the snapshot.
  abbrev pub UnchangedFile : Snapshot → History → Type 0
  UnchangedFile file h =
      (bytes : Bytes) × Seen (answered (read_file file.path) bytes) h
      × (length bytes ≡ length file.bytes)
      × (host.sha256 bytes ≡ file.digest)

  abbrev pub Unchanged : Satellite → History → Type 0
  Unchanged satellite h =
      UnchangedFile satellite.manifest_file h
      × UnchangedFile satellite.module_file h
      × UnchangedFile satellite.config_file h

  UnchangedFile-⊑ :
      (file : Snapshot) {h g : History} → h ⊑ g → UnchangedFile file h → UnchangedFile file g
  UnchangedFile-⊑ file p (bytes, seen, size, digest) = (bytes, Seen-⊑ _ p seen, size, digest)

  pub Unchanged-⊑ :
      (satellite : Satellite) {h g : History}
      → h ⊑ g
      → Unchanged satellite h
      → Unchanged satellite g
  Unchanged-⊑ satellite p (m, l, c) =
      (UnchangedFile-⊑ _ p m, UnchangedFile-⊑ _ p l, UnchangedFile-⊑ _ p c)

  same_content_sound :
      (file : Snapshot) (bytes : Bytes)
      → same_content host file bytes ≡ true
      → (length bytes ≡ length file.bytes) × (host.sha256 bytes ≡ file.digest)
  unfolding same_content
  same_content_sound file bytes h =
      let (size, digest) : ((length bytes == length file.bytes) ≡ true)
          × (text_eq (host.sha256 bytes) file.digest ≡ true) =
        ground (arith, h) in
      ((==_iff _ _).0 size, text_eq_sound _ _ digest)

  module _ (s : Session) where
    validate_snapshot-Unchanged :
        (h : History) (file : Snapshot) (label : Text)
        → Runs
            (still host s)
            (Still s (λ g u. UnchangedFile file g))
            h
            s
            (validate_snapshot host file label)
    unfolding validate_snapshot
    validate_snapshot-Unchanged h file label =
        Runs-wrapped (still host s) _ h s (read_file file.path) _ _ tt
          (λ bytes.
            Runs-if (still host s) _ _ s (same_content host file bytes) _ _
              (λ e.
                let (size, digest) = same_content_sound file bytes e in
                (refl, (bytes, inl refl, size, digest)))
              (λ e. refl))
          (λ e. refl)

    validate_satellite-Unchanged :
        (h : History) (satellite : Satellite)
        → Runs
            (still host s)
            (Still s (λ g u. Unchanged satellite g))
            h
            s
            (validate_satellite host satellite)
    unfolding validate_satellite
    validate_satellite-Unchanged h satellite =
        Still-bind host (λ g u. UnchangedFile satellite.manifest_file g)
          (λ g u. Unchanged satellite g) _ _ h s
          (validate_snapshot-Unchanged h satellite.manifest_file _)
          (λ g1 p1 u m.
            Still-bind host (λ g u. UnchangedFile satellite.module_file g)
              (λ g u. Unchanged satellite g) _ _ g1 s
              (validate_snapshot-Unchanged g1 satellite.module_file _)
              (λ g2 p2 u l.
                still-duty host (λ t. t ≡ s) (λ g u. UnchangedFile satellite.config_file g)
                  (Still s (λ g u. Unchanged satellite g))
                  (validate_snapshot host satellite.config_file (codes "OpenSSL config template"))
                  g2 s refl
                  (validate_snapshot-Unchanged g2 satellite.config_file
                    (codes "OpenSSL config template"))
                  (λ g3 p3 u c.
                    (refl, (UnchangedFile-⊑ _ (⊑_trans p2 p3) m, UnchangedFile-⊑ _ p3 l, c)))))

    -- The snapshot of a file that was read.
    abbrev IsTaken : Text → History → Snapshot → Type 0
    IsTaken path g file =
        (file.path ≡ path) × (file.digest ≡ host.sha256 file.bytes) × UnchangedFile file g

    snapshot-Taken :
        (h : History) (path : Text)
        → Runs (still host s) (Still s (IsTaken path)) h s (snapshot host path)
    unfolding snapshot
    snapshot-Taken h path =
        Runs-sys (still host s) (Still s (IsTaken path)) h s (read_file path) _ tt
          (λ bytes. (refl, (refl, refl, (bytes, inl refl, refl, refl)))) (λ e. refl)

    files_of-Any :
        (pkg : Option Text) (h : History)
        → Runs (still host s) (Still s Any) h s (files_of host pkg)
    unfolding files_of
    files_of-Any none h = refl
    files_of-Any (some pkg) h =
        Runs-sys (still host s) (Still s Any) h s (resolve _) _ tt
          (λ manifest.
            Runs-sys (still host s) (Still s Any) _ s (resolve _) _ tt
              (λ library.
                Runs-sys (still host s) (Still s Any) _ s (resolve _) _ tt (λ config. (refl, tt))
                  (λ e. refl))
              (λ e. refl))
          (λ e. refl)

    package_paths-Any :
        (name : Text) (h : History)
        → Runs (still host s) (Still s Any) h s (package_paths host name)
    unfolding package_paths resolve_satellite_files
    package_paths-Any name h =
        Runs-still_try host (λ t. t ≡ s) Any (Still s Any) _ _ h s _
          (files_of-Any (platform_package (target_key host)) h) (λ g p paths x. (refl, tt))
          (λ g p e. Runs-if (still host s) _ g s (is_own host e) _ _ (λ o. refl) (λ o. refl))

  -- The accepted package is remembered, and its files are unchanged.
  abbrev pub Resolved : (Session → Type 0) → History → Session → Satellite → Type 0
  Resolved I g t satellite = I t × (t.cached_satellite ≡ some satellite) × Unchanged satellite g

  module _ (I : Session → Type 0) (s : Session) (i : I s)
      (remembers : (satellite : Satellite)
        → Accepted host satellite
        → I (record s { cached_satellite = some satellite })) where
    module _ (name : Text) (manifest_file : Snapshot) (paths : Paths)
        (accepts : (library config : Snapshot)
          → library.path ≡ paths.1
          → config.path ≡ paths.2
          → library.digest ≡ host.sha256 library.bytes
          → config.digest ≡ host.sha256 config.bytes
          → Accepted host (record {
            name = name;
            manifest_file = manifest_file;
            module_file = library;
            config_file = config;
          })) where
      remember_satellite-Resolved :
          (h : History)
          → UnchangedFile manifest_file h
          → Runs (duty host I) (Resolved I) h s (remember_satellite host name manifest_file paths)
      unfolding remember_satellite
      remember_satellite-Resolved h unchanged =
          Runs-still_wrapped host I (IsTaken s (paths.1)) (Resolved I) _ (snapshot host (paths.1)) h
            s _ i (snapshot-Taken s h (paths.1))
            (λ g1 p1 library l.
              Runs-still_wrapped host I (IsTaken s (paths.2)) (Resolved I) _
                (snapshot host (paths.2)) g1 s _ i (snapshot-Taken s g1 (paths.2))
                (λ g2 p2 config c. (
                  remembers _ (accepts library config l.0 c.0 l.1 c.1),
                  refl,
                  (
                    UnchangedFile-⊑ manifest_file (⊑_trans p1 p2) unchanged,
                    UnchangedFile-⊑ library p2 l.2,
                    c.2,
                  ),
                )))

    new_satellite-Resolved :
        (name : Text)
        → platform_package (target_key host) ≡ some name
        → (h : History) → Runs (duty host I) (Resolved I) h s (new_satellite host name)
    unfolding new_satellite
    new_satellite-Resolved name published h =
        Runs-still host I Any (Resolved I) _ (package_paths host name) h s i
          (package_paths-Any s name h)
          (λ g1 p1 paths x.
            Runs-still_wrapped host I (IsTaken s (paths.0)) (Resolved I) _ (snapshot host (paths.0))
              g1 s _ i (snapshot-Taken s g1 (paths.0))
              (λ g2 p2 file taken.
                Runs-still host I
                  (λ g u.
                    (manifest : _) × (host.parse (host.decode file.bytes) ≡ value manifest)
                    × Matches host name manifest)
                  (Resolved I) _ (check_manifest host name (host.parse (host.decode file.bytes))) g2
                  s i (check_manifest-Matches host g2 s name (host.parse (host.decode file.bytes)))
                  (λ g3 p3 u m.
                    Runs-if (duty host I) (Resolved I) g3 s (same_directory host paths) _ _
                      (λ e.
                        remember_satellite-Resolved name file paths
                          (λ library config l c dl dc.
                            let (fl, fc) =
                              same_directory_sound host (paths.0) (paths.1) (paths.2) e in
                            record {
                              published = published;
                              manifest = m.0;
                              parsed = m.1;
                              matches = m.2;
                              module_folder =
                                  ap host.dirname taken.0 ∙ fl ∙ sym (ap host.dirname l);
                              config_folder =
                                  ap host.dirname taken.0 ∙ fc ∙ sym (ap host.dirname c);
                              manifest_digest = taken.1;
                              module_digest = dl;
                              config_digest = dc;
                            })
                          g3 (UnchangedFile-⊑ file p3 taken.2))
                      (λ e. i))))

    published_satellite-Resolved :
        (o : Option Text)
        → platform_package (target_key host) ≡ o
        → (h : History) → Runs (duty host I) (Resolved I) h s (published_satellite host o)
    unfolding published_satellite
    published_satellite-Resolved none e h = i
    published_satellite-Resolved (some name) e h = new_satellite-Resolved name e h

  module _ (I : Session → Type 0) (s : Session) (i : I s)
      (remembers : s.cached_satellite ≡ none
        → (satellite : Satellite) → Accepted host satellite
        → I (record s { cached_satellite = some satellite })) where
    satellite_of-Resolved :
        (o : Option Satellite)
        → s.cached_satellite ≡ o
        → (h : History) → Runs (duty host I) (Resolved I) h s (satellite_of host o)
    unfolding satellite_of
    satellite_of-Resolved (some satellite) e h =
        Runs-still host I (λ g u. Unchanged satellite g) (Resolved I) _
          (validate_satellite host satellite) h s i (validate_satellite-Unchanged s h satellite)
          (λ g p u unchanged. (i, e, unchanged))
    satellite_of-Resolved none e h =
        published_satellite-Resolved I s i (remembers e) (platform_package (target_key host)) refl h

    pub resolve_satellite-Resolved :
        (h : History) → Runs (duty host I) (Resolved I) h s (resolve_satellite host)
    unfolding resolve_satellite
    resolve_satellite-Resolved h = satellite_of-Resolved s.cached_satellite refl h

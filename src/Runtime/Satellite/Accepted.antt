-- ===== src/Runtime/Satellite/Accepted.antt =====
-- What a platform package is when it is accepted (the checks of resolveSatellite in npm/core/index.js).
use keyobject_aws_kms.Prelude.{
  ◌≡◌, refl, ap, Bool, true, not, ◌&&◌, Option, none, some, [], ◌∷◌, Text, text_eq_sound, not-false,
  arith,
}
use keyobject_aws_kms.Effects.Logic.{Runs, Runs-if}
use keyobject_aws_kms.Runtime.Host.{
  Member, absent, null, text, array, other, Manifest, Parsed, syntax_error, null_value, value, Host,
  Snapshot, Satellite, Session, History,
}
use keyobject_aws_kms.Runtime.Target.{platform_package, target_key}
use keyobject_aws_kms.Runtime.Metadata.{
  exact_singleton, is_string, expected_os, expected_libc, libc_matches, platform_matches,
}
use keyobject_aws_kms.Runtime.Satellite.{check_manifest, same_directory}
use keyobject_aws_kms.Runtime.Logic.{still, Still}

-- The member is an array of this string alone, or is not there.
abbrev pub IsLibc : Option Text → Member → Type 0
IsLibc none m = m ≡ absent
IsLibc (some t) m = m ≡ array (some t ∷ [])

module _ (host : Host) where
  -- The manifest is that of the package with this name, for this version and this platform.
  pub record Matches (name : Text) (manifest : Manifest) : Type 0 where
    pub names : manifest.name ≡ text name
    pub versions : manifest.version ≡ text host.version
    pub os : manifest.os ≡ array (some (expected_os host) ∷ [])
    pub cpu : manifest.cpu ≡ array (some host.arch ∷ [])
    pub libc : IsLibc (expected_libc host) manifest.libc

  abbrev IsSnapshot : Snapshot → Type 0
  IsSnapshot file = file.digest ≡ host.sha256 file.bytes

  -- The package is the one for the target, its manifest matches, its files are in one directory, and
  -- the digests are theirs.
  pub record Accepted (satellite : Satellite) : Type 0 where
    pub published : platform_package (target_key host) ≡ some satellite.name
    pub manifest : Manifest
    pub parsed : host.parse (host.decode satellite.manifest_file.bytes) ≡ value manifest
    pub matches : Matches satellite.name manifest
    pub module_folder :
        host.dirname satellite.manifest_file.path ≡ host.dirname satellite.module_file.path
    pub config_folder :
        host.dirname satellite.manifest_file.path ≡ host.dirname satellite.config_file.path
    pub manifest_digest : IsSnapshot satellite.manifest_file
    pub module_digest : IsSnapshot satellite.module_file
    pub config_digest : IsSnapshot satellite.config_file

  is_string_sound : (m : Member) (t : Text) → is_string host m t ≡ true → m ≡ text t
  unfolding is_string
  is_string_sound (text s) t h = ap text (text_eq_sound s t h)
  is_string_sound absent t h = absurd (cc h)
  is_string_sound null t h = absurd (cc h)
  is_string_sound (array xs) t h = absurd (cc h)
  is_string_sound (other s) t h = absurd (cc h)

  exact_singleton_sound :
      (m : Member) (t : Text) → exact_singleton host m t ≡ true → m ≡ array (some t ∷ [])
  unfolding exact_singleton
  exact_singleton_sound (array (some s ∷ [])) t h =
      ap (λ s. array (some s ∷ [])) (text_eq_sound s t h)
  exact_singleton_sound (array []) t h = absurd (cc h)
  exact_singleton_sound (array (none ∷ [])) t h = absurd (cc h)
  exact_singleton_sound (array (x ∷ y ∷ xs)) t h = absurd (cc h)
  exact_singleton_sound absent t h = absurd (cc h)
  exact_singleton_sound null t h = absurd (cc h)
  exact_singleton_sound (text s) t h = absurd (cc h)
  exact_singleton_sound (other s) t h = absurd (cc h)

  libc_matches_sound : (o : Option Text) (m : Member) → libc_matches host o m ≡ true → IsLibc o m
  unfolding libc_matches
  libc_matches_sound (some t) m h = exact_singleton_sound m t h
  libc_matches_sound none absent h = refl
  libc_matches_sound none null h = absurd (cc h)
  libc_matches_sound none (text s) h = absurd (cc h)
  libc_matches_sound none (array xs) h = absurd (cc h)
  libc_matches_sound none (other s) h = absurd (cc h)

  both : (a b : Bool) → (a && b) ≡ true → (a ≡ true) × (b ≡ true)
  both a b h = ground (arith, h)

  platform_matches_sound :
      (name : Text) (manifest : Manifest)
      → is_string host manifest.name name ≡ true
      → is_string host manifest.version host.version ≡ true
      → platform_matches host manifest ≡ true
      → Matches name manifest
  unfolding platform_matches
  platform_matches_sound name manifest n v h =
      let (rest, libc) = both _ _ h in
      let (os, cpu) = both _ _ rest in
      record {
        names = is_string_sound manifest.name name n;
        versions = is_string_sound manifest.version host.version v;
        os = exact_singleton_sound manifest.os _ os;
        cpu = exact_singleton_sound manifest.cpu _ cpu;
        libc = libc_matches_sound (expected_libc host) manifest.libc libc;
      }

  pub check_manifest-Matches :
      (h : History) (s : Session) (name : Text) (parsed : Parsed)
      → Runs
          (still host s)
          (Still s
            (λ g u. (manifest : Manifest) × (parsed ≡ value manifest) × Matches name manifest))
          h
          s
          (check_manifest host name parsed)
  unfolding check_manifest
  check_manifest-Matches h s name (syntax_error cause) = refl
  check_manifest-Matches h s name null_value = refl
  check_manifest-Matches h s name (value manifest) =
      Runs-if (still host s) _ h s (not (is_string host manifest.name name)) _ _ (λ e. refl)
        (λ n.
          Runs-if (still host s) _ h s (not (is_string host manifest.version host.version)) _ _
            (λ e. refl)
            (λ v.
              Runs-if (still host s) _ h s (not (platform_matches host manifest)) _ _ (λ e. refl)
                (λ p. (
                  refl,
                  (
                    manifest,
                    refl,
                    platform_matches_sound name manifest (not-false _ n) (not-false _ v)
                        (not-false _ p),
                  ),
                ))))

  pub same_directory_sound :
      (manifest library config : Text)
      → same_directory host (manifest, library, config) ≡ true
      → (host.dirname manifest ≡ host.dirname library)
        × (host.dirname manifest ≡ host.dirname config)
  unfolding same_directory
  same_directory_sound manifest library config h =
      let (l, c) = both _ _ h in (text_eq_sound _ _ l, text_eq_sound _ _ c)

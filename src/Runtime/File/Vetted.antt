-- ===== src/Runtime/File/Vetted.antt =====
-- What the validation of a private file shows (validatePrivateFile and privateFileSnapshot of
-- npm/core/index.js).
use keyobject_aws_kms.Prelude.{ℕ, ◌≡◌, refl, true, Text, length, and_sound, ==_iff, text_eq_sound}
use keyobject_aws_kms.Effects.Logic.{Runs, Runs-if}
use keyobject_aws_kms.Runtime.Host.{Bytes, permissions, Host, PrivateFile, Session, History}
use keyobject_aws_kms.Runtime.Directory.{Opened, no_follow_read}
use keyobject_aws_kms.Runtime.Directory.Inspected.{
  IsOwned, uid_matches_sound, ReadOpen, ReadOpen-⊑, no_follow_read-ReadOpen,
}
use keyobject_aws_kms.Runtime.Rendezvous.{validate_temp_directory}
use keyobject_aws_kms.Runtime.Rendezvous.Trusted.{
  Remembered, Remembered-⊑, validate_temp_directory-Remembered,
}
use keyobject_aws_kms.Runtime.File.{
  is_recorded, accept_opened, file_of, private_file_snapshot, validate_private_file,
}
use keyobject_aws_kms.Runtime.Logic.{still, Still, Still-bind, Runs-still_wrapped}

module _ (host : Host) where
  -- What was read is a regular file with one link, of the user, with the recorded device, inode, mode,
  -- size and digest.
  pub record IsRecorded (file : PrivateFile) (opened : Opened) : Type 0 where
    pub regular : (opened.0).is_file ≡ true
    pub links : (opened.0).nlink ≡ 1
    pub owned : IsOwned host (opened.0)
    pub device : (opened.0).dev ≡ file.dev
    pub inode : (opened.0).ino ≡ file.ino
    pub mode : permissions (opened.0) ≡ file.mode
    pub size : length (opened.1) ≡ length file.bytes
    pub digest : host.sha256 (opened.1) ≡ file.digest

  is_recorded-IsRecorded :
      (file : PrivateFile) (opened : Opened)
      → is_recorded host file opened ≡ true
      → IsRecorded file opened
  unfolding is_recorded
  is_recorded-IsRecorded file (st, bytes) x =
      let (rest6, digest) = and_sound _ _ x in
      let (rest5, size) = and_sound _ _ rest6 in
      let (rest4, mode) = and_sound _ _ rest5 in
      let (rest3, inode) = and_sound _ _ rest4 in
      let (rest2, device) = and_sound _ _ rest3 in
      let (rest1, owned) = and_sound _ _ rest2 in
      let (regular, links) = and_sound _ _ rest1 in
      record {
        regular = regular;
        links = (==_iff _ _).0 links;
        owned = uid_matches_sound host st owned;
        device = (==_iff _ _).0 device;
        inode = (==_iff _ _).0 inode;
        mode = (==_iff _ _).0 mode;
        size = (==_iff _ _).0 size;
        digest = text_eq_sound _ _ digest;
      }

  -- The file was opened without following a link, and what was read is what is recorded of it.
  abbrev pub Vetted : PrivateFile → History → Type 0
  Vetted file h = (opened : Opened) × ReadOpen host file.path opened h × IsRecorded file opened

  -- The record is that of a file with this path, content and mode.
  abbrev pub IsFileOf : Text → Bytes → ℕ → PrivateFile → Type 0
  IsFileOf path bytes mode file =
      (file.path ≡ path)
      × (file.bytes ≡ bytes)
      × (file.mode ≡ mode)
      × (file.digest ≡ host.sha256 bytes)

  module _ (s : Session) where
    -- The file, and the directory of the process.
    abbrev pub InPlace : PrivateFile → History → Type 0
    InPlace file g = Vetted file g × (directory : Text) × Remembered host s directory g

    pub validate_private_file-InPlace :
        (h : History) (file : PrivateFile)
        → Runs
            (still host s)
            (Still s (λ g u. InPlace file g))
            h
            s
            (validate_private_file host file)
    unfolding validate_private_file accept_opened
    validate_private_file-InPlace h file =
        Still-bind host (λ g path. Remembered host s path g) (λ g u. InPlace file g) _
          (validate_temp_directory host) h s (validate_temp_directory-Remembered host h s)
          (λ g1 p1 directory remembered.
            Runs-still_wrapped host (λ t. t ≡ s) (λ g o. ReadOpen host file.path o g) _ _
              (no_follow_read host file.path) g1 s _ refl
              (no_follow_read-ReadOpen host s g1 file.path)
              (λ g2 p2 opened read.
                Runs-if (still host s) _ g2 s (is_recorded host file opened) _ _
                  (λ e. (
                    refl,
                    (
                      (opened, read, is_recorded-IsRecorded file opened e),
                      directory,
                      Remembered-⊑ host s directory p2 remembered,
                    ),
                  ))
                  (λ e. refl)))

    pub private_file_snapshot-IsFileOf :
        (h : History) (path : Text) (bytes : Bytes) (mode : ℕ)
        → Runs
            (still host s)
            (Still s (λ g file. IsFileOf path bytes mode file × Vetted file g))
            h
            s
            (private_file_snapshot host path bytes mode)
    unfolding private_file_snapshot accept_opened file_of
    private_file_snapshot-IsFileOf h path bytes mode =
        Runs-still_wrapped host (λ t. t ≡ s) (λ g o. ReadOpen host path o g) _ _
          (no_follow_read host path) h s _ refl (no_follow_read-ReadOpen host s h path)
          (λ g1 p1 opened read.
            Still-bind host (λ g directory. Remembered host s directory g)
              (λ g file. IsFileOf path bytes mode file × Vetted file g) _
              (validate_temp_directory host) g1 s (validate_temp_directory-Remembered host g1 s)
              (λ g2 p2 directory remembered.
                Still-bind host (λ g u. Vetted (file_of host path bytes mode (opened.0)) g) _ _
                  (accept_opened host (file_of host path bytes mode (opened.0)) opened) g2 s
                  (Runs-if (still host s) _ g2 s
                    (is_recorded host (file_of host path bytes mode (opened.0)) opened) _ _
                    (λ e. (
                      refl,
                      (
                        opened,
                        ReadOpen-⊑ host path opened p2 read,
                        is_recorded-IsRecorded (file_of host path bytes mode (opened.0)) opened e,
                      ),
                    ))
                    (λ e. refl))
                  (λ g3 p3 u vetted. (refl, ((refl, refl, refl, refl), vetted)))))

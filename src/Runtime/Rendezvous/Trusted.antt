-- ===== src/Runtime/Rendezvous/Trusted.antt =====
-- What validateTempDirectory of npm/core/index.js shows.
use keyobject_aws_kms.Prelude.{
  ◌≡◌, refl, true, Option, none, some, Text, length, and_sound, ==_iff, text_eq_sound,
}
use keyobject_aws_kms.Effects.Logic.{◌⊑◌, ⊑_trans, Runs, Runs-if, Runs-imp}
use keyobject_aws_kms.Runtime.Host.{Stat, permissions, Host, TempDirectory, Session, History}
use keyobject_aws_kms.Runtime.Directory.{
  Opened, is_marker, assert_private_directory, no_follow_read,
}
use keyobject_aws_kms.Runtime.Directory.Inspected.{
  IsOwned, uid_matches_sound, Private, ReadOpen, Private-⊑, ReadOpen-⊑,
  assert_private_directory-Private, no_follow_read-ReadOpen,
}
use keyobject_aws_kms.Runtime.Rendezvous.{
  same_marker, validate_known, validate_remembered, validate_temp_directory,
}
use keyobject_aws_kms.Runtime.Logic.{still, Still, Runs-still, Runs-still_wrapped}

module _ (host : Host) where
  -- The marker is a regular file of the user with mode 0400, it is the remembered one, and names the
  -- directory.
  pub record IsMarker (temp : TempDirectory) (opened : Opened) : Type 0 where
    pub regular : (opened.0).is_file ≡ true
    pub owned : IsOwned host (opened.0)
    pub mode : permissions (opened.0) ≡ 256
    pub device : (opened.0).dev ≡ temp.marker.dev
    pub inode : (opened.0).ino ≡ temp.marker.ino
    pub size : length (opened.1) ≡ length temp.marker.bytes
    pub digest : host.sha256 (opened.1) ≡ temp.marker.digest
    pub names : host.decode (opened.1) ≡ host.basename temp.place.path

  same_marker-IsMarker :
      (temp : TempDirectory) (opened : Opened)
      → same_marker host temp opened ≡ true
      → IsMarker temp opened
  unfolding same_marker is_marker
  same_marker-IsMarker temp (st, bytes) x =
      let (rest5, names) = and_sound _ _ x in
      let (rest4, digest) = and_sound _ _ rest5 in
      let (rest3, size) = and_sound _ _ rest4 in
      let (rest2, inode) = and_sound _ _ rest3 in
      let (marker, device) = and_sound _ _ rest2 in
      let (rest1, mode) = and_sound _ _ marker in
      let (regular, owned) = and_sound _ _ rest1 in
      record {
        regular = regular;
        owned = uid_matches_sound host st owned;
        mode = (==_iff _ _).0 mode;
        device = (==_iff _ _).0 device;
        inode = (==_iff _ _).0 inode;
        size = (==_iff _ _).0 size;
        digest = text_eq_sound _ _ digest;
        names = text_eq_sound _ _ names;
      }

  -- The root, the marker and the directory were inspected, and all are the remembered ones.
  pub record Trusted (temp : TempDirectory) (h : History) : Type 0 where
    pub root_stat : Stat
    pub root : Private host temp.root.path (some temp.root) root_stat h
    pub opened : Opened
    pub marker : ReadOpen host temp.marker.path opened h
    pub same : IsMarker temp opened
    pub place_stat : Stat
    pub place : Private host temp.place.path (some temp.place) place_stat h

  pub Trusted-⊑ : (temp : TempDirectory) {h g : History} → h ⊑ g → Trusted temp h → Trusted temp g
  Trusted-⊑ temp p t = record {
    root_stat = t.root_stat;
    root = Private-⊑ host _ _ _ p t.root;
    opened = t.opened;
    marker = ReadOpen-⊑ host _ _ p t.marker;
    same = t.same;
    place_stat = t.place_stat;
    place = Private-⊑ host _ _ _ p t.place;
  }

  pub validate_known-Trusted :
      (h : History) (s : Session) (temp : TempDirectory)
      → Runs
          (still host s)
          (Still s (λ g path. (path ≡ temp.place.path) × Trusted temp g))
          h
          s
          (validate_known host temp)
  unfolding validate_known
  validate_known-Trusted h s temp =
      Runs-still host (λ t. t ≡ s) (λ g st. Private host temp.root.path (some temp.root) st g) _ _
        (assert_private_directory host temp.root.path (some temp.root)) h s refl
        (assert_private_directory-Private host s h temp.root.path (some temp.root))
        (λ g1 p1 root_stat root.
          Runs-still_wrapped host (λ t. t ≡ s) (λ g o. ReadOpen host temp.marker.path o g) _ _
            (no_follow_read host temp.marker.path) g1 s _ refl
            (no_follow_read-ReadOpen host s g1 temp.marker.path)
            (λ g2 p2 opened marker.
              Runs-if (still host s) _ g2 s (same_marker host temp opened) _ _
                (λ same.
                  Runs-still host (λ t. t ≡ s)
                    (λ g st. Private host temp.place.path (some temp.place) st g) _ _
                    (assert_private_directory host temp.place.path (some temp.place)) g2 s refl
                    (assert_private_directory-Private host s g2 temp.place.path (some temp.place))
                    (λ g3 p3 place_stat place. (
                      refl,
                      (
                        refl,
                        record {
                          root_stat = root_stat;
                          root = Private-⊑ host _ _ _ (⊑_trans p2 p3) root;
                          opened = opened;
                          marker = ReadOpen-⊑ host _ _ p3 marker;
                          same = same_marker-IsMarker temp opened same;
                          place_stat = place_stat;
                          place = place;
                        },
                      ),
                    )))
                (λ e. refl)))

  -- The remembered directory is trusted, and the result is its path.
  abbrev pub Remembered : Session → Text → History → Type 0
  Remembered s path g =
      (temp : TempDirectory) × (s.temp_directory ≡ some temp)
      × (path ≡ temp.place.path)
      × Trusted temp g

  pub Remembered-⊑ :
      (s : Session) (path : Text) {h g : History}
      → h ⊑ g
      → Remembered s path h
      → Remembered s path g
  Remembered-⊑ s path p (temp, e, f, t) = (temp, e, f, Trusted-⊑ temp p t)

  validate_remembered-Remembered :
      (h : History) (s : Session) (o : Option TempDirectory)
      → s.temp_directory ≡ o
      → Runs
          (still host s)
          (Still s (λ g path. Remembered s path g))
          h
          s
          (validate_remembered host o)
  unfolding validate_remembered
  validate_remembered-Remembered h s none e = refl
  validate_remembered-Remembered h s (some temp) e =
      Runs-imp (still host s) (still host s)
        (Still s (λ g path. (path ≡ temp.place.path) × Trusted temp g))
        (Still s (λ g path. Remembered s path g)) (λ g c x. x) (λ g t x y. y) (λ g x. x)
        (λ g t path x. (x.0, (temp, e, x.1.0, x.1.1))) (validate_known host temp) h s
        (validate_known-Trusted h s temp)

  pub validate_temp_directory-Remembered :
      (h : History) (s : Session)
      → Runs
          (still host s)
          (Still s (λ g path. Remembered s path g))
          h
          s
          (validate_temp_directory host)
  unfolding validate_temp_directory
  validate_temp_directory-Remembered h s = validate_remembered-Remembered h s s.temp_directory refl

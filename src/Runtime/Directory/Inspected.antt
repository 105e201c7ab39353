-- ===== src/Runtime/Directory/Inspected.antt =====
-- What the inspection of a directory and the reading of a file show (assertPrivateDirectory,
-- noFollowRead and readRendezvous of npm/core/index.js).
use keyobject_aws_kms.Prelude.{
  ℕ, ◌≡◌, refl, inl, inr, Bool, true, false, Option, none, some, [], ◌∷◌, ◌&&◌, ◌==◌, In, Text,
  arith, Option-cases, and_sound, not-true, ==_iff, if◌then◌else◌,
}
use keyobject_aws_kms.Effects.{done, finally, ◌>>=◌}
use keyobject_aws_kms.Effects.Logic.{Seen, ◌⊑◌, Seen-⊑, Runs, Runs-if}
use keyobject_aws_kms.Runtime.Host.{
  Stat, permissions, Host, cloexec, creat, rdonly, nofollow, lstat, open_file, fstat, read_open,
  close, ok, Place, Session, History, sys,
}
use keyobject_aws_kms.Runtime.Directory.{
  Opened, uid_matches, is_at, is_private_directory, assert_private_directory, close_on_exec,
  no_follow_read, read_flags, is_marker, is_directory_name, directory_of, read_rendezvous,
}
use keyobject_aws_kms.Runtime.Logic.{
  still, answered, Runs-sys, Runs-wrapped, Still, Runs-still_try, Runs-still_wrapped, Runs-still,
}

module _ (host : Host) where
  abbrev OwnerOf : Option ℕ → Stat → Type 0
  OwnerOf none st = Unit
  OwnerOf (some uid) st = st.uid ≡ uid

  -- The owner is the user of the process, where the process has one.
  abbrev pub IsOwned : Stat → Type 0
  IsOwned st = OwnerOf host.getuid st

  pub uid_matches_sound : (st : Stat) → uid_matches host st ≡ true → IsOwned st
  unfolding uid_matches
  uid_matches_sound st h = elim (Option-cases host.getuid) [
    | inl e ↦ rw e tt
    | inr (uid, e) ↦
        let same : (st.uid == uid) ≡ true = rw e at h in rw e ((==_iff st.uid uid).0 same)
  ]

  abbrev IsAt : Stat → Option Place → Type 0
  IsAt st none = Unit
  IsAt st (some place) = (st.dev ≡ place.dev) × (st.ino ≡ place.ino)

  is_at_sound :
      (st : Stat) (expected : Option Place) → is_at host st expected ≡ true → IsAt st expected
  is_at_sound st none h = tt
  is_at_sound st (some place) h =
      let (dev, ino) = and_sound _ _ h in ((==_iff _ _).0 dev, (==_iff _ _).0 ino)

  -- `lstat` showed a directory, not a link, that only its owner may use, and the expected one where one
  -- is expected.
  pub record Private (path : Text) (expected : Option Place) (st : Stat) (h : History)
      : Type 0 where
    pub seen : Seen (record { request = lstat path; answer = ok st }) h
    pub directory : st.is_directory ≡ true
    pub no_link : st.is_symbolic_link ≡ false
    pub owned : IsOwned st
    pub mode : permissions st ≡ 448
    pub place : IsAt st expected

  is_private_directory-Private :
      (path : Text) (expected : Option Place) (st : Stat) (h : History)
      → Seen (record { request = lstat path; answer = ok st }) h
      → is_private_directory host st expected ≡ true
      → Private path expected st h
  unfolding is_private_directory
  is_private_directory-Private path expected st h seen x =
      let (rest4, place) = and_sound _ _ x in
      let (rest3, mode) = and_sound _ _ rest4 in
      let (rest2, owned) = and_sound _ _ rest3 in
      let (directory, no_link) = and_sound _ _ rest2 in
      record {
        seen = seen;
        directory = directory;
        no_link = not-true _ no_link;
        owned = uid_matches_sound st owned;
        mode = (==_iff _ _).0 mode;
        place = is_at_sound st expected place;
      }

  -- A file was opened without following a symbolic link, and what was read of the open file.
  abbrev pub ReadOpen : Text → Opened → History → Type 0
  ReadOpen path (st, bytes) h =
      (fd : ℕ) × Seen (record { request = open_file path (read_flags host) none; answer = ok fd }) h
      × Seen (record { request = fstat fd; answer = ok st }) h
      × Seen (record { request = read_open fd; answer = ok bytes }) h

  pub Private-⊑ :
      (path : Text) (expected : Option Place) (st : Stat) {h g : History}
      → h ⊑ g
      → Private path expected st h
      → Private path expected st g
  Private-⊑ path expected st p x = record {
    seen = Seen-⊑ _ p x.seen;
    directory = x.directory;
    no_link = x.no_link;
    owned = x.owned;
    mode = x.mode;
    place = x.place;
  }

  pub ReadOpen-⊑ :
      (path : Text) (opened : Opened) {h g : History}
      → h ⊑ g
      → ReadOpen path opened h
      → ReadOpen path opened g
  ReadOpen-⊑ path opened p (fd, o, f, r) = (fd, Seen-⊑ _ p o, Seen-⊑ _ p f, Seen-⊑ _ p r)

  read_flags-not_creat : ¬ In creat (read_flags host)
  unfolding close_on_exec
  read_flags-not_creat x = not_creat host.o_cloexec x
    where
      not_creat : (b : Bool) → ¬ In creat (rdonly ∷ nofollow ∷ (if b then cloexec ∷ [] else []))
      not_creat true x = ground (arith, x)
      not_creat false x = ground (arith, x)

  module _ (s : Session) where
    pub assert_private_directory-Private :
        (h : History) (path : Text) (expected : Option Place)
        → Runs
            (still host s)
            (Still s (λ g st. Private path expected st g))
            h
            s
            (assert_private_directory host path expected)
    unfolding assert_private_directory
    assert_private_directory-Private h path expected =
        Runs-wrapped (still host s) _ h s (lstat path) _ _ tt
          (λ st.
            Runs-if (still host s) _ _ s (is_private_directory host st expected) _ _
              (λ e. (refl, is_private_directory-Private path expected st _ (inl refl) e))
              (λ e. refl))
          (λ e. refl)

    pub no_follow_read-ReadOpen :
        (h : History) (path : Text)
        → Runs
            (still host s)
            (Still s (λ g opened. ReadOpen path opened g))
            h
            s
            (no_follow_read host path)
    unfolding no_follow_read
    no_follow_read-ReadOpen h path =
        Runs-if (still host s) _ h s host.o_nofollow _ _
          (λ e.
            Runs-sys (still host s) _ h s (open_file path (read_flags host) none) _
              (inl refl, inr (inl refl), read_flags-not_creat) (λ fd. read_and_close-ReadOpen fd)
              (λ e. refl))
          (λ e. refl)
      where
        Both : ℕ → History → Opened → Type 0
        Both fd g (st, bytes) =
            Seen (answered (fstat fd) st) g × Seen (answered (read_open fd) bytes) g

        read_both-Both :
            (fd : ℕ) (g : History)
            → Runs
                (still host s)
                (Still s (Both fd))
                g
                s
                (sys (fstat fd) >>= (λ st. sys (read_open fd) >>= (λ bytes. done (st, bytes))))
        read_both-Both fd g =
            Runs-sys (still host s) _ g s (fstat fd) _ tt
              (λ st.
                Runs-sys (still host s) _ _ s (read_open fd) _ tt
                  (λ bytes. (refl, (inr (inl refl), inl refl))) (λ e. refl))
              (λ e. refl)

        read_and_close-ReadOpen :
            (fd : ℕ)
            → Runs
                (still host s)
                (Still s (λ g opened. ReadOpen path opened g))
                (answered (open_file path (read_flags host) none) fd ∷ h)
                s
                (finally
                  (sys (fstat fd) >>= (λ st. sys (read_open fd) >>= (λ bytes. done (st, bytes))))
                  (sys (close fd)))
        read_and_close-ReadOpen fd =
            let opened = answered (open_file path (read_flags host) none) fd ∷ h in
            Runs-still_try host (λ t. t ≡ s) (Both fd) _ _ _ opened s _ (read_both-Both fd opened)
              (λ g p a both.
                Runs-sys (still host s) _ g s (close fd) _ tt
                  (λ u. (refl, (fd, inr (Seen-⊑ _ p (inl refl)), inr both.0, inr both.1)))
                  (λ e. refl))
              (λ g p e. Runs-sys (still host s) _ g s (close fd) _ tt (λ u. refl) (λ e. refl))

    pub read_rendezvous-Still :
        (h : History) (root : Place) (marker_path : Text)
        → Runs (still host s) (Still s (λ g temp. Unit)) h s (read_rendezvous host root marker_path)
    unfolding read_rendezvous directory_of
    read_rendezvous-Still h root marker_path =
        Runs-still_wrapped host (λ t. t ≡ s) (λ g opened. ReadOpen marker_path opened g) _ _
          (no_follow_read host marker_path) h s _ refl (no_follow_read-ReadOpen h marker_path)
          (λ g p opened read.
            Runs-if (still host s) _ g s
              (is_marker host (opened.0) && is_directory_name host (host.decode (opened.1))) _ _
              (λ e.
                Runs-still host (λ t. t ≡ s)
                  (λ u st. Private (host.join root.path (host.decode (opened.1))) none st u) _ _
                  (assert_private_directory host (host.join root.path (host.decode (opened.1)))
                    none)
                  g s refl (assert_private_directory-Private g _ none) (λ u q st x. (refl, tt)))
              (λ e. refl))

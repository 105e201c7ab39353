-- ===== src/Runtime/Rendezvous/Published.antt =====
-- The publication of a private directory removes only what it made itself (rendezvousRoot and
-- publishRendezvous of npm/core/index.js).
use keyobject_aws_kms.Prelude.{
  ℕ, ◌≡◌, refl, inl, inr, Bool, true, false, not, Option, none, some, [], ◌∷◌, Text, codes, subst,
}
use keyobject_aws_kms.Effects.Logic.{◌⊑◌, same, newer, Seen-⊑, ⊑_trans, Runs, Runs-if}
use keyobject_aws_kms.Runtime.Host.{
  Failure, has_code, Host, Request, open_file, write_open, fchmod, fsync, close, link, unlink,
  rmdir, mkdtemp, chmod, Place, Session, History, Script, sys,
}
use keyobject_aws_kms.Runtime.Directory.{best_effort, assert_private_directory, directory_prefix}
use keyobject_aws_kms.Runtime.Directory.Inspected.{
  Private, assert_private_directory-Private, read_rendezvous-Still,
}
use keyobject_aws_kms.Runtime.Rendezvous.{
  Locals, each, create_flags, clean_up, recover, secure_candidate, write_marker, publish_linked,
  publish_written, publish_opened, publish_secured, publish_candidate, publish_rendezvous,
}
use keyobject_aws_kms.Runtime.Logic.{
  CreatedFile, CreatedDirectory, Owned, still, Still, Runs-try, Runs-sys, Runs-last, Runs-still_try,
  Still-bind, Exclusive, answered,
}

-- Nothing is said of the result.
abbrev pub Any : {A : Type 0} → History → A → Type 0
Any g a = Unit

pub CreatedFile-⊑ :
    (path : Text) (fd : ℕ) {h g : History} → h ⊑ g → CreatedFile path fd h → CreatedFile path fd g
CreatedFile-⊑ path fd p (flags, e, s) = (flags, e, Seen-⊑ _ p s)

CreatedDirectory-⊑ :
    (path : Text) {h g : History} → h ⊑ g → CreatedDirectory path h → CreatedDirectory path g
CreatedDirectory-⊑ path p (inl s) = inl (Seen-⊑ _ p s)
CreatedDirectory-⊑ path p (inr (prefix, s)) = inr (prefix, Seen-⊑ _ p s)

module _ (host : Host) where
  pub create_flags-Exclusive : Exclusive (create_flags host)
  create_flags-Exclusive = (inr (inl refl), inr (inr (inl refl)), inr (inr (inr (inl refl))))

  module _ (s : Session) where
    pub best_effort-Any :
        (c : Request) (h : History)
        → Owned host h c
        → Runs (still host s) (Still s Any) h s (best_effort (sys c))
    unfolding best_effort
    best_effort-Any c h owned =
        Runs-try (still host s) (Still s Any) h s c _ _ owned (λ a. (refl, tt)) (λ e. (refl, tt))

    each-Any :
        {A : Type 0} (o : Option A) (f : A → Script (Unit {0})) (h : History)
        → ((a : A) → o ≡ some a → Runs (still host s) (Still s Any) h s (f a))
        → Runs (still host s) (Still s Any) h s (each o f)
    each-Any none f h r = (refl, tt)
    each-Any (some a) f h r = r a refl

    -- What the error handling may remove was made before.
    abbrev Made : Locals → History → Type 0
    Made locals h =
        ((path : Text)
          → locals.publication ≡ some path
          → (directory name : Text) × (path ≡ host.join directory name)
            × CreatedDirectory directory h)
        × ((path : Text) → locals.candidate ≡ some path → CreatedDirectory path h)

    clean_up-Any :
        (locals : Locals) (h : History)
        → Made locals h
        → Runs (still host s) (Still s Any) h s (clean_up host locals)
    unfolding clean_up
    clean_up-Any locals h made =
        Still-bind host Any Any _ _ h s
          (each-Any locals.fd _ h (λ fd e. best_effort-Any (close fd) h tt))
          (λ g1 p1 u x.
            Still-bind host Any Any _ _ g1 s
              (Runs-if (still host s) _ g1 s (not locals.published) _ _
                (λ n. each-Any locals.publication _ g1 (λ path e.
                  let (d, name, same_path, c) = made.0 path e in
                  best_effort-Any (unlink path) g1
                    (inr (d, name, same_path, CreatedDirectory-⊑ d p1 c))))
                (λ n. (refl, tt)))
              (λ g2 p2 u x.
                Runs-if (still host s) _ g2 s (not locals.published) _ _
                  (λ n. each-Any locals.candidate _ g2 (λ path e.
                    best_effort-Any (rmdir path) g2
                      (CreatedDirectory-⊑ path (⊑_trans p1 p2) (made.1 path e))))
                  (λ n. (refl, tt))))

    secure_candidate-Any :
        (candidate : Text) (h : History)
        → CreatedDirectory candidate h
        → Runs (still host s) (Still s Any) h s (secure_candidate host candidate)
    unfolding secure_candidate
    secure_candidate-Any candidate h made =
        Runs-sys (still host s) (Still s Any) h s (chmod candidate 448) _ (refl, made)
          (λ u.
            Still-bind host (λ g st. Private host candidate none st g) Any _
              (assert_private_directory host candidate none) _ s
              (assert_private_directory-Private host s _ candidate none) (λ g p st x. (refl, tt)))
          (λ e. refl)

    write_marker-Any :
        (fd : ℕ) (path candidate : Text) (h : History)
        → CreatedFile path fd h
        → Runs (still host s) (Still s Any) h s (write_marker host fd candidate)
    unfolding write_marker
    write_marker-Any fd path candidate h made =
        Runs-sys (still host s) (Still s Any) h s (write_open fd _) _ (path, made)
          (λ u1.
            Runs-sys (still host s) (Still s Any) _ s (fchmod fd 256) _
              ((path, CreatedFile-⊑ path fd (newer _ same) made), inl refl)
              (λ u2.
                Runs-sys (still host s) (Still s Any) _ s (fsync fd) _ tt
                  (λ u3.
                    Runs-last (still host s) (close fd) (Still s Any) _ s tt (λ u4. (refl, tt))
                      (λ e. refl))
                  (λ e. refl))
              (λ e. refl))
          (λ e. refl)

    module _ (root : Place) (marker_path : Text) where
      recover-Any :
          (locals : Locals) (cause : Failure) (h : History)
          → Made locals h
          → Runs (still host s) (Still s Any) h s (recover host root marker_path locals cause)
      unfolding recover
      recover-Any locals cause h made =
          Still-bind host Any Any _ _ h s (clean_up-Any locals h made) (λ g p u x.
            Runs-if (still host s) _ g s (has_code cause (codes "EEXIST")) _ _
              (λ e. read_rendezvous-Still host s g root marker_path) (λ e. refl))

      -- The directory was made, and its marker is known by a path inside.
      module _ (candidate name : Text) where
        abbrev publication : Text
        publication = host.join candidate name

        unpublished-Any :
            (fd : Option ℕ) (cause : Failure) (h : History)
            → CreatedDirectory candidate h
            → Runs (still host s) (Still s Any) h s (
                recover host root marker_path
                  (record {
                    candidate = some candidate;
                    publication = some publication;
                    fd = fd;
                    published = false;
                  })
                  cause)
        unpublished-Any fd cause h made = recover-Any _ cause h (
          (λ path e. (candidate, name, cc e, made)),
          (λ path e. subst (λ p. CreatedDirectory p h) (cc e) made),
        )

        named_only-Any :
            (published : Bool) (cause : Failure) (h : History)
            → CreatedDirectory candidate h
            → Runs (still host s) (Still s Any) h s (
                recover host root marker_path
                  (record {
                    candidate = some candidate;
                    publication = none;
                    fd = none;
                    published = published;
                  })
                  cause)
        named_only-Any published cause h made =
            recover-Any _ cause h
              ((λ path e. absurd (cc e)), (λ path e. subst (λ p. CreatedDirectory p h) (cc e) made))

        publish_linked-Any :
            (h : History)
            → CreatedDirectory candidate h
            → Runs
                (still host s)
                (Still s Any)
                h
                s
                (publish_linked host root marker_path candidate publication)
        unfolding publish_linked
        publish_linked-Any h made =
            Still-bind host Any Any _ _ h s
              (best_effort-Any (unlink publication) h (inr (candidate, name, refl, made)))
              (λ g p u x.
                Runs-still_try host (λ t. t ≡ s) Any (Still s Any) _ _ g s _
                  (read_rendezvous-Still host s g root marker_path) (λ g2 p2 temp x. (refl, tt))
                  (λ g2 p2 e.
                    named_only-Any true e g2 (CreatedDirectory-⊑ candidate (⊑_trans p p2) made)))

        publish_opened-Any :
            (fd : ℕ) (h : History)
            → CreatedDirectory candidate h
            → CreatedFile publication fd h
            → Runs
                (still host s)
                (Still s Any)
                h
                s
                (publish_opened host root marker_path candidate publication fd)
        unfolding publish_opened publish_written
        publish_opened-Any fd h made created =
            Runs-still_try host (λ t. t ≡ s) Any (Still s Any) _ _ h s _
              (write_marker-Any fd publication candidate h created)
              (λ g p u x.
                Runs-try (still host s) (Still s Any) g s (link publication marker_path) _ _
                  (fd, CreatedFile-⊑ publication fd p created)
                  (λ u. publish_linked-Any _ (CreatedDirectory-⊑ candidate (newer _ p) made))
                  (λ e. unpublished-Any none e _ (CreatedDirectory-⊑ candidate (newer _ p) made)))
              (λ g p e. unpublished-Any (some fd) e g (CreatedDirectory-⊑ candidate p made))

        publish_secured-Any :
            (h : History)
            → CreatedDirectory candidate h
            → Runs
                (still host s)
                (Still s Any)
                h
                s
                (publish_secured host root marker_path candidate publication)
        unfolding publish_secured
        publish_secured-Any h made =
            Runs-try (still host s) (Still s Any) h s
              (open_file publication (create_flags host) (some 384)) _ _
              (create_flags-Exclusive, refl)
              (λ fd.
                publish_opened-Any fd _ (CreatedDirectory-⊑ candidate (newer _ same) made)
                  (create_flags host, create_flags-Exclusive, inl refl))
              (λ e. unpublished-Any none e _ (CreatedDirectory-⊑ candidate (newer _ same) made))

      pub publish_rendezvous-Any :
          (h : History)
          → Runs (still host s) (Still s Any) h s (publish_rendezvous host root marker_path)
      unfolding publish_rendezvous publish_candidate
      publish_rendezvous-Any h =
          Runs-try (still host s) (Still s Any) h s
            (mkdtemp (host.join root.path (directory_prefix host))) _ _ tt
            (λ candidate.
              let made : CreatedDirectory candidate
                  (answered (mkdtemp (host.join root.path (directory_prefix host))) candidate ∷ h) =
                inr (_, inl refl) in
              Runs-still_try host (λ t. t ≡ s) Any (Still s Any) _ _ _ s _
                (secure_candidate-Any candidate _ made)
                (λ g p u x.
                  publish_secured-Any candidate (codes ".publish") g
                    (CreatedDirectory-⊑ candidate p made))
                (λ g p e.
                  named_only-Any candidate [] false e g (CreatedDirectory-⊑ candidate p made)))
            (λ e. recover-Any _ e _ ((λ path e. absurd (cc e)), (λ path e. absurd (cc e))))

-- ===== src/Runtime/Rendezvous/Found.antt =====
-- The private directory, remembered or found (rendezvousRoot and privateTempDirectory of
-- npm/core/index.js).
use keyobject_aws_kms.Prelude.{ℕ, ◌≡◌, refl, inl, Option, none, some, Text, codes}
use keyobject_aws_kms.Effects.{◌>>=◌}
use keyobject_aws_kms.Effects.Logic.{Runs, Runs-if, Runs-bind}
use keyobject_aws_kms.Runtime.Host.{has_code, Host, mkdir, chmod, TempDirectory, Session, History}
use keyobject_aws_kms.Runtime.Directory.{assert_private_directory}
use keyobject_aws_kms.Runtime.Directory.Inspected.{
  Private, assert_private_directory-Private, read_rendezvous-Still,
}
use keyobject_aws_kms.Runtime.Rendezvous.{
  create_root, root_at, root_of, rendezvous_root, is_missing, find_temp_directory, remember,
  validate_temp_directory, remembered_or_found, private_temp_directory,
}
use keyobject_aws_kms.Runtime.Rendezvous.Trusted.{Remembered, validate_temp_directory-Remembered}
use keyobject_aws_kms.Runtime.Rendezvous.Published.{Any, publish_rendezvous-Any}
use keyobject_aws_kms.Runtime.Logic.{
  duty, still, Still, Runs-try, Runs-last, Runs-still, Runs-still_try, Still-bind, still-duty,
}

module _ (host : Host) where
  module _ (s : Session) where
    create_root-Any :
        (path : Text) (h : History) → Runs (still host s) (Still s Any) h s (create_root host path)
    unfolding create_root
    create_root-Any path h =
        Runs-try (still host s) (Still s Any) h s (mkdir path 448) _ _ refl
          (λ made.
            Runs-last (still host s) (chmod path 448) (Still s Any) _ s (refl, inl (inl refl))
              (λ u. (refl, tt)) (λ e. refl))
          (λ cause.
            Runs-if (still host s) (Still s Any) _ s (has_code cause (codes "EEXIST")) _ _
              (λ e. (refl, tt)) (λ e. refl))

    root_of-Any :
        (uid : Option ℕ) (h : History) → Runs (still host s) (Still s Any) h s (root_of host uid)
    unfolding root_of root_at
    root_of-Any none h = refl
    root_of-Any (some uid) h =
        Still-bind host Any Any _ (create_root host _) h s (create_root-Any _ h) (λ g p u x.
          Still-bind host (λ u st. Private host _ none st u) Any _
            (assert_private_directory host _ none) g s
            (assert_private_directory-Private host s g _ none) (λ g p st x. (refl, tt)))

    find_temp_directory-Any :
        (h : History) → Runs (still host s) (Still s Any) h s (find_temp_directory host)
    unfolding find_temp_directory rendezvous_root
    find_temp_directory-Any h =
        Still-bind host Any Any _ (rendezvous_root host) h s (root_of-Any host.getuid h)
          (λ g p root x.
            Runs-still_try host (λ t. t ≡ s) Any (Still s Any) _ _ g s _
              (read_rendezvous-Still host s g root _) (λ g2 p2 temp x. (refl, tt))
              (λ g2 p2 cause.
                Runs-if (still host s) (Still s Any) g2 s (is_missing cause) _ _
                  (λ e. publish_rendezvous-Any host s root _ g2) (λ e. refl)))

  module _ (I : Session → Type 0)
      (keeps : (t : Session) (temp : TempDirectory)
        → I t
        → t.temp_directory ≡ none
        → I (record t { temp_directory = some temp })) where
    -- `I` still holds, and the directory is the remembered one.
    abbrev pub Held : History → Session → Text → Type 0
    Held g t path = I t × Remembered host t path g

    validate-Held :
        (h : History) (s : Session)
        → I s
        → Runs (duty host I) Held h s (validate_temp_directory host)
    validate-Held h s i =
        still-duty host I (λ g path. Remembered host s path g) Held (validate_temp_directory host) h
          s i (validate_temp_directory-Remembered host h s) (λ g p path x. (i, x))

    pub private_temp_directory-Held :
        (h : History) (s : Session)
        → I s
        → Runs (duty host I) Held h s (private_temp_directory host)
    unfolding private_temp_directory remembered_or_found
    private_temp_directory-Held h s i = by_memory s.temp_directory refl
      where
        by_memory :
            (o : Option TempDirectory)
            → s.temp_directory ≡ o
            → Runs (duty host I) Held h s (remembered_or_found host o)
        by_memory (some temp) e = validate-Held h s i
        by_memory none e =
            Runs-bind (duty host I) (λ g t u. I t) Held _
              (find_temp_directory host >>= remember host) h s
              (Runs-still host I Any (λ g t u. I t) (remember host) (find_temp_directory host) h s i
                (find_temp_directory-Any s h) (λ g p temp x. keeps s temp i e))
              (λ g p t u x. validate-Held g t x)

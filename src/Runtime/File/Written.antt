-- ===== src/Runtime/File/Written.antt =====
-- Writing a private file (writePrivateFile of npm/core/index.js): it is created exclusively, taken away
-- again unless it is complete, and vetted before it is used; the fuel of the loops lasts.
use keyobject_aws_kms.Prelude.{
  ℕ, zero, suc, ◌+◌, ◌≤◌, ◌≡◌, refl, ◌⊎◌, inl, Bool, true, false, Option, none, some, ◌∷◌, Text,
  codes, arith, if◌then◌else◌,
}
use keyobject_aws_kms.Effects.{done, throw, ◌>>◌}
use keyobject_aws_kms.Effects.Logic.{same, newer, Runs, Runs-if, Runs-bind}
use keyobject_aws_kms.Runtime.Host.{
  Bytes, Failure, has_code, Host, open_file, write_open, fchmod, fsync, close, unlink, now,
  PrivateFile, TempDirectory, Session, History, Script, sys,
}
use keyobject_aws_kms.Runtime.Directory.{best_effort}
use keyobject_aws_kms.Runtime.Rendezvous.{create_flags, private_temp_directory}
use keyobject_aws_kms.Runtime.Rendezvous.Trusted.{Remembered, Remembered-⊑}
use keyobject_aws_kms.Runtime.Rendezvous.Published.{
  Any, CreatedFile-⊑, create_flags-Exclusive, best_effort-Any,
}
use keyobject_aws_kms.Runtime.Rendezvous.Found.{private_temp_directory-Held}
use keyobject_aws_kms.Runtime.File.{
  publication_timeout, fill, abandon, write_created, create_new, adopt, create_failed, create_loop,
  create_at, write_private_file, await_private_file,
}
use keyobject_aws_kms.Runtime.File.Vetted.{Vetted, IsFileOf, private_file_snapshot-IsFileOf}
use keyobject_aws_kms.Runtime.File.Awaited.{Waited, Enough, await_private_file-Waited}
use keyobject_aws_kms.Runtime.Logic.{
  CreatedFile, duty, still, Still, Runs-try, Runs-sys, Runs-last, Runs-still_try, Still-bind,
  still-duty, answered,
}

-- The modes that a finished file may have.
abbrev pub IsFinal : ℕ → Type 0
IsFinal mode = (mode ≡ 256) ⊎ (mode ≡ 320)

module _ (host : Host) (path : Text) (bytes : Bytes) (mode : ℕ) (final : IsFinal mode) where
  module _ (s : Session) where
    fill-Any :
        (fd : ℕ) (h : History)
        → CreatedFile path fd h
        → Runs (still host s) (Still s Any) h s (fill host fd bytes mode)
    unfolding fill
    fill-Any fd h made =
        Runs-sys (still host s) (Still s Any) h s (write_open fd bytes) _ (path, made)
          (λ u1.
            Runs-sys (still host s) (Still s Any) _ s (fsync fd) _ tt
              (λ u2.
                Runs-last (still host s) (fchmod fd mode) (Still s Any) _ s
                  ((path, CreatedFile-⊑ path fd (newer _ (newer _ same)) made), final)
                  (λ u3. (refl, tt)) (λ e. refl))
              (λ e. refl))
          (λ e. refl)

    abandon-Any :
        (fd : ℕ) (published : Bool) (cause : Failure) (h : History)
        → CreatedFile path fd h
        → Runs (still host s) (Still s Any) h s (abandon host fd path published cause)
    unfolding abandon
    abandon-Any fd published cause h made =
        Still-bind host Any Any (λ u. throw _)
          (best_effort (sys (close fd))
            >> (if published then done tt else best_effort (sys (unlink path))))
          h s
          (Still-bind host Any Any _ (best_effort (sys (close fd))) h s
            (best_effort-Any host s (close fd) h tt)
            (λ g p u x.
              Runs-if (still host s) (Still s Any) g s published _ _ (λ e. (refl, tt))
                (λ e.
                  best_effort-Any host s (unlink path) g (inl (fd, CreatedFile-⊑ path fd p made)))))
          (λ g p u x. refl)

    write_created-Any :
        (fd : ℕ) (h : History)
        → CreatedFile path fd h
        → Runs (still host s) (Still s Any) h s (write_created host path bytes mode fd)
    unfolding write_created
    write_created-Any fd h made =
        Runs-still_try host (λ t. t ≡ s) Any (Still s Any) _ _ h s _ (fill-Any fd h made)
          (λ g p u x.
            Runs-still_try host (λ t. t ≡ s) Any (Still s Any) _ (sys (fsync fd) >> sys (close fd))
              g s _
              (Runs-sys (still host s) (Still s Any) g s (fsync fd) _ tt
                (λ u1.
                  Runs-last (still host s) (close fd) (Still s Any) _ s tt (λ u2. (refl, tt))
                    (λ e. refl))
                (λ e. refl))
              (λ g2 p2 u x. (refl, tt))
              (λ g2 p2 e.
                abandon-Any fd true e g2 (CreatedFile-⊑ path fd p2 (CreatedFile-⊑ path fd p made))))
          (λ g p e. abandon-Any fd false e g (CreatedFile-⊑ path fd p made))

    -- A file with this content, vetted.
    abbrev pub Ready : History → PrivateFile → Type 0
    Ready g file = IsFileOf host path bytes mode file × Vetted host file g

    create_new-Ready :
        (rounds fd : ℕ) (h : History)
        → CreatedFile path fd h
        → Runs (still host s) (Still s Ready) h s (create_new host rounds path bytes mode fd)
    unfolding create_new
    create_new-Ready rounds fd h made =
        Still-bind host Any Ready _ (write_created host path bytes mode fd) h s
          (write_created-Any fd h made)
          (λ g p u x. private_file_snapshot-IsFileOf host s g path bytes mode)

    module _ (rounds deadline : ℕ) where
      create_failed-Ready :
          (turns : ℕ) (later : Script PrivateFile) (cause : Failure) (h : History)
          → Enough host s path bytes mode deadline (suc turns) h
          → Enough host s path bytes mode deadline rounds h
          → ((g : History)
              → Enough host s path bytes mode deadline turns g
              → Enough host s path bytes mode deadline rounds g
              → Runs (still host s) (Still s Ready) g s later)
          → Runs
              (still host s)
              (Still s Ready)
              h
              s
              (create_failed host rounds path bytes mode deadline later cause)
      unfolding create_failed adopt
      create_failed-Ready turns later cause h turn enough next =
          Runs-if (still host s) (Still s Ready) h s (has_code cause (codes "EEXIST")) _ _
            (λ e.
              Still-bind host (Waited host s path bytes mode deadline h) Ready _
                (await_private_file host path bytes mode deadline rounds) h s
                (await_private_file-Waited host s path bytes mode deadline rounds h enough)
                (λ g p o waited. adopted g o waited))
            (λ e. refl)
        where
          adopted :
              (g : History) (o : Option PrivateFile)
              → Waited host s path bytes mode deadline h g o
              → Runs (still host s) (Still s Ready) g s (adopt host rounds path bytes mode later o)
          adopted g (some file) waited = (refl, waited)
          adopted g none (left, more) =
              next g
                (left, λ t. let (later_, first) = more t in let most = turn.1 first in omega arith)
                (
                  left,
                  λ t. let (later_, first) = more t in let most = enough.1 first in omega arith,
                )

      create_loop-Ready :
          (turns : ℕ) (h : History)
          → Enough host s path bytes mode deadline turns h
          → Enough host s path bytes mode deadline rounds h
          → Runs
              (still host s)
              (Still s Ready)
              h
              s
              (create_loop host rounds path bytes mode deadline turns)
      unfolding create_loop
      create_loop-Ready zero h turn enough =
          λ t. let least = turn.1 t in let most = turn.0 in absurd (omega arith)
      create_loop-Ready (suc turns) h turn enough =
          Runs-try (still host s) (Still s Ready) h s
            (open_file path (create_flags host) (some 384)) _ _ (create_flags-Exclusive host, refl)
            (λ fd.
              create_new-Ready rounds fd _
                (create_flags host, create_flags-Exclusive host, inl refl))
            (λ e.
              create_failed-Ready turns (create_loop host rounds path bytes mode deadline turns) e _
                (turn.0, λ t. turn.1 t.1) (enough.0, λ t. enough.1 t.1) (create_loop-Ready turns))

    create_at-Ready :
        (rounds : ℕ)
        → publication_timeout ≤ rounds
        → (h : History)
        → Runs (still host s) (Still s Ready) h s (create_at host rounds path bytes mode)
    unfolding create_at
    create_at-Ready rounds fuel h =
        Runs-if (still host s) (Still s Ready) h s host.o_nofollow _ _
          (λ e.
            Runs-sys (still host s) (Still s Ready) h s now _ tt
              (λ time.
                create_loop-Ready rounds (time + publication_timeout) rounds (answered now time ∷ h)
                  (omega arith, λ t. omega arith) (omega arith, λ t. omega arith))
              (λ e. refl))
          (λ e. refl)

-- The file is in the directory of the process, with this content, and vetted.
abbrev pub Placed :
    Host → (Session → Type 0) → Text → Bytes → ℕ → History → Session → PrivateFile → Type 0
Placed host I name bytes mode g t file =
    I t
    × (directory : Text) × Remembered host t directory g
    × IsFileOf host (host.join directory name) bytes mode file
    × Vetted host file g

module _ (host : Host) (I : Session → Type 0)
    (keeps : (t : Session) (temp : TempDirectory)
      → I t
      → t.temp_directory ≡ none
      → I (record t { temp_directory = some temp })) where
  pub write_private_file-Placed :
      (rounds : ℕ)
      → publication_timeout ≤ rounds
      → (name : Text) (bytes : Bytes) (mode : ℕ) → IsFinal mode
      → (h : History) (s : Session) → I s
      → Runs
          (duty host I)
          (Placed host I name bytes mode)
          h
          s
          (write_private_file host rounds name bytes mode)
  unfolding write_private_file
  write_private_file-Placed rounds fuel name bytes mode final h s i =
      Runs-bind (duty host I) (λ g t path. I t × Remembered host t path g)
        (Placed host I name bytes mode) _ (private_temp_directory host) h s
        (private_temp_directory-Held host I keeps h s i)
        (λ g p t directory held.
          still-duty host I (Ready host (host.join directory name) bytes mode final t)
            (Placed host I name bytes mode)
            (create_at host rounds (host.join directory name) bytes mode) g t held.0
            (create_at-Ready host (host.join directory name) bytes mode final t rounds fuel g)
            (λ g2 p2 file ready.
              (held.0, directory, Remembered-⊑ host t directory p2 held.1, ready.0, ready.1)))

-- ===== src/Runtime/Logic.antt =====
-- What the runtime owes at every call of the host, and the rules of its proofs. The clock, and the
-- files and directories that the process has made itself, are read off the history.
use keyobject_aws_kms.Prelude.{ℕ, ◌≡◌, refl, sym, subst, ◌⊎◌, Option, none, some, List, In, Text}
use keyobject_aws_kms.Effects.{done, throw, attempt}
use keyobject_aws_kms.Effects.Logic.{
  Seen, ◌⊑◌, Duty, Runs, Runs-attempt, Runs-imp, Runs-later, same,
}
use keyobject_aws_kms.Effects.Calls
use keyobject_aws_kms.Effects.Clock
pub use keyobject_aws_kms.Effects.Calls.{Runs-try, Runs-sys, Runs-wrapped, Runs-last}
use keyobject_aws_kms.Runtime.Host.{
  Failure, Flag, creat, excl, nofollow, rdonly, Host, Request, open_file, write_open, fchmod, link,
  unlink, rmdir, mkdir, mkdtemp, chmod, now, Reply, ok, Session, Script, Event, History, Result,
}

-- What an answer says of the clock.
abbrev pub reading : (c : Request) → Reply c → Option ℕ
reading now (ok time) = some time
reading _ _ = none

abbrev pub latest : History → ℕ
latest = Clock.latest reading

abbrev pub Ticks : History → Type 0
Ticks = Clock.Ticks reading

-- Not there before, and no symbolic link is followed.
abbrev pub Exclusive : List Flag → Type 0
Exclusive flags = In creat flags × In excl flags × In nofollow flags

-- The process itself created the file, and nobody else can open it.
abbrev pub CreatedFile : Text → ℕ → History → Type 0
CreatedFile path fd h =
    (flags : List Flag) × Exclusive flags
    × Seen (record { request = open_file path flags (some 384); answer = ok fd }) h

abbrev pub CreatedDirectory : Text → History → Type 0
CreatedDirectory path h =
    (Seen (record { request = mkdir path 448; answer = ok tt }) h)
    ⊎ ((prefix : Text) × Seen (record { request = mkdtemp prefix; answer = ok path }) h)

module _ (host : Host) where
  -- Descriptors are opened of files that are there to be read, or of new files with mode 0600, and no
  -- symbolic link is followed; `readFileSync`, which takes a path, is free. Only what the process created
  -- in this call is written, published or removed, and gets one of the modes 0400, 0500 and 0700.
  abbrev pub Owned : History → Request → Type 0
  Owned h (open_file path flags none) = In rdonly flags × In nofollow flags × ¬ In creat flags
  Owned h (open_file path flags (some mode)) = Exclusive flags × (mode ≡ 384)
  Owned h (write_open fd bytes) = (path : Text) × CreatedFile path fd h
  Owned h (fchmod fd mode) = ((path : Text) × CreatedFile path fd h) × ((mode ≡ 256) ⊎ (mode ≡ 320))
  Owned h (link path target) = (fd : ℕ) × CreatedFile path fd h
  Owned h (unlink path) =
      ((fd : ℕ) × CreatedFile path fd h)
      ⊎ ((directory name : Text) × (path ≡ host.join directory name) × CreatedDirectory directory h)
  Owned h (rmdir path) = CreatedDirectory path h
  Owned h (chmod path mode) = (mode ≡ 448) × CreatedDirectory path h
  Owned h (mkdir path mode) = mode ≡ 448
  Owned h _ = Unit

  module _ (I : Session → Type 0) where
    -- `I` holds of the variables also when an error is thrown, and the fuel is used up only where the
    -- clock stands still.
    abbrev pub duty : Duty Session Request Reply Failure
    duty = record { allowed = Owned; thrown = λ h s e. I s; out_of_fuel = λ h. ¬ Ticks h }

abbrev pub answered : (c : Request) → Result c → Event
answered = Calls.answered Failure Result

abbrev pub failing : Request → Failure → Event
failing = Calls.failing Failure Result

-- No variable is assigned.
abbrev pub still : Host → Session → Duty Session Request Reply Failure
still host s = duty host (λ t. t ≡ s)

-- The variables are not assigned, and `P` holds of the result.
abbrev pub Still : {A : Type 0} → Session → (History → A → Type 0) → History → Session → A → Type 0
Still s P g t a = (t ≡ s) × P g a

module _ (host : Host) (I : Session → Type 0) {A B : Type 0} (P : History → A → Type 0)
    (P' : History → Session → B → Type 0) (f : A → Script B) (m : Script A) (h : History)
    (s : Session) where
  -- The rule of `try` and `catch` where the body assigns no variable.
  pub Runs-still_try :
      (handler : Failure → Script B)
      → Runs (still host s) (Still s P) h s m
      → ((g : History) → h ⊑ g → (a : A) → P g a → Runs (duty host I) P' g s (f a))
      → ((g : History) → h ⊑ g → (e : Failure) → Runs (duty host I) P' g s (handler e))
      → Runs (duty host I) P' h s (attempt m f handler)
  Runs-still_try handler r good bad =
      Runs-attempt (duty host I) (λ g t e. t ≡ s) (Still s P) P' f handler m h s r
        (λ g p t a x. subst (λ u. Runs (duty host I) P' g u (f a)) (sym x.0) (good g p a x.1))
        (λ g p t e x. subst (λ u. Runs (duty host I) P' g u (handler e)) (sym x) (bad g p e))

  -- The rule of a sequence whose first part assigns no variable.
  pub Runs-still :
      I s
      → Runs (still host s) (Still s P) h s m
      → ((g : History) → h ⊑ g → (a : A) → P g a → Runs (duty host I) P' g s (f a))
      → Runs (duty host I) P' h s (attempt m f throw)
  Runs-still i r good = Runs-still_try throw r good (λ g p e. i)

  -- The same, where an error of the first part is thrown under another.
  pub Runs-still_wrapped :
      (wrap : Failure → Failure)
      → I s
      → Runs (still host s) (Still s P) h s m
      → ((g : History) → h ⊑ g → (a : A) → P g a → Runs (duty host I) P' g s (f a))
      → Runs (duty host I) P' h s (attempt (attempt m done (λ cause. throw (wrap cause))) f throw)
  Runs-still_wrapped wrap i r good =
      Runs-attempt (duty host I) (λ g t e. t ≡ s) (Still s P) P' f throw
        (attempt m done (λ cause. throw (wrap cause))) h s
        (Runs-attempt (still host s) (λ g t e. t ≡ s) (Still s P) (Still s P) done
          (λ cause. throw (wrap cause)) m h s r (λ g p t a x. x) (λ g p t e x. x))
        (λ g p t a x. subst (λ u. Runs (duty host I) P' g u (f a)) (sym x.0) (good g p a x.1))
        (λ g p t e x. subst I (sym x) i)

-- What assigns no variable keeps what holds of the variables.
pub still-duty :
    (host : Host) (I : Session → Type 0) {A : Type 0} (P : History → A → Type 0)
    (P' : History → Session → A → Type 0) (m : Script A) (h : History) (s : Session)
    → I s
    → Runs (still host s) (Still s P) h s m
    → ((g : History) → h ⊑ g → (a : A) → P g a → P' g s a)
    → Runs (duty host I) P' h s m
still-duty host I P P' m h s i r p =
    Runs-imp (still host s) (duty host I) (λ g t a. (h ⊑ g) × Still s P g t a) P' (λ g c x. x)
      (λ g t e x. subst I (sym x) i) (λ g x. x)
      (λ g t a x. subst (λ u. P' g u a) (sym x.1.0) (p g x.0 a x.1.1)) m h s
      (Runs-later (still host s) (Still s P) h m h s same r)

module _ (host : Host) {A B : Type 0} (P : History → A → Type 0) (P' : History → B → Type 0)
    (f : A → Script B) (m : Script A) (h : History) (s : Session) where
  -- The rule of a sequence that assigns no variable.
  pub Still-bind :
      Runs (still host s) (Still s P) h s m
      → ((g : History) → h ⊑ g → (a : A) → P g a → Runs (still host s) (Still s P') g s (f a))
      → Runs (still host s) (Still s P') h s (attempt m f throw)
  Still-bind r good = Runs-still host (λ t. t ≡ s) P (Still s P') f m h s refl r good

-- Less is known of the variables.
pub duty-imp :
    (host : Host) (I I' : Session → Type 0)
    → ((s : Session) → I s → I' s)
    → {A : Type 0} (P : History → Session → A → Type 0) (m : Script A) (h : History) (s : Session)
    → Runs (duty host I) P h s m
    → Runs (duty host I') P h s m
duty-imp host I I' less P m h s =
    Runs-imp (duty host I) (duty host I') P P (λ g c x. x) (λ g t e i. less t i) (λ g x. x)
      (λ g t a x. x) m h s

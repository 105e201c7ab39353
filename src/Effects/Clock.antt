-- ===== src/Effects/Clock.antt =====
-- The clock of a host, as a script has read it; `reading` says which answers are readings.
use keyobject_aws_kms.Prelude.{ℕ, ◌<◌, Option, none, some, [], ◌∷◌}
use keyobject_aws_kms.Effects.{Io, done, throw, stuck, call, read_state, assign, History}
use keyobject_aws_kms.Effects.Logic.{Duty, Runs}
use keyobject_aws_kms.Effects.Run.{Ending, returned, threw, ran_out, run}

abbrev or_before : Option ℕ → ℕ → ℕ
or_before none before = before
or_before (some time) before = time

abbrev pub IsLater : Option ℕ → ℕ → Type 0
IsLater none before = Unit
IsLater (some time) before = before < time

module _ {Q : Type 0} {R : Q → Type 0} (reading : (c : Q) → R c → Option ℕ) where
  -- The newest reading of the clock.
  abbrev pub latest : History Q R → ℕ
  latest [] = 0
  latest (e ∷ h) = or_before (reading e.request e.answer) (latest h)

  -- Every reading of the clock is later than the one before it.
  abbrev pub Ticks : History Q R → Type 0
  Ticks [] = Unit
  Ticks (e ∷ h) = IsLater (reading e.request e.answer) (latest h) × Ticks h

module _ {S Q : Type 0} {R : Q → Type 0} {E A : Type 0} where
  -- The script returned or threw.
  abbrev pub HasEnded : Ending S Q R E A → Type 0
  HasEnded (returned h s a) = Unit
  HasEnded (threw h s e) = Unit
  HasEnded (ran_out h) = ⊥

  module _ (Good : History Q R → Type 0) (host : History Q R → (c : Q) → R c)
      (stays : (h : History Q R) (c : Q)
        → Good h
        → Good (record { request = c; answer = host h c } ∷ h))
      (D : Duty S Q R E) (P : History Q R → S → A → Type 0)
      (fuel : (h : History Q R) → D.out_of_fuel h → ¬ Good h) where
    -- A script that uses up its fuel only where the clock does not go on ends where it does.
    pub Runs-ends :
        (m : Io S Q R E A) (h : History Q R) (s : S)
        → Good h
        → Runs D P h s m
        → HasEnded (run host h s m)
    Runs-ends (done a) h s t r = tt
    Runs-ends (throw e) h s t r = tt
    Runs-ends stuck h s t r = fuel h r t
    Runs-ends (call c k) h s t r =
        Runs-ends (k (host h c)) (record { request = c; answer = host h c } ∷ h) s (stays h c t)
          (r.1 (host h c))
    Runs-ends (read_state k) h s t r = Runs-ends (k s) h s t r
    Runs-ends (assign u m) h s t r = Runs-ends m h u t r

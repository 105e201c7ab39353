-- ===== src/Effects/Run.antt =====
-- A script against one host, whose answers may depend on all that happened before.
use keyobject_aws_kms.Prelude.{◌∷◌}
use keyobject_aws_kms.Effects.{Io, done, throw, stuck, call, read_state, assign, History}
use keyobject_aws_kms.Effects.Logic.{Duty, Runs}

-- How a script ends, with the history and the module's variables at that time.
pub data Ending (S Q : Type 0) (R : Q → Type 0) (E A : Type 0) : Type 0 where
  returned : History Q R → S → A → Ending S Q R E A
  threw : History Q R → S → E → Ending S Q R E A
  ran_out : History Q R → Ending S Q R E A

module _ {S Q : Type 0} {R : Q → Type 0} {E : Type 0} where
  module _ (host : History Q R → (c : Q) → R c) where
    abbrev pub run : {A : Type 0} → History Q R → S → Io S Q R E A → Ending S Q R E A
    run h s (done a) = returned h s a
    run h s (throw e) = threw h s e
    run h s stuck = ran_out h
    run h s (call c k) = run (record { request = c; answer = host h c } ∷ h) s (k (host h c))
    run h s (read_state k) = run h s (k s)
    run h s (assign t m) = run h t m

  module _ (D : Duty S Q R E) {A : Type 0} (P : History Q R → S → A → Type 0) where
    abbrev pub Meets : Ending S Q R E A → Type 0
    Meets (returned h s a) = P h s a
    Meets (threw h s e) = D.thrown h s e
    Meets (ran_out h) = D.out_of_fuel h

  module _ (D : Duty S Q R E) {A : Type 0} (P : History Q R → S → A → Type 0)
      (host : History Q R → (c : Q) → R c) where
    -- What the logic shows of a script holds however it ends with this host.
    pub Runs-run :
        (m : Io S Q R E A) (h : History Q R) (s : S) → Runs D P h s m → Meets D P (run host h s m)
    Runs-run (done a) h s r = r
    Runs-run (throw e) h s r = r
    Runs-run stuck h s r = r
    Runs-run (call c k) h s r =
        Runs-run (k (host h c)) (record { request = c; answer = host h c } ∷ h) s (r.1 (host h c))
    Runs-run (read_state k) h s r = Runs-run (k s) h s r
    Runs-run (assign t m) h s r = Runs-run m h t r

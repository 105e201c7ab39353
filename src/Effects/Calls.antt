-- ===== src/Effects/Calls.antt =====
-- Calls that return a result or throw: requests whose answer is one of the two, with the rules of their
-- proofs.
use keyobject_aws_kms.Prelude.{◌∷◌}
use keyobject_aws_kms.Effects.{Io, done, throw, call, attempt, Event, History}
use keyobject_aws_kms.Effects.Logic.{Duty, Runs}

-- A call returns, or throws.
pub data Answer (E A : Type 0) : Type 0 where
  ok : A → Answer E A
  failed : E → Answer E A

module _ {Q : Type 0} (E : Type 0) (Result : Q → Type 0) where
  abbrev pub Reply : Q → Type 0
  Reply c = Answer E (Result c)

  abbrev pub answered : (c : Q) → Result c → Event Q Reply
  answered c a = record { request = c; answer = ok a }

  abbrev pub failing : Q → E → Event Q Reply
  failing c e = record { request = c; answer = failed e }

module _ {S Q : Type 0} {Result : Q → Type 0} {E : Type 0} where
  abbrev settle : {A : Type 0} → Answer E A → Io S Q (Reply E Result) E A
  settle (ok a) = done a
  settle (failed e) = throw e

  -- A call that returns its result, or throws.
  unfoldable pub sys : (c : Q) → Io S Q (Reply E Result) E (Result c)
  sys c = call c settle

  module _ (D : Duty S Q (Reply E Result) E) {B : Type 0}
      (P : History Q (Reply E Result) → S → B → Type 0) (h : History Q (Reply E Result)) (s : S)
      (c : Q) where
    -- The rule of a call in `try`.
    pub Runs-try :
        (f : Result c → Io S Q (Reply E Result) E B) (handler : E → Io S Q (Reply E Result) E B)
        → D.allowed h c
        → ((a : Result c) → Runs D P (answered E Result c a ∷ h) s (f a))
        → ((e : E) → Runs D P (failing E Result c e ∷ h) s (handler e))
        → Runs D P h s (attempt (sys c) f handler)
    unfolding attempt sys
    Runs-try f handler allowed good bad = (
      allowed,
      λ r.
          elim r
            as (λ r.
              Runs D P (record { request = c; answer = r } ∷ h) s (attempt (settle r) f handler)) [
                | ok a ↦ good a
                | failed e ↦ bad e
              ],
    )

    -- The rule of a call whose error is thrown, as it is or under another.
    pub Runs-sys :
        (f : Result c → Io S Q (Reply E Result) E B)
        → D.allowed h c
        → ((a : Result c) → Runs D P (answered E Result c a ∷ h) s (f a))
        → ((e : E) → D.thrown (failing E Result c e ∷ h) s e)
        → Runs D P h s (attempt (sys c) f throw)
    Runs-sys f = Runs-try f throw

    pub Runs-wrapped :
        (wrap : E → E) (f : Result c → Io S Q (Reply E Result) E B)
        → D.allowed h c
        → ((a : Result c) → Runs D P (answered E Result c a ∷ h) s (f a))
        → ((e : E) → D.thrown (failing E Result c e ∷ h) s (wrap e))
        → Runs D P h s (attempt (attempt (sys c) done (λ cause. throw (wrap cause))) f throw)
    unfolding attempt sys
    Runs-wrapped wrap f allowed good bad = (
      allowed,
      λ r.
          elim r
            as (λ r.
              Runs D P (record { request = c; answer = r } ∷ h) s
                (attempt (attempt (settle r) done (λ cause. throw (wrap cause))) f throw)) [
                  | ok a ↦ good a
                  | failed e ↦ bad e
                ],
    )

  -- The rule of a call at the end.
  pub Runs-last :
      (D : Duty S Q (Reply E Result) E) (c : Q)
      (P : History Q (Reply E Result) → S → Result c → Type 0) (h : History Q (Reply E Result))
      (s : S)
      → D.allowed h c
      → ((a : Result c) → P (answered E Result c a ∷ h) s a)
      → ((e : E) → D.thrown (failing E Result c e ∷ h) s e)
      → Runs D P h s (sys c)
  unfolding sys
  Runs-last D c P h s allowed good bad = (
    allowed,
    λ r. elim r as (λ r. Runs D P (record { request = c; answer = r } ∷ h) s (settle r)) [
      | ok a ↦ good a
      | failed e ↦ bad e
    ],
  )

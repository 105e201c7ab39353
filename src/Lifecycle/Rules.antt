-- ===== src/Lifecycle/Rules.antt =====
-- Rules for the scripts of the release life cycle that only say which requests are made, and when.
use keyobject_aws_kms.Prelude.{
  Bool, true, false, not, ◌&&◌, Option, none, some, List, inl, refl, Text, codes, ◌++◌, ◌≡◌,
}
use keyobject_aws_kms.Effects.{done}
use keyobject_aws_kms.Effects.Logic.{Seen, Runs, Runs-if}
use keyobject_aws_kms.Effects.Calls.{Runs-sys}
use keyobject_aws_kms.Lifecycle.Machine.{
  Completed, Request, run, answered, History, Duties, fail, parsed, succeeded, command,
}

-- Nothing is said of the result.
abbrev pub Any : {A : Type 0} → History → Unit {0} → A → Type 0
Any g t a = Unit

-- A program that must succeed has.
abbrev pub MaySucceed : (allow_failure success : Bool) → Type 0
MaySucceed true success = Unit
MaySucceed false success = success ≡ true

module _ (Q : History → Request → Type 0) where
  abbrev pub rules : Duties
  rules = record { allowed = Q; thrown = λ h s e. Unit; out_of_fuel = λ h. ⊥ }

  pub parsed-Any : {A : Type 0} (o : Option A) (h : History) → Runs rules Any h tt (parsed o)
  parsed-Any none h = tt
  parsed-Any (some a) h = tt

  -- A program was run, and this is its result; it succeeded where it must.
  abbrev pub Ran : Text → List Text → Bool → History → Unit {0} → Completed → Type 0
  Ran name args allow_failure g t result =
      Seen (answered (run name args) result) g × MaySucceed allow_failure (succeeded result)

  passed :
      (allow_failure success : Bool)
      → (not success && not allow_failure) ≡ false
      → MaySucceed allow_failure success
  passed true success e = tt
  passed false true e = refl
  passed false false e = absurd (cc e)

  pub command-Ran :
      (name : Text) (args : List Text) (allow_failure : Bool) (h : History)
      → Q h (run name args)
      → Runs rules (Ran name args allow_failure) h tt (command name args allow_failure)
  unfolding command
  command-Ran name args allow_failure h allowed =
      Runs-sys rules (Ran name args allow_failure) h tt (run name args) _ allowed
        (λ result.
          Runs-if rules (Ran name args allow_failure) _ tt
            (not (succeeded result) && not allow_failure)
            (fail (name ++ codes " exited with a status")) (done result) (λ e. tt)
            (λ e. (inl refl, passed allow_failure (succeeded result) e)))
        (λ e. tt)

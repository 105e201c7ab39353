-- ===== src/Lifecycle/Clock.antt =====
-- The clock that waitForNpm of scripts/release-lifecycle.mjs reads (`Date.now`), in milliseconds: several
-- readings of one moment are equal.
use keyobject_aws_kms.Prelude.{ℕ, ◌≤◌, ◌<◌, Bool, true, false, Option, none, some, [], ◌∷◌, arith}
use keyobject_aws_kms.Effects.Logic.{◌⊑◌, same, newer}
use keyobject_aws_kms.Lifecycle.Machine.{Request, now, sleep, History, reading, latest}

abbrev slept_by : Request → Bool → Bool
slept_by now before = false
slept_by (sleep milliseconds) before = true
slept_by _ before = before

-- The script has slept since it last read the clock.
abbrev pub slept : History → Bool
slept [] = false
slept (e ∷ h) = slept_by e.request (slept h)

-- A reading that follows a sleep is later than the one before it; no reading is earlier.
abbrev pub IsNext : (after_sleep : Bool) → Option ℕ → ℕ → Type 0
IsNext after_sleep none before = Unit
IsNext true (some time) before = before < time
IsNext false (some time) before = before ≤ time

-- The clock never goes back, and goes on while the script sleeps.
abbrev pub GoesOn : History → Type 0
GoesOn [] = Unit
GoesOn (e ∷ h) = IsNext (slept h) (reading e.request e.answer) (latest h) × GoesOn h

abbrev reading_or : Option ℕ → ℕ → ℕ
reading_or none before = before
reading_or (some time) before = time

IsNext-≤ :
    (after_sleep : Bool) (o : Option ℕ) (before : ℕ)
    → IsNext after_sleep o before
    → before ≤ reading_or o before
IsNext-≤ after_sleep none before next = omega arith
IsNext-≤ true (some time) before next = omega arith
IsNext-≤ false (some time) before next = next

pub GoesOn-⊑ : {h g : History} → h ⊑ g → GoesOn g → (latest h ≤ latest g) × GoesOn h
GoesOn-⊑ same t = (omega arith, t)
GoesOn-⊑ {h} (newer {g} x p) (next, t) =
    let (older, first) = GoesOn-⊑ p t in
    let step = IsNext-≤ (slept g) (reading x.request x.answer) (latest g) next in
    (omega arith, first)

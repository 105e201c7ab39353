-- ===== src/Lifecycle/Npm/Available.antt =====
-- When the wait for the registry ends, and how (waitForNpm of scripts/release-lifecycle.mjs).
use keyobject_aws_kms.Prelude.{
  ℕ, zero, suc, ◌+◌, ◌≤◌, ◌<◌, ◌≡◌, refl, subst, some, true, ltb, List, [], ◌∷◌, All, Text, arith,
}
use keyobject_aws_kms.Effects.Logic.{
  ◌⊑◌, ⊑_trans, same, newer, Runs, Runs-if, Runs-bind, Runs-imp, Runs-grow,
}
use keyobject_aws_kms.Effects.Calls.{Runs-sys, Runs-last}
use keyobject_aws_kms.Effects.Run.{run}
use keyobject_aws_kms.Effects.Clock.{HasEnded, Runs-ends}
use keyobject_aws_kms.Lifecycle.Clock.{slept, IsNext, GoesOn, GoesOn-⊑}
use keyobject_aws_kms.Lifecycle.Machine.{
  Tools, Request, Reply, now, sleep, answered, Script, History, reading, latest,
}
use keyobject_aws_kms.Lifecycle.Rules.{rules}
use keyobject_aws_kms.Lifecycle.Payload.{Packed, inspect_payload}
use keyobject_aws_kms.Lifecycle.Payload.Evidence.{InspectedAs, InspectedAs-⊑}
use keyobject_aws_kms.Lifecycle.Payload.Inspected.{inspect_payload-InspectedAs}
use keyobject_aws_kms.Lifecycle.Npm.{
  poll, settled, within, pause, after_poll, poll_loop, wait_for_npm,
}
use keyobject_aws_kms.Lifecycle.Npm.Round.{
  IsQuiet, timed, IsAvailable, Available, AreAvailable, Told, poll-Told, settled-AreAvailable,
  All-IsAvailable-⊑,
}

-- The deadline is not over, and the fuel lasts until then.
abbrev Enough : ℕ → ℕ → History → Type 0
Enough deadline rounds h = GoesOn h → (latest h ≤ deadline) × (deadline < latest h + rounds)

module _ (tools : Tools) (version registry : Text) where
  module _ (deadline interval : ℕ) (packages : List Packed) where
    abbrev Post : History → Unit {0} → Unit {0} → Type 0
    Post g t u = All (IsAvailable tools version registry g) packages

    module _ (rounds : ℕ) (later : Script (Unit {0}))
        (next : (g : History) → Enough deadline rounds g → Runs timed Post g tt later) where
      within-Runs :
          (h g : History)
          → h ⊑ g
          → slept g ≡ true
          → Enough deadline (suc rounds) h
          → Runs timed Post g tt (within tools version registry deadline later)
      unfolding within
      within-Runs h g p after_sleep enough =
          Runs-sys timed Post g tt now _ tt
            (λ time.
              Runs-if timed Post _ tt (ltb time deadline) _ _
                (λ e. next (answered now time ∷ g) (λ (next_reading, t).
                  let later : latest g < time =
                    subst (λ b. IsNext b (some time) (latest g)) after_sleep next_reading in
                  let (older, first) = GoesOn-⊑ p t in
                  let (past, left) = enough first in (ground (arith, e), omega arith)))
                (λ e. tt))
            (λ e. tt)

      abbrev Slept : History → Unit {0} → Unit {0} → Type 0
      Slept g t u = slept g ≡ true

      pause-Slept :
          (h : History) → Runs timed Slept h tt (pause tools version registry deadline interval)
      unfolding pause
      pause-Slept h =
          Runs-sys timed Slept h tt now _ tt
            (λ time. Runs-last timed (sleep _) Slept _ tt tt (λ u. refl) (λ e. tt)) (λ e. tt)

      after_poll-Runs :
          (names : List Text) (h g : History)
          → h ⊑ g
          → Enough deadline (suc rounds) h
          → (names ≡ [] → All (IsAvailable tools version registry g) packages)
          → Runs timed Post g tt (after_poll tools version registry deadline interval later names)
      unfolding after_poll within
      after_poll-Runs [] h g p enough all = all refl
      after_poll-Runs (name ∷ names) h g p enough all =
          Runs-sys timed Post g tt now _ tt
            (λ time.
              Runs-if timed Post _ tt (ltb time deadline) _ _
                (λ e.
                  Runs-bind timed Slept Post _ (pause tools version registry deadline interval) _ tt
                    (pause-Slept _)
                    (λ g2 p2 t u after_sleep.
                      within-Runs h g2 (⊑_trans p (⊑_trans (newer _ same) p2)) after_sleep enough))
                (λ e. tt))
            (λ e. tt)

    poll_loop-Runs :
        (rounds : ℕ) (h : History)
        → Enough deadline rounds h
        → Runs timed Post h tt (poll_loop tools version registry deadline interval packages rounds)
    unfolding poll_loop
    poll_loop-Runs zero h enough = λ t. let (past, left) = enough t in absurd (omega arith)
    poll_loop-Runs (suc rounds) h enough =
        Runs-bind timed (λ g t results. Told tools version registry packages g results) Post _
          (poll tools version registry deadline packages) h tt
          (poll-Told tools version registry deadline packages h)
          (λ g p t results told.
            Runs-bind timed
              (λ g2 t names. names ≡ [] → All (IsAvailable tools version registry g2) packages) Post
              _ (settled tools version registry results) g tt
              (Runs-grow timed
                (λ g t names. names ≡ [] → AreAvailable tools version registry results)
                (λ g2 t names. names ≡ [] → All (IsAvailable tools version registry g2) packages)
                (settled tools version registry results) g tt
                (settled-AreAvailable tools version registry results g)
                (λ g2 p2 t names x e.
                  All-IsAvailable-⊑ tools version registry packages p2 (told (x e))))
              (λ g2 p2 t names all.
                after_poll-Runs rounds
                  (poll_loop tools version registry deadline interval packages rounds)
                  (poll_loop-Runs rounds) names h g2 (⊑_trans p p2) enough all))

  module _ (directory : Text) (timeout interval rounds : ℕ) (fuel : timeout < rounds) where
    -- Whatever the registry, `tar` and the file system answer, waitForNpm changes nothing, and it returns
    -- only after the attested payload was inspected and, for each of its packages, the registry has
    -- answered with that version and the integrity of the tarball that was read. Its fuel, one round
    -- more than the timeout has milliseconds, is used up only where the clock goes back, or stands still
    -- while the script sleeps.
    pub wait_for_npm-Available :
        Runs timed
          (λ g t u. Available tools version registry directory g)
          []
          tt
          (wait_for_npm tools version registry directory timeout interval rounds)
    unfolding wait_for_npm
    wait_for_npm-Available =
        Runs-bind timed (λ g t packages. InspectedAs tools directory version true packages g) Ends _
          (inspect_payload tools directory version true) [] tt
          (Runs-imp (rules IsQuiet) timed
            (λ g t packages. InspectedAs tools directory version true packages g)
            (λ g t packages. InspectedAs tools directory version true packages g) (λ h c x. x)
            (λ h t e x. x) (λ h x. absurd x) (λ g t packages x. x)
            (inspect_payload tools directory version true) [] tt
            (inspect_payload-InspectedAs tools IsQuiet (λ h path. tt) (λ h path. tt)
              (λ h args. refl) directory version true []))
          (λ g p t packages inspected.
            Runs-sys timed Ends g tt now _ tt
              (λ start.
                Runs-grow timed (Post (start + timeout) interval packages) Ends
                  (poll_loop tools version registry (start + timeout) interval packages rounds) _ tt
                  (poll_loop-Runs (start + timeout) interval packages rounds
                    (answered now start ∷ g) (λ t. (omega arith, omega arith)))
                  (λ g2 p2 t u all. (
                    packages,
                    InspectedAs-⊑ tools directory version true packages (⊑_trans (newer _ same) p2)
                        inspected,
                    all,
                  )))
              (λ e. tt))
      where
        Ends : History → Unit {0} → Unit {0} → Type 0
        Ends g t u = Available tools version registry directory g

    -- Where the clock never goes back, and a reading that follows a sleep is later than the one before it,
    -- waitForNpm ends, whatever the registry answers: it returns or it throws. Readings with no sleep
    -- between them may be equal.
    pub wait_for_npm_ends :
        (answers : (h : History) (c : Request) → Reply c)
        → ((h : History) (c : Request) → IsNext (slept h) (reading c (answers h c)) (latest h))
        → HasEnded (
            run answers [] tt
              (wait_for_npm tools version registry directory timeout interval rounds))
    wait_for_npm_ends answers clock =
        Runs-ends GoesOn answers (λ h c t. (clock h c, t)) timed
          (λ g t u. Available tools version registry directory g) (λ h x. x)
          (wait_for_npm tools version registry directory timeout interval rounds) [] tt tt
          wait_for_npm-Available

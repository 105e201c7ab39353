-- ===== src/Runtime/File/Awaited.antt =====
-- Waiting for the file of another isolate (awaitPrivateFile of npm/core/index.js): the loop ends before
-- its fuel does, where the clock goes on.
use keyobject_aws_kms.Prelude.{
  ℕ, zero, suc, ◌+◌, ◌≤◌, ◌<◌, ◌≡◌, refl, true, ltb, Option, none, some, ◌∷◌, Text, codes, arith,
}
use keyobject_aws_kms.Effects.Logic.{Runs, Runs-if, Runs-imp}
use keyobject_aws_kms.Runtime.Host.{
  Bytes, has_code, Stat, Host, lstat, now, wait, PrivateFile, Session, History, Script,
}
use keyobject_aws_kms.Runtime.File.{
  look_at, is_pending, after_look, await_turn, await_private_file, private_file_snapshot,
}
use keyobject_aws_kms.Runtime.File.Vetted.{Vetted, IsFileOf, private_file_snapshot-IsFileOf}
use keyobject_aws_kms.Runtime.Logic.{
  latest, Ticks, still, Still, Runs-try, Runs-sys, Still-bind, answered,
}

-- The clock was not read since.
abbrev pub SameClock : History → History → Type 0
SameClock h g = (latest g ≡ latest h) × (Ticks g → Ticks h)

module _ (host : Host) (s : Session) where
  look_at-SameClock :
      (h : History) (path : Text)
      → Runs (still host s) (Still s (λ g o. SameClock h g)) h s (look_at host path)
  unfolding look_at
  look_at-SameClock h path =
      Runs-try (still host s) (Still s (λ g o. SameClock h g)) h s (lstat path) _ _ tt
        (λ st. (refl, (refl, λ t. t.1)))
        (λ cause.
          Runs-if (still host s) _ _ s (has_code cause (codes "ENOENT")) _ _
            (λ e. (refl, (refl, λ t. t.1))) (λ e. refl))

  module _ (path : Text) (bytes : Bytes) (mode : ℕ) where
    -- Another isolate's file is complete, or it is gone and the deadline is not over.
    abbrev pub Waited : ℕ → History → History → Option PrivateFile → Type 0
    Waited deadline h g none =
        (latest g < deadline) × (Ticks g → (latest h + 1 ≤ latest g) × Ticks h)
    Waited deadline h g (some file) = IsFileOf host path bytes mode file × Vetted host file g

    -- There is time left, and the fuel lasts until the deadline.
    abbrev pub Enough : ℕ → ℕ → History → Type 0
    Enough deadline rounds h = (latest h < deadline) × (Ticks h → deadline ≤ latest h + rounds)

    later-Waited :
        (deadline : ℕ) (h g g2 : History) (o : Option PrivateFile)
        → (Ticks g → (latest h + 1 ≤ latest g) × Ticks h)
        → Waited deadline g g2 o
        → Waited deadline h g2 o
    later-Waited deadline h g g2 none e w = (
      w.0,
      λ t. let (less, before) = w.1 t in let (more, first) = e before in (omega arith, first),
    )
    later-Waited deadline h g g2 (some file) e w = w

    ticked :
        (h : History) (time : ℕ) (g : History)
        → SameClock (answered now time ∷ h) g
        → Ticks g
        → (latest h + 1 ≤ latest g) × Ticks h
    ticked h time g (same, before) t =
        let (less, first) = before t in (ground (arith, same, less), first)

    still-Enough :
        (deadline rounds : ℕ) (h : History) (time : ℕ) (g : History)
        → ltb time deadline ≡ true
        → Enough deadline (suc rounds) h
        → SameClock (answered now time ∷ h) g
        → Enough deadline rounds g
    still-Enough deadline rounds h time g e enough clock = (
      ground (arith, clock.0, e),
      λ t.
          let (more, first) = ticked h time g clock t in
          let left = enough.1 first in ground (arith, more, left),
    )

    module _ (deadline rounds : ℕ) (later : Script (Option PrivateFile))
        (next : (g : History)
          → Enough deadline rounds g
          → Runs (still host s) (Still s (Waited deadline g)) g s later) where
      after_look-Waited :
          (h : History) (time : ℕ)
          → ltb time deadline ≡ true
          → Enough deadline (suc rounds) h
          → (g : History) (o : Option Stat) → SameClock (answered now time ∷ h) g
          → Runs
              (still host s)
              (Still s (Waited deadline h))
              g
              s
              (after_look host path bytes mode later o)
      unfolding after_look
      after_look-Waited h time e enough g none clock =
          (refl, ((still-Enough deadline rounds h time g e enough clock).0, ticked h time g clock))
      after_look-Waited h time e enough g (some st) clock =
          Runs-if (still host s) _ g s (is_pending host st) _ _
            (λ pending.
              Runs-sys (still host s) (Still s (Waited deadline h)) g s (wait 5) _ tt
                (λ u.
                  Runs-imp (still host s) (still host s)
                    (Still s (Waited deadline (answered (wait 5) u ∷ g)))
                    (Still s (Waited deadline h)) (λ g c x. x) (λ g t x y. y) (λ g x. x)
                    (λ g2 t o x. (
                      x.0,
                      later-Waited deadline h (answered (wait 5) u ∷ g) g2 o
                          (λ t. ticked h time g clock t.1) x.1,
                    ))
                    later (answered (wait 5) u ∷ g) s
                    (next (answered (wait 5) u ∷ g) (
                      let left = still-Enough deadline rounds h time g e enough clock in
                      (left.0, λ t. left.1 t.1))))
                (λ e. refl))
            (λ complete.
              Still-bind host (λ g file. IsFileOf host path bytes mode file × Vetted host file g)
                (Waited deadline h) _ (private_file_snapshot host path bytes mode) g s
                (private_file_snapshot-IsFileOf host s g path bytes mode)
                (λ g2 p2 file x. (refl, x)))

      await_turn-Waited :
          (h : History) (time : ℕ)
          → Enough deadline (suc rounds) h
          → Runs
              (still host s)
              (Still s (Waited deadline h))
              (answered now time ∷ h)
              s
              (await_turn host path bytes mode deadline later time)
      unfolding await_turn
      await_turn-Waited h time enough =
          Runs-if (still host s) _ _ s (ltb time deadline) _ _
            (λ e.
              Still-bind host (λ g o. SameClock (answered now time ∷ h) g) (Waited deadline h) _
                (look_at host path) (answered now time ∷ h) s
                (look_at-SameClock (answered now time ∷ h) path)
                (λ g p o clock. after_look-Waited h time e enough g o clock))
            (λ e. refl)

    pub await_private_file-Waited :
        (deadline rounds : ℕ) (h : History)
        → Enough deadline rounds h
        → Runs
            (still host s)
            (Still s (Waited deadline h))
            h
            s
            (await_private_file host path bytes mode deadline rounds)
    unfolding await_private_file
    await_private_file-Waited deadline zero h enough =
        λ t. let least = enough.1 t in let most = enough.0 in absurd (omega arith)
    await_private_file-Waited deadline (suc rounds) h enough =
        Runs-sys (still host s) (Still s (Waited deadline h)) h s now _ tt
          (λ time.
            await_turn-Waited deadline rounds
              (await_private_file host path bytes mode deadline rounds)
              (await_private_file-Waited deadline rounds) h time enough)
          (λ e. refl)

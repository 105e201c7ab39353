-- ===== src/Kms/Cleanup/Whole.antt =====
-- `teardown` of scripts/real-kms-keys.mjs from its list of targets on, as a whole.
use keyobject_aws_kms.Prelude.{
  Bool, ◌⊎◌, ℕ, ◌≡◌, refl, true, false, List, [], ◌∷◌, Option, All, In, inl, inr, arith, not, ◌||◌,
  ◌==◌, is_empty, length,
}
use keyobject_aws_kms.Kms.Program.{done, throw, other_error}
use keyobject_aws_kms.Kms.Program.Logic.{History, ⊑_trans, Runs, Runs-if, Runs-bind}
use keyobject_aws_kms.Kms.Program.After.{Runs-imp}
use keyobject_aws_kms.Kms.MapLimit.{map_limit}
use keyobject_aws_kms.Kms.MapLimit.Results.{map_limit-Runs}
use keyobject_aws_kms.Kms.Teardown.{TeardownOptions, Target, Entry, preflight}
use keyobject_aws_kms.Kms.Cleanup.{
  active_entries, alias_entries, active_targets, total, report, delete_entry_alias, delete_key,
  delete_all, Schedules, cleanup,
}
use keyobject_aws_kms.Kms.Cleanup.Preflight.{Preflighted, Preflighted-Stays, preflight-Runs}
use keyobject_aws_kms.Kms.Cleanup.Deletion.{KeyResult}
use keyobject_aws_kms.Kms.Cleanup.Scheduling.{KeyResult-Stays}
use keyobject_aws_kms.Kms.Cleanup.Safety.{AllPassed-Stays, Allowed, Allowed-Stays, reads}
use keyobject_aws_kms.Kms.Cleanup.Outcomes.{
  Results, AllPassed-of_Results, entries_ok, All-Handled, alias_programs, key_programs, KeyResults,
  Removed, Removed-keys, Removed-All,
}

pub All-map :
    {A : Type 0} (P R : A → Type 0) → ((a : A) → P a → R a) → (xs : List A) → All P xs → All R xs
All-map P R f [] r = tt
All-map P R f (x ∷ xs) r = (f x r.0, All-map P R f xs r.1)

pub All-In : {A : Type 0} (xs : List A) → All (λ a. In a xs) xs
All-In [] = tt
All-In (x ∷ xs) =
    (inl refl, All-map (λ y. In y xs) (λ y. In y (x ∷ xs)) (λ y r. inr r) xs (All-In xs))

All-All : {A : Type 0} (P : A → Type 0) → ((a : A) → P a) → (xs : List A) → All P xs
All-All P f [] = tt
All-All P f (x ∷ xs) = (f x, All-All P f xs)

pub unless_dry : {P : Type 0} (dry : Bool) → (dry ≡ false → P) → (dry ≡ true) ⊎ P
unless_dry true f = inl refl
unless_dry false f = inr (f refl)

module _ (opts : TeardownOptions) (targets : List Target) where
  -- What `cleanup` returns, unless it is a dry run.
  abbrev pub ReturnedIfReal : History → ℕ → Type 0
  ReturnedIfReal h n = opts.aws.dry_run ≡ false → All (Removed opts targets h) targets

  report-Runs :
      (h : History) (a k n : ℕ)
      → (k ≡ 0 → ReturnedIfReal h n)
      → Runs (Allowed opts targets) ReturnedIfReal h (report a k n)
  unfolding report
  report-Runs h a k n done_ =
      Runs-if (Allowed opts targets) ReturnedIfReal h (not (a == 0) || not (k == 0))
        (throw (other_error "cleanup completed with failures")) (done n) (λ e. tt)
        (λ e. done_ (ground arith))

  delete_all-Runs :
      (schedules : Schedules) (results : List (Option Entry)) (g : History)
      → Results opts targets g targets results
      → All (λ t. In t targets) targets
      → Runs
          (Allowed opts targets)
          ReturnedIfReal
          g
          (delete_all opts schedules (active_entries results))
  unfolding delete_all
  delete_all-Runs schedules results g r inside =
      let entries = active_entries results in
      let ok = entries_ok opts targets g targets results inside r in
      let passed = AllPassed-of_Results opts targets g targets results r in
      Runs-bind (Allowed opts targets) (λ h ns. Unit) ReturnedIfReal _
        (map_limit schedules.aliases (alias_entries entries) opts.concurrency
          (λ e. delete_entry_alias opts e.0 e.1))
        g
        (Runs-imp (Allowed opts targets) (Allowed opts targets) _ (λ h ns. Unit) (λ h c q. q)
          (λ h ns o. tt) _ g
          (map_limit-Runs (Allowed opts targets) (Allowed-Stays opts targets) (λ e h n. Unit)
            (λ e n h k p u. tt) schedules.aliases (alias_entries entries) opts.concurrency
            (λ e. delete_entry_alias opts e.0 e.1) g
            (alias_programs opts targets g entries ok passed)))
        (λ h p ns u.
          Runs-bind (Allowed opts targets)
            (λ k ms. KeyResults opts targets k (active_targets entries) ms) ReturnedIfReal _
            (map_limit schedules.keys (active_targets entries) opts.concurrency (delete_key opts)) h
            (map_limit-Runs (Allowed opts targets) (Allowed-Stays opts targets)
              (λ t h n. KeyResult opts t h n) (KeyResult-Stays opts) schedules.keys
              (active_targets entries) opts.concurrency (delete_key opts) h
              (key_programs opts targets h entries ok (AllPassed-Stays opts targets g h p passed)))
            (λ k q ms r'. report-Runs k (total ns) (total ms) (length entries) (λ z real.
              Removed-All opts targets g k (active_targets entries) targets (⊑_trans p q)
                (All-Handled opts targets g targets results r)
                (Removed-keys opts targets k (active_targets entries) ms r' z real))))

  pub cleanup_real-Runs :
      (schedules : Schedules) (h : History)
      → Runs (Allowed opts targets) ReturnedIfReal h (cleanup opts schedules targets)
  unfolding cleanup
  cleanup_real-Runs schedules h =
      Runs-if (Allowed opts targets) ReturnedIfReal h (is_empty targets) (done 0) _
        (λ none_left real. all_of targets none_left)
        (λ some_left.
          Runs-bind (Allowed opts targets) (λ g results. Results opts targets g targets results)
            ReturnedIfReal (λ results. delete_all opts schedules (active_entries results))
            (map_limit schedules.preflights targets opts.concurrency (preflight opts)) h
            (map_limit-Runs (Allowed opts targets) (Allowed-Stays opts targets)
              (λ t h o. Preflighted opts t h o) (Preflighted-Stays opts) schedules.preflights
              targets opts.concurrency (preflight opts) h
              (All-All (λ t. Runs (Allowed opts targets) (Preflighted opts t) h (preflight opts t))
                (λ t. preflight-Runs opts (Allowed opts targets) (reads opts targets) t h) targets))
            (λ g p results r. delete_all-Runs schedules results g r (All-In targets)))
    where
      all_of : (ts : List Target) → is_empty ts ≡ true → All (Removed opts targets h) ts
      all_of [] e = tt
      all_of (t ∷ ts) e = absurd (cc e)

  -- What `cleanup` returns.
  abbrev pub Returned : History → ℕ → Type 0
  Returned h n = (opts.aws.dry_run ≡ true) ⊎ All (Removed opts targets h) targets

  -- `teardown` behind the collection of its targets, for all replies and all interleavings. It makes
  -- no call but reads and deletions. An alias is deleted only if it is the alias of one of the
  -- targets, a key is scheduled for deletion only if it is the key of one, and each only after every
  -- target has passed the preflight and after a read made since then has shown that the key is owned
  -- (and that the alias stands for it). When it returns and was not a dry run, each of the targets is
  -- unknown to KMS or waits for its deletion.
  pub cleanup-Runs :
      (schedules : Schedules) (h : History)
      → Runs (Allowed opts targets) Returned h (cleanup opts schedules targets)
  cleanup-Runs schedules h =
      Runs-imp (Allowed opts targets) (Allowed opts targets) ReturnedIfReal Returned (λ g c q. q)
        (λ g n r. unless_dry opts.aws.dry_run r) (cleanup opts schedules targets) h
        (cleanup_real-Runs schedules h)

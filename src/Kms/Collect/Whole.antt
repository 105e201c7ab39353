-- ===== src/Kms/Collect/Whole.antt =====
-- The whole of `teardown` of scripts/real-kms-keys.mjs.
use keyobject_aws_kms.Prelude.{
  ℕ, ◌≡◌, refl, sym, ap, subst, true, false, Option, none, some, List, [], ◌∷◌, map, inl, inr, ◌⊎◌,
  All, In, Text, is_empty,
}
use keyobject_aws_kms.Kms.Program.{Command, schedule_key_deletion, Request, done, ◌>>=◌}
use keyobject_aws_kms.Kms.Program.Logic.{History, Stays, Runs, Runs-if, Runs-bind}
use keyobject_aws_kms.Kms.Program.After.{Runs-imp, Runs-with}
use keyobject_aws_kms.Kms.Manifest.{Manifest, ManifestKey}
use keyobject_aws_kms.Kms.Validation.{ManifestFile, ReadManifest, thrown, returned}
use keyobject_aws_kms.Kms.Validation.Accepted.{IsOfRun}
use keyobject_aws_kms.Kms.Teardown.{TeardownOptions, Target, or_empty}
use keyobject_aws_kms.Kms.Teardown.Evidence.{IsReadOnly, asked, Answered, IsUnknown}
use keyobject_aws_kms.Kms.Cleanup.{Schedules, cleanup}
use keyobject_aws_kms.Kms.Cleanup.Deletion.{Sent}
use keyobject_aws_kms.Kms.Cleanup.Safety.{CleanupCall, Allowed, reads}
use keyobject_aws_kms.Kms.Cleanup.Outcomes.{Removed, Removed-of_In}
use keyobject_aws_kms.Kms.Cleanup.Whole.{ReturnedIfReal, unless_dry, cleanup_real-Runs}
use keyobject_aws_kms.Kms.Collect.{
  target_of, swept_target, add_all, entry_targets, manifest_entries, sweep_tagged, collect_targets,
  teardown_manifest, teardown_with, teardown,
}
use keyobject_aws_kms.Kms.Collect.Sweep.{Found, Found-Stays, sweep_tagged-Runs}
use keyobject_aws_kms.Kms.Collect.Manifested.{
  Covers, add_all-All, add_all-Covers, Covers-add_all, has_id-In, IsScope,
  teardown_manifest-IsScope, target_of-full,
}

-- A target comes from the manifest or, in a sweep, from a reply that shows the owner's tag.
abbrev pub IsTarget : TeardownOptions → Option Manifest → History → Target → Type 0
IsTarget opts m h t =
    In t (entry_targets (manifest_entries m))
    ⊎ ((opts.sweep ≡ true) × (arn : Text) × (t ≡ swept_target arn) × Found opts h arn)

-- The calls of `cleanup` on targets that were collected before.
abbrev pub TeardownCall : TeardownOptions → Option Manifest → History → Command → Type 0
TeardownCall opts m h c =
    (targets : List Target) × All (IsTarget opts m h) targets × CleanupCall opts targets h c

-- What `teardown` returns: nothing of a key of the manifest is left to do.
abbrev pub TornDown : TeardownOptions → Option Manifest → History → ℕ → Type 0
TornDown opts m h n =
    opts.aws.dry_run ≡ false
    → All (λ t. is_empty t.id ≡ false → Removed opts [] h t) (entry_targets (manifest_entries m))

module _ (opts : TeardownOptions) (m : Option Manifest) where
  IsTarget-Stays : (t : Target) → Stays (λ h. IsTarget opts m h t)
  IsTarget-Stays t h g p (inl inside) = inl inside
  IsTarget-Stays t h g p (inr (sweep, arn, same, found)) =
      inr (sweep, arn, same, Found-Stays opts arn h g p found)

  AllTargets-Stays : (ts : List Target) → Stays (λ h. All (IsTarget opts m h) ts)
  AllTargets-Stays [] h g p r = tt
  AllTargets-Stays (t ∷ ts) h g p r = (IsTarget-Stays t h g p r.0, AllTargets-Stays ts h g p r.1)

  abbrev Call : History → Request → Type 0
  Call = Sent opts (TeardownCall opts m)

  collect-reads : (h : History) (c : Command) → IsReadOnly c → Call h (asked opts c)
  collect-reads h c r = (refl, ([], tt, (reads opts [] h c r).1))

  swept_targets :
      (h : History) (arns : List Text)
      → opts.sweep ≡ true
      → All (Found opts h) arns
      → All (IsTarget opts m h) (map swept_target arns)
  swept_targets h [] sweep r = tt
  swept_targets h (arn ∷ arns) sweep r =
      (inr (sweep, arn, refl, r.0), swept_targets h arns sweep r.1)

  listed_targets :
      (h : History) (ts : List Target)
      → ((t : Target) → In t ts → In t (entry_targets (manifest_entries m)))
      → All (IsTarget opts m h) ts
  listed_targets h [] inside = tt
  listed_targets h (t ∷ ts) inside =
      (inl (inside t (inl refl)), listed_targets h ts (λ u i. inside u (inr i)))

  abbrev Collected : History → List Target → Type 0
  Collected h ts = All (IsTarget opts m h) ts × Covers ts (entry_targets (manifest_entries m))

  collect_targets-Runs : (h : History) → Runs Call Collected h (collect_targets opts m)
  unfolding collect_targets
  collect_targets-Runs h =
      let listed = entry_targets (manifest_entries m) in
      let from_manifest : List Target = add_all [] listed in
      let known = λ (g : History).
        add_all-All (IsTarget opts m g) [] listed tt (listed_targets g listed (λ t i. i)) in
      Runs-if Call Collected h opts.sweep
        (sweep_tagged opts >>= λ arns. done (add_all from_manifest (map swept_target arns)))
        (done from_manifest)
        (λ sweep.
          Runs-bind Call (λ g arns. All (Found opts g) arns) Collected
            (λ arns. done (add_all from_manifest (map swept_target arns))) (sweep_tagged opts) h
            (sweep_tagged-Runs opts Call collect-reads h)
            (λ g p arns found. (
              add_all-All (IsTarget opts m g) from_manifest (map swept_target arns) (known g)
                  (swept_targets g arns sweep found),
              Covers-add_all from_manifest (map swept_target arns) listed
                  (add_all-Covers [] listed),
            )))
        (λ no_sweep. (known h, add_all-Covers [] listed))

  Removed-same :
      (h : History) (t u : Target) → t.id ≡ u.id → Removed opts [] h t → Removed opts [] h u
  Removed-same h t u same (inl unknown) = inl (subst (IsUnknown opts h) same unknown)
  Removed-same h t u same (inr s) = inr (record {
    reply = s.reply;
    answered =
        subst (λ id. Answered opts (schedule_key_deletion id opts.window) s.reply h) same
          s.answered;
    accepted = s.accepted;
  })

  torn_down :
      (h : History) (targets ts : List Target)
      → Covers targets ts
      → All (Removed opts targets h) targets
      → All (λ t. is_empty t.id ≡ false → Removed opts [] h t) ts
  torn_down h targets [] c r = tt
  torn_down h targets (t ∷ ts) c r = (
    λ full.
        let (u, inside, same) = has_id-In t.id targets (c.0 full) in
        Removed-same h u t same (Removed-of_In opts targets h targets u r inside),
    torn_down h targets ts c.1 r,
  )

  collected-Runs :
      (schedules : Schedules) (h : History)
      → Runs Call (TornDown opts m) h (teardown_with opts schedules (returned m))
  unfolding teardown_with
  collected-Runs schedules h =
      Runs-bind Call Collected (TornDown opts m) (cleanup opts schedules) (collect_targets opts m) h
        (collect_targets-Runs h)
        (λ g p targets collected.
          Runs-imp _ Call _ (TornDown opts m) (λ k c r. (r.1.0, (targets, r.0, r.1.1)))
            (λ k n r real.
              torn_down k targets (entry_targets (manifest_entries m)) collected.1 (r.1 real))
            (cleanup opts schedules targets) g
            (Runs-with (λ k. All (IsTarget opts m k) targets) (AllTargets-Stays targets)
              (Allowed opts targets) (ReturnedIfReal opts targets) (cleanup opts schedules targets)
              g collected.0 (cleanup_real-Runs opts targets schedules g)))

-- What holds when `teardown` has gone on with some manifest.
abbrev pub InScope : TeardownOptions → ManifestFile → (Option Manifest → Type 0) → Type 0
InScope opts file P = (m : Option Manifest) × IsScope opts file m × P m

-- Every key of a valid manifest is removed.
abbrev pub AllRemoved : TeardownOptions → Option Manifest → History → Type 0
AllRemoved opts m h = All (λ entry. Removed opts [] h (target_of entry.1)) (manifest_entries m)

Removed-entries :
    (opts : TeardownOptions) (h : History) (run_id : Text) (roles : List Text)
    (entries : List (Text × ManifestKey))
    → All (λ entry. IsOfRun opts.place run_id roles entry.1) entries
    → All (λ t. is_empty t.id ≡ false → Removed opts [] h t) (entry_targets entries)
    → All (λ entry. Removed opts [] h (target_of entry.1)) entries
Removed-entries opts h run_id roles [] ofs r = tt
Removed-entries opts h run_id roles (entry ∷ entries) ofs r = (
  r.0 (target_of-full opts.place run_id roles entry.1 ofs.0),
  Removed-entries opts h run_id roles entries ofs.1 r.1,
)

all_removed :
    (opts : TeardownOptions) (file : ManifestFile) (m : Option Manifest) (h : History) (n : ℕ)
    → IsScope opts file m
    → TornDown opts m h n
    → opts.aws.dry_run ≡ false
    → AllRemoved opts m h
all_removed opts file none h n scope r real = tt
all_removed opts file (some m) h n scope r real =
    let caller = scope.1 in
    let same : or_empty m.keys ≡ caller.keys = ap or_empty caller.has_keys in
    subst (λ entries. All (λ entry. Removed opts [] h (target_of entry.1)) entries) (sym same)
      (Removed-entries opts h caller.run_id caller.roles caller.keys caller.of_run (
        subst
          (λ entries.
            All (λ t. is_empty t.id ≡ false → Removed opts [] h t) (entry_targets entries))
          same (r real)))

module _ (opts : TeardownOptions) (file : ManifestFile) where
  scoped-Runs :
      (schedules : Schedules) (h : History) (r : ReadManifest)
      → teardown_manifest opts file ≡ r
      → Runs
          (λ g c. InScope opts file (λ m. Sent opts (TeardownCall opts m) g c))
          (λ g n. InScope opts file (λ m. (opts.aws.dry_run ≡ true) ⊎ AllRemoved opts m g))
          h
          (teardown_with opts schedules r)
  unfolding teardown_with
  scoped-Runs schedules h (thrown message) e = tt
  scoped-Runs schedules h (returned m) e =
      let scope = teardown_manifest-IsScope opts file m e in
      Runs-imp (Sent opts (TeardownCall opts m)) _ (TornDown opts m) _ (λ g c q. (m, scope, q))
        (λ g n r. (m, scope, unless_dry opts.aws.dry_run (all_removed opts file m g n scope r)))
        (teardown_with opts schedules (returned m)) h (collected-Runs opts m schedules h)

  pub teardown-Runs :
      (schedules : Schedules) (h : History)
      → Runs
          (λ g c. InScope opts file (λ m. Sent opts (TeardownCall opts m) g c))
          (λ g n. InScope opts file (λ m. (opts.aws.dry_run ≡ true) ⊎ AllRemoved opts m g))
          h
          (teardown opts schedules file)
  unfolding teardown
  teardown-Runs schedules h = scoped-Runs schedules h (teardown_manifest opts file) refl

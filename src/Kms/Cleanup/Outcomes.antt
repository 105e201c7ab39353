-- ===== src/Kms/Cleanup/Outcomes.antt =====
-- What the three calls of `mapLimit` in `teardown` of scripts/real-kms-keys.mjs hand to each other.
use keyobject_aws_kms.Prelude.{
  ℕ, ◌≡◌, refl, sym, ◌∙◌, arith, false, Option, none, some, List, [], ◌∷◌, inl, inr, ◌⊎◌, All, In,
  Text, subst,
}
use keyobject_aws_kms.Kms.Program.Logic.{History, ◌⊑◌, Runs}
use keyobject_aws_kms.Kms.MapLimit.Results.{Outputs}
use keyobject_aws_kms.Kms.Teardown.{TeardownOptions, Target, Entry}
use keyobject_aws_kms.Kms.Teardown.Evidence.{IsUnknown, Verified-Stays}
use keyobject_aws_kms.Kms.Cleanup.{
  active_entries, with_alias, alias_entries, active_targets, total, delete_entry_alias, delete_key,
}
use keyobject_aws_kms.Kms.Cleanup.Preflight.{Preflighted, Preflighted-Stays, Passed-of_Preflighted}
use keyobject_aws_kms.Kms.Cleanup.Deletion.{IsScheduled, KeyResult}
use keyobject_aws_kms.Kms.Cleanup.Scheduling.{KeyResult-Stays}
use keyobject_aws_kms.Kms.Cleanup.Safety.{
  AllPassed, Any, Allowed, Allowed-Stays, alias_step, key_step,
}

-- The entries that the preflight lets through, and where each target went.
abbrev pub EntryOk : List Target → Entry → Type 0
EntryOk targets e = In e.target targets × ((e.alias ≡ none) ⊎ (e.alias ≡ e.target.alias))

module _ (opts : TeardownOptions) (targets : List Target) where
  abbrev pub Results : History → List Target → List (Option Entry) → Type 0
  Results =
      Outputs (Allowed opts targets) (Allowed-Stays opts targets) (λ t h o. Preflighted opts t h o)
        (Preflighted-Stays opts)

  pub AllPassed-of_Results :
      (h : History) (ts : List Target) (results : List (Option Entry))
      → Results h ts results
      → AllPassed opts ts h
  AllPassed-of_Results h [] results r = tt
  AllPassed-of_Results h (t ∷ ts) [] r = absurd r
  AllPassed-of_Results h (t ∷ ts) (o ∷ results) r =
      (Passed-of_Preflighted opts t h o r.0, AllPassed-of_Results h ts results r.1)

  pub entries_ok :
      (h : History) (ts : List Target) (results : List (Option Entry))
      → All (λ t. In t targets) ts
      → Results h ts results
      → All (EntryOk targets) (active_entries results)
  unfolding active_entries
  entries_ok h [] [] inside r = tt
  entries_ok h [] (o ∷ results) inside r = absurd r
  entries_ok h (t ∷ ts) [] inside r = absurd r
  entries_ok h (t ∷ ts) (none ∷ results) inside r = entries_ok h ts results inside.1 r.1
  entries_ok h (t ∷ ts) (some e ∷ results) inside r = (
    (
      subst (λ x. In x targets) (sym r.0.target) inside.0,
      subst (λ x. (e.alias ≡ none) ⊎ (e.alias ≡ x.alias)) (sym r.0.target) r.0.alias,
    ),
    entries_ok h ts results inside.1 r.1,
  )

  abbrev pub Handled : History → List Target → Target → Type 0
  Handled h active t = IsUnknown opts h t.id ⊎ In t active

  Handled-cons :
      (h : History) (active ts : List Target) (x : Target)
      → All (Handled h active) ts
      → All (Handled h (x ∷ active)) ts
  Handled-cons h active [] x r = tt
  Handled-cons h active (t ∷ ts) x r = (later r.0, Handled-cons h active ts x r.1)
    where
      later : Handled h active t → Handled h (x ∷ active) t
      later (inl unknown) = inl unknown
      later (inr inside) = inr (inr inside)

  pub All-Handled :
      (h : History) (ts : List Target) (results : List (Option Entry))
      → Results h ts results
      → All (Handled h (active_targets (active_entries results))) ts
  unfolding active_entries active_targets
  All-Handled h [] [] r = tt
  All-Handled h [] (o ∷ results) r = absurd r
  All-Handled h (t ∷ ts) [] r = absurd r
  All-Handled h (t ∷ ts) (none ∷ results) r = (inl r.0, All-Handled h ts results r.1)
  All-Handled h (t ∷ ts) (some e ∷ results) r = (
    inr (inl (sym r.0.target)),
    Handled-cons h (active_targets (active_entries results)) ts e.target
        (All-Handled h ts results r.1),
  )

  abbrev pub AliasPrograms : History → List (Target × Text) → Type 0
  AliasPrograms g =
      All (λ e. Runs (Allowed opts targets) (Any opts targets) g (delete_entry_alias opts e.0 e.1))

  alias_program :
      (g : History) (e : Entry) (o : Option Text) (rest : List (Target × Text))
      → e.alias ≡ o
      → EntryOk targets e
      → AllPassed opts targets g
      → AliasPrograms g rest
      → AliasPrograms g (with_alias e.target o rest)
  alias_program g e none rest has ok passed r = r
  alias_program g e (some alias) rest has ok passed r =
      (alias_step opts targets e.target alias g ok.0 (of_entry ok.1) passed, r)
    where
      of_entry : (e.alias ≡ none) ⊎ (e.alias ≡ e.target.alias) → e.target.alias ≡ some alias
      of_entry (inl missing) = absurd (cc (has, missing))
      of_entry (inr same) = sym same ∙ has

  pub alias_programs :
      (g : History) (entries : List Entry)
      → All (EntryOk targets) entries
      → AllPassed opts targets g
      → AliasPrograms g (alias_entries entries)
  unfolding alias_entries
  alias_programs g [] ok passed = tt
  alias_programs g (e ∷ entries) ok passed =
      alias_program g e e.alias (alias_entries entries) refl ok.0 passed
        (alias_programs g entries ok.1 passed)

  pub key_programs :
      (g : History) (entries : List Entry)
      → All (EntryOk targets) entries
      → AllPassed opts targets g
      → All
          (λ t. Runs (Allowed opts targets) (KeyResult opts t) g (delete_key opts t))
          (active_targets entries)
  unfolding active_targets
  key_programs g [] ok passed = tt
  key_programs g (e ∷ entries) ok passed =
      (key_step opts targets e.target g ok.0.0 passed, key_programs g entries ok.1 passed)

  abbrev pub KeyResults : History → List Target → List ℕ → Type 0
  KeyResults =
      Outputs (Allowed opts targets) (Allowed-Stays opts targets) (λ t h n. KeyResult opts t h n)
        (KeyResult-Stays opts)

  -- Nothing of a target is left to do.
  abbrev pub Removed : History → Target → Type 0
  Removed h t = IsUnknown opts h t.id ⊎ IsScheduled opts h t

  pub Removed-keys :
      (h : History) (ts : List Target) (ns : List ℕ)
      → KeyResults h ts ns
      → total ns ≡ 0
      → opts.aws.dry_run ≡ false
      → All (Removed h) ts
  unfolding total
  Removed-keys h [] ns r z real = tt
  Removed-keys h (t ∷ ts) [] r z real = absurd r
  Removed-keys h (t ∷ ts) (n ∷ ns) r z real =
      (r.0 (omega arith) real, Removed-keys h ts ns r.1 (omega arith) real)

  pub Removed-of_In :
      (h : History) (ts : List Target) (t : Target) → All (Removed h) ts → In t ts → Removed h t
  Removed-of_In h [] t r inside = absurd inside
  Removed-of_In h (x ∷ ts) t r (inl same) = subst (Removed h) (sym same) r.0
  Removed-of_In h (x ∷ ts) t r (inr inside) = Removed-of_In h ts t r.1 inside

  pub Removed-All :
      (g h : History) (active ts : List Target)
      → g ⊑ h
      → All (Handled g active) ts
      → All (Removed h) active
      → All (Removed h) ts
  Removed-All g h active [] p handled removed = tt
  Removed-All g h active (t ∷ ts) p handled removed =
      (one handled.0, Removed-All g h active ts p handled.1 removed)
    where
      one : Handled g active t → Removed h t
      one (inl unknown) = inl (Verified-Stays opts t none g h p unknown)
      one (inr inside) = Removed-of_In h active t removed inside

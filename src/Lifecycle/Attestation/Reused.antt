-- ===== src/Lifecycle/Attestation/Reused.antt =====
-- When the attestation of an earlier run is reused (reuseAttestationBundle of
-- scripts/release-lifecycle.mjs).
use keyobject_aws_kms.Prelude.{
  ◌≡◌, refl, sym, subst, inl, inr, Bool, true, false, List, [], ◌∷◌, All, Text, codes, text_eq,
  text_eq_sound, is_empty, if◌then◌else◌,
}
use keyobject_aws_kms.Effects.Logic.{
  Seen, Seen-⊑, ◌⊑◌, ⊑_trans, Runs, Runs-if, Runs-bind, Runs-grow,
}
use keyobject_aws_kms.Effects.Calls.{Runs-sys}
use keyobject_aws_kms.Lifecycle.Machine.{
  Bytes, Tools, Request, run, list_directory, read_file, copy_file, answered, History,
}
use keyobject_aws_kms.Lifecycle.Rules.{rules}
use keyobject_aws_kms.Lifecycle.Payload.{attestation_bundle_name, expected_payload, inspect_payload}
use keyobject_aws_kms.Lifecycle.Attestation.{
  changed_files, require_unchanged, reuse_attestation_bundle,
}
use keyobject_aws_kms.Lifecycle.Payload.Evidence.{Inspected, Inspected-⊑}
use keyobject_aws_kms.Lifecycle.Payload.Inspected.{inspect_payload-Inspected}

module _ (tools : Tools) (previous current : Text) where
  -- The file was read from both directories, with the same contents.
  abbrev pub IsUnchanged : History → Text → Type 0
  IsUnchanged h name =
      (bytes : Bytes) × Seen (answered (read_file (tools.join previous name)) bytes) h
      × Seen (answered (read_file (tools.join current name)) bytes) h

  All-IsUnchanged-⊑ :
      (names : List Text) {h g : History}
      → h ⊑ g
      → All (IsUnchanged h) names
      → All (IsUnchanged g) names
  All-IsUnchanged-⊑ [] p x = tt
  All-IsUnchanged-⊑ (name ∷ names) p ((bytes, before, after), rest) =
      ((bytes, Seen-⊑ _ p before, Seen-⊑ _ p after), All-IsUnchanged-⊑ names p rest)

  none_added :
      (b : Bool) (name : Text) (rest : List Text)
      → is_empty (if b then rest else name ∷ rest) ≡ true
      → (b ≡ true) × (is_empty rest ≡ true)
  none_added true name rest e = (refl, e)
  none_added false name rest e = absurd (cc e)

  -- A script that may read files.
  module _ (Q : History → Request → Type 0)
      (reads : (h : History) (path : Text) → Q h (read_file path)) where
    changed_files-IsUnchanged :
        (names : List Text) (h : History)
        → Runs
            (rules Q)
            (λ g t changed. is_empty changed ≡ true → All (IsUnchanged g) names)
            h
            tt
            (changed_files tools previous current names)
    unfolding changed_files
    changed_files-IsUnchanged [] h = λ e. tt
    changed_files-IsUnchanged (name ∷ names) h =
        Runs-sys (rules Q) Post h tt (read_file _) _ (reads _ _)
          (λ before.
            Runs-sys (rules Q) Post _ tt (read_file _) _ (reads _ _)
              (λ after.
                Runs-bind (rules Q) (Told before after) Post _
                  (changed_files tools previous current names) _ tt
                  (Runs-grow (rules Q)
                    (λ g t changed. is_empty changed ≡ true → All (IsUnchanged g) names)
                    (Told before after) (changed_files tools previous current names) _ tt
                    (changed_files-IsUnchanged names _)
                    (λ g p t rest told. (Seen-⊑ _ p (inr (inl refl)), Seen-⊑ _ p (inl refl), told)))
                  (λ g p t rest (first, second, told) e.
                    let (equal, none_) = none_added (text_eq before after) name rest e in
                    (
                      (
                        before,
                        first,
                        subst (λ b. Seen (answered (read_file (tools.join current name)) b) g)
                            (sym (text_eq_sound before after equal)) second,
                      ),
                      told none_,
                    )))
              (λ e. tt))
          (λ e. tt)
      where
        Post : History → Unit {0} → List Text → Type 0
        Post g t changed = is_empty changed ≡ true → All (IsUnchanged g) (name ∷ names)

        Told : Bytes → Bytes → History → Unit {0} → List Text → Type 0
        Told before after g t rest =
            Seen (answered (read_file (tools.join previous name)) before) g
            × Seen (answered (read_file (tools.join current name)) after) g
            × (is_empty rest ≡ true → All (IsUnchanged g) names)

    require_unchanged-IsUnchanged :
        (names : List Text) (h : History)
        → Runs
            (rules Q)
            (λ g t u. All (IsUnchanged g) names)
            h
            tt
            (require_unchanged tools previous current names)
    unfolding require_unchanged
    require_unchanged-IsUnchanged names h =
        Runs-bind (rules Q) (λ g t changed. is_empty changed ≡ true → All (IsUnchanged g) names)
          (λ g t u. All (IsUnchanged g) names) _ (changed_files tools previous current names) h tt
          (changed_files-IsUnchanged names h)
          (λ g p t changed told.
            Runs-if (rules Q) (λ g t u. All (IsUnchanged g) names) g tt (is_empty changed) _ _ told
              (λ e. tt))

  module _ (version : Text) where
    -- The only change is the copy of the attestation of the earlier run, to a file that was not there,
    -- after both payloads were inspected and found to hold the same files.
    abbrev pub OnlyCopies : History → Request → Type 0
    OnlyCopies h (run name args) = name ≡ codes "tar"
    OnlyCopies h (list_directory path) = Unit
    OnlyCopies h (read_file path) = Unit
    OnlyCopies h (copy_file source target exclusive) =
        (source ≡ tools.join previous attestation_bundle_name)
        × (target ≡ tools.join current attestation_bundle_name)
        × (exclusive ≡ true)
        × Inspected tools previous version true h
        × Inspected tools current version false h
        × All (IsUnchanged h) (expected_payload version false)
    OnlyCopies h _ = ⊥

    inspect :
        (directory : Text) (attested : Bool) (h : History)
        → Runs
            (rules OnlyCopies)
            (λ g t packages. Inspected tools directory version attested g)
            h
            tt
            (inspect_payload tools directory version attested)
    inspect directory attested h =
        inspect_payload-Inspected tools OnlyCopies (λ h path. tt) (λ h path. tt) (λ h args. refl)
          directory version attested h

    -- Whatever `tar` and the file system answer, reuseAttestationBundle changes nothing but one file: it
    -- copies the attestation of the earlier payload into the current one, exclusively, and only after the
    -- earlier payload was inspected with it and the current one without, and every file of the current
    -- payload was read with the contents that it has in the earlier one. It returns only after the
    -- current payload was inspected with the attestation. It never runs out of fuel.
    pub reuse_attestation_bundle-Inspected :
        Runs
          (rules OnlyCopies)
          (λ g t u. Inspected tools current version true g)
          []
          tt
          (reuse_attestation_bundle tools previous current version)
    unfolding reuse_attestation_bundle
    reuse_attestation_bundle-Inspected =
        Runs-bind (rules OnlyCopies) (λ g t packages. Inspected tools previous version true g) Post
          _ (inspect_payload tools previous version true) [] tt (inspect previous true [])
          (λ g1 p1 t packages earlier.
            Runs-bind (rules OnlyCopies) (λ g t packages. Inspected tools current version false g)
              Post _ (inspect_payload tools current version false) g1 tt (inspect current false g1)
              (λ g2 p2 t packages now.
                Runs-bind (rules OnlyCopies) (Unchanged g1 g2) Post _
                  (require_unchanged tools previous current (expected_payload version false)) g2 tt
                  (Runs-grow (rules OnlyCopies)
                    (λ g t u. All (IsUnchanged g) (expected_payload version false))
                    (Unchanged g1 g2)
                    (require_unchanged tools previous current (expected_payload version false)) g2
                    tt
                    (require_unchanged-IsUnchanged OnlyCopies (λ h path. tt)
                      (expected_payload version false) g2)
                    (λ g p t u all. (
                      Inspected-⊑ tools previous version true (⊑_trans p2 p) earlier,
                      Inspected-⊑ tools current version false p now,
                      all,
                    )))
                  (λ g3 p3 t u (before, after, all).
                    Runs-sys (rules OnlyCopies) Post g3 tt (copy_file _ _ true) _
                      (refl, refl, refl, before, after, all)
                      (λ u.
                        Runs-bind (rules OnlyCopies)
                          (λ g t packages. Inspected tools current version true g) Post _
                          (inspect_payload tools current version true) _ tt (inspect current true _)
                          (λ g4 p4 t packages x. x))
                      (λ e. tt))))
      where
        Post : History → Unit {0} → Unit {0} → Type 0
        Post g t u = Inspected tools current version true g

        Unchanged : History → History → History → Unit {0} → Unit {0} → Type 0
        Unchanged g1 g2 g t u =
            Inspected tools previous version true g
            × Inspected tools current version false g
            × All (IsUnchanged g) (expected_payload version false)

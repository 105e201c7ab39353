-- ===== src/Kms/Setup/RunId.antt =====
-- That the run ids that `makeRunId` of scripts/real-kms-keys.mjs makes are those that a manifest may have.
use keyobject_aws_kms.Prelude.{
  arith, ◌≡◌, refl, ◌∙◌, Bool, true, false, not, ◌||◌, Option, none, some, [], ◌∷◌, ◌++◌, is_empty,
  all, Text, codes, append_assoc,
}
use keyobject_aws_kms.Kms.Manifest.{strip_prefix, number_dash, is_digit, is_random_part, is_run_id}
use keyobject_aws_kms.Kms.Setup.{run_prefix, make_run_id}

number_dash-digits :
    (some_digit : Bool) (d s : Text)
    → all is_digit d ≡ true
    → (some_digit || not (is_empty d)) ≡ true
    → number_dash some_digit (d ++ (b'-' ∷ s)) ≡ some s
unfolding number_dash
number_dash-digits some_digit [] s digits full = ground arith
number_dash-digits some_digit (c ∷ d) s digits full = ground (arith, number_dash-digits true d s)

run_id-gh :
    (run run_attempt random : Text)
    → all is_digit run ≡ true
    → is_empty run ≡ false
    → all is_digit run_attempt ≡ true
    → is_empty run_attempt ≡ false
    → is_random_part random ≡ true
    → is_run_id (codes "gh-" ++ (run ++ (b'-' ∷ (run_attempt ++ (b'-' ∷ random))))) ≡ true
unfolding is_run_id strip_prefix
run_id-gh run run_attempt random d1 f1 d2 f2 r =
    rw
      (
        number_dash-digits false run (run_attempt ++ (b'-' ∷ random)) d1 (rw f1 refl),
        number_dash-digits false run_attempt random d2 (rw f2 refl),
        r,
      )
      refl

run_id-local :
    (random : Text) → is_random_part random ≡ true → is_run_id (codes "local-" ++ random) ≡ true
unfolding is_run_id strip_prefix
run_id-local random r = rw r refl

-- A variable of the workflow that, where it is set, is a number.
abbrev pub IsNumber : Option Text → Type 0
IsNumber none = Unit
IsNumber (some s) = (all is_digit s ≡ true) × (is_empty s ≡ false)

gh_text :
    (run run_attempt random : Text)
    → codes "gh-" ++ run ++ codes "-" ++ run_attempt ++ codes "-" ++ random
      ≡ codes "gh-" ++ (run ++ (b'-' ∷ (run_attempt ++ (b'-' ∷ random))))
gh_text run run_attempt random =
    append_assoc (codes "gh-" ++ run ++ codes "-" ++ run_attempt) (codes "-") random
    ∙ append_assoc (codes "gh-" ++ run ++ codes "-") run_attempt (b'-' ∷ random)
    ∙ append_assoc (codes "gh-" ++ run) (codes "-") (run_attempt ++ (b'-' ∷ random))
    ∙ append_assoc (codes "gh-") run (b'-' ∷ (run_attempt ++ (b'-' ∷ random)))

run_prefix-is_run_id :
    (run run_attempt : Option Text) (random : Text)
    → IsNumber run
    → IsNumber run_attempt
    → is_random_part random ≡ true
    → is_run_id (run_prefix run run_attempt ++ random) ≡ true
unfolding run_prefix
run_prefix-is_run_id none run_attempt random n m r = run_id-local random r
run_prefix-is_run_id (some run) none random n m r =
    rw (n.1, gh_text run (codes "1") random) (run_id-gh run (codes "1") random n.0 n.1 refl refl r)
run_prefix-is_run_id (some run) (some run_attempt) random n m r =
    rw (n.1, gh_text run run_attempt random) (run_id-gh run run_attempt random n.0 n.1 m.0 m.1 r)

-- `makeRunId` makes a run id that `validateManifest` takes, if the run and the attempt of the workflow,
-- where they are set, are numbers, the random part is 24 hexadecimal digits, and `toLowerCase` leaves
-- this text alone.
pub make_run_id-is_run_id :
    (lower_case : Text → Text) (run run_attempt : Option Text) (random : Text)
    → IsNumber run
    → IsNumber run_attempt
    → is_random_part random ≡ true
    → lower_case (run_prefix run run_attempt ++ random) ≡ run_prefix run run_attempt ++ random
    → is_run_id (make_run_id lower_case run run_attempt random) ≡ true
unfolding make_run_id
make_run_id-is_run_id lower_case run run_attempt random n m r same =
    rw same (run_prefix-is_run_id run run_attempt random n m r)

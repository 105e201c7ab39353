-- ===== src/Kms/Cleanup/Scheduling.antt =====
-- The scheduling of a key's deletion in scripts/real-kms-keys.mjs: its checks, and what its result 0
-- means.
use keyobject_aws_kms.Prelude.{
  ℕ, ◌≡◌, refl, arith, true, false, Option, none, some, ◌∷◌, inl, inr, ◌⊎◌, ◌||◌, Bool-cases,
}
use keyobject_aws_kms.Kms.Program.{
  schedule_key_deletion, Request, Reply, printed, exited, not_launched, Metadata, done, throw,
  other_error, tried, attempt, ◌>>=◌, code_is,
}
use keyobject_aws_kms.Kms.Program.Logic.{
  History, Seen-⊑, Stays, Runs, Runs-if, Runs-bind, Runs-attempt,
}
use keyobject_aws_kms.Kms.Teardown.{TeardownOptions, Target, not_found, verify_owned_target}
use keyobject_aws_kms.Kms.Teardown.Evidence.{
  asked, IsOwned, IsUnknown, Verified, Verified-Stays, verify_owned_target-Runs,
}
use keyobject_aws_kms.Kms.Cleanup.{
  is_pending, scheduled_reply, schedule_deletion, schedule_verified, delete_key,
}
use keyobject_aws_kms.Kms.Cleanup.Deletion.{
  MaySchedule, KeyCall, Sent, IsScheduled, KeyResult, key-reads, aws_try-real, aws_try-dry,
}

abbrev AcceptedIfReal : TeardownOptions → Target → History → Unit {0} → Type 0
AcceptedIfReal opts t h u = opts.aws.dry_run ≡ false → IsScheduled opts h t

pub KeyResult-Stays :
    (opts : TeardownOptions) (t : Target) (n : ℕ) → Stays (λ h. KeyResult opts t h n)
KeyResult-Stays opts t n h g p r zero_ real = stays (r zero_ real)
  where
    stays :
        IsUnknown opts h t.id ⊎ IsScheduled opts h t → IsUnknown opts g t.id ⊎ IsScheduled opts g t
    stays (inl unknown) = inl (Verified-Stays opts t none h g p unknown)
    stays (inr s) =
        inr (record { reply = s.reply; answered = Seen-⊑ _ p s.answered; accepted = s.accepted })

module _ (opts : TeardownOptions) (t : Target) where
  abbrev Q : History → Request → Type 0
  Q = Sent opts (KeyCall opts t)

  abbrev event : Reply → History → History
  event r h =
      record { request = asked opts (schedule_key_deletion t.id opts.window); reply = r } ∷ h

  scheduled_reply-Runs :
      (h : History) (r : Reply)
      → Runs Q (AcceptedIfReal opts t) (event r h) (attempt (tried r) scheduled_reply throw)
  unfolding attempt scheduled_reply
  scheduled_reply-Runs h (printed value) =
      λ real. record { reply = printed value; answered = inl refl; accepted = tt }
  scheduled_reply-Runs h (exited stderr) =
      Runs-if Q (AcceptedIfReal opts t) (event (exited stderr) h)
        (code_is stderr not_found || is_pending stderr) (done tt)
        (throw (other_error "schedule-key-deletion failed"))
        (λ accepted real. record {
          reply = exited stderr;
          answered = inl refl;
          accepted = accepted;
        })
        (λ e. tt)
  scheduled_reply-Runs h (not_launched message) = tt

  dry_reply-Runs :
      (h : History)
      → opts.aws.dry_run ≡ true
      → Runs Q (AcceptedIfReal opts t) h (attempt (tried (printed none)) scheduled_reply throw)
  unfolding attempt scheduled_reply
  dry_reply-Runs h dry real = absurd (cc dry)

  schedule_deletion-Runs :
      (h : History) (metadata : Metadata)
      → IsOwned opts h t metadata
      → Runs Q (AcceptedIfReal opts t) h (schedule_deletion opts t.id)
  unfolding schedule_deletion attempt
  schedule_deletion-Runs h metadata owned = elim (Bool-cases opts.aws.dry_run) [
    | inl dry ↦
        rw (aws_try-dry opts (schedule_key_deletion t.id opts.window) dry) (dry_reply-Runs h dry)
    | inr real ↦
        let allowed : MaySchedule opts h t t.id opts.window = record {
          metadata = metadata;
          owned = owned;
          of_target = refl;
          of_options = refl;
          real = real;
        } in
        rw (aws_try-real opts (schedule_key_deletion t.id opts.window) real)
          ((refl, allowed), λ r. scheduled_reply-Runs h r)
  ]

  schedule_verified-Runs :
      (h : History) (o : Option Metadata)
      → Verified opts t h o
      → Runs Q (KeyResult opts t) h (schedule_verified opts t o)
  unfolding schedule_verified
  schedule_verified-Runs h none unknown = λ zero_ real. inl unknown
  schedule_verified-Runs h (some metadata) owned =
      Runs-bind Q (AcceptedIfReal opts t) (KeyResult opts t) (λ u. done 0)
        (schedule_deletion opts t.id) h (schedule_deletion-Runs h metadata owned)
        (λ g p u scheduled zero_ real. inr (scheduled real))

  pub delete_key-Runs : (h : History) → Runs Q (KeyResult opts t) h (delete_key opts t)
  unfolding delete_key
  delete_key-Runs h =
      Runs-attempt Q (KeyResult opts t) (KeyResult opts t) done (λ e. done 1)
        (verify_owned_target opts t >>= schedule_verified opts t) h
        (Runs-bind Q (Verified opts t) (KeyResult opts t) (schedule_verified opts t)
          (verify_owned_target opts t) h (verify_owned_target-Runs opts Q (key-reads opts t) t h)
          (λ g p o v. schedule_verified-Runs g o v))
        (λ g p n r. r) (λ g p e one. absurd (omega arith))

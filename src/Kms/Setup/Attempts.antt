-- ===== src/Kms/Setup/Attempts.antt =====
-- What `awsTry`, `withRetry` and the polling of `setup` in scripts/real-kms-keys.mjs ask for, and
-- what their results rest on.
use keyobject_aws_kms.Prelude.{
  arith, ℕ, zero, suc, ◌*◌, ◌≡◌, refl, Bool, true, false, not, ◌||◌, Option, none, inl, inr, ◌⊎◌,
  Text,
}
use keyobject_aws_kms.Kms.Program.{
  Command, describe_key, sleep, Request, Reply, printed, exited, not_launched, Value, Options,
  Program, done, throw, aws_cli_error, Tried, succeeded, failed, aws_try,
}
use keyobject_aws_kms.Kms.Program.Logic.{
  History, Seen, Seen-⊑, ◌⊑◌, ⊑_trans, ⊑-cons, Stays, Runs, Runs-if, Runs-bind,
}
use keyobject_aws_kms.Kms.Setup.{retried, is_retryable, with_retry, pause, is_enabled, poll_enabled}

abbrev pub request_of : Options → Command → Request
request_of opts c = record { command = c; region = opts.region; profile = opts.profile }

abbrev pub Replied : Options → Command → Reply → History → Type 0
Replied opts c r h = Seen (record { request = request_of opts c; reply = r }) h

-- The result of `awsTry` is that of a reply, or of a dry run.
abbrev pub TriedBy : Options → Command → History → Tried → Type 0
TriedBy opts c h (succeeded value) =
    ((opts.dry_run ≡ true) × (value ≡ none)) ⊎ Replied opts c (printed value) h
TriedBy opts c h (failed stderr) = Replied opts c (exited stderr) h

abbrev pub Succeeded : Options → Command → History → Option Value → Type 0
Succeeded opts c h value = TriedBy opts c h (succeeded value)

pub Succeeded-Stays :
    (opts : Options) (c : Command) (value : Option Value) → Stays (λ h. Succeeded opts c h value)
Succeeded-Stays opts c value h g p (inl dry) = inl dry
Succeeded-Stays opts c value h g p (inr seen) = inr (Seen-⊑ _ p seen)

-- The request of a pause.
abbrev pub waits : ℕ → Request
waits ms = record { command = sleep ms; region = none; profile = none }

-- A reply has shown that the key is enabled.
abbrev pub Enabled : Options → Text → History → Type 0
Enabled opts id h = (r : Tried) × TriedBy opts (describe_key id) h r × (is_enabled r ≡ true)

pub Enabled-Stays : (opts : Options) (id : Text) → Stays (λ h. Enabled opts id h)
Enabled-Stays opts id h g p (succeeded value, t, e) =
    (succeeded value, Succeeded-Stays opts (describe_key id) value h g p t, e)
Enabled-Stays opts id h g p (failed stderr, t, e) = (failed stderr, Seen-⊑ _ p t, e)

module _ (opts : Options) (Q : History → Request → Type 0) where
  pub aws_try-Runs :
      (c : Command) (h : History)
      → (opts.dry_run ≡ false → Q h (request_of opts c))
      → Runs Q (TriedBy opts c) h (aws_try opts c)
  unfolding aws_try
  aws_try-Runs c h allowed =
      Runs-if Q (TriedBy opts c) h opts.dry_run _ _ (λ dry. inl (dry, refl))
        (λ real. (
          allowed real,
          elim [
            | printed value ↦ inr (inl refl)
            | exited stderr ↦ inl refl
            | not_launched message ↦ tt
          ],
        ))

  module _ (pauses : (h : History) (ms : ℕ) → Q h (waits ms)) where
    retried-Runs :
        (c : Command) (again : Bool) (r : Tried) (delay : ℕ) (rest : Program (Option Value))
        (h : History)
        → TriedBy opts c h r
        → ((g : History) → h ⊑ g → again ≡ true → Runs Q (Succeeded opts c) g rest)
        → Runs Q (Succeeded opts c) h (retried again r delay rest)
    unfolding retried
    retried-Runs c again (succeeded value) delay rest h t next_ = t
    retried-Runs c again (failed stderr) delay rest h t next_ =
        Runs-if Q (Succeeded opts c) h (not (is_retryable stderr) || not again)
          (throw (aws_cli_error stderr)) (pause delay rest) (λ e. tt)
          (λ e. (pauses h delay, λ r. next_ _ (⊑-cons _ h) (ground arith)))

    -- `withRetry` makes no call but the command and pauses, and returns what a reply to it was.
    pub with_retry-Runs :
        (A : History → Type 0)
        → Stays A
        → (c : Command) → ((g : History) → A g → opts.dry_run ≡ false → Q g (request_of opts c))
        → (more delay : ℕ) (h : History) → A h
        → Runs Q (Succeeded opts c) h (with_retry opts c more delay)
    unfolding with_retry
    with_retry-Runs A stays c allowed zero delay h a =
        Runs-bind Q (TriedBy opts c) (Succeeded opts c) _ (aws_try opts c) h
          (aws_try-Runs c h (allowed h a))
          (λ g p r t. retried-Runs c false r delay (done none) g t (λ k q e. absurd (cc e)))
    with_retry-Runs A stays c allowed (suc more) delay h a =
        Runs-bind Q (TriedBy opts c) (Succeeded opts c) _ (aws_try opts c) h
          (aws_try-Runs c h (allowed h a))
          (λ g p r t. retried-Runs c true r delay (with_retry opts c more (2 * delay)) g t (λ k q e.
            with_retry-Runs A stays c allowed more (2 * delay) k (stays h k (⊑_trans p q) a)))

    pub poll_enabled-Runs :
        (id : Text)
        → ((g : History) → opts.dry_run ≡ false → Q g (request_of opts (describe_key id)))
        → (more : ℕ) (h : History) → Runs Q (λ g u. Enabled opts id g) h (poll_enabled opts id more)
    unfolding poll_enabled
    poll_enabled-Runs id reads zero h = tt
    poll_enabled-Runs id reads (suc more) h =
        Runs-bind Q (TriedBy opts (describe_key id)) (λ g u. Enabled opts id g) _
          (aws_try opts (describe_key id)) h (aws_try-Runs (describe_key id) h (reads h))
          (λ g p r t.
            Runs-if Q (λ k u. Enabled opts id k) g (is_enabled r) (done tt)
              (pause 1000 (poll_enabled opts id more)) (λ e. (r, t, e))
              (λ e. (pauses g 1000, λ x. poll_enabled-Runs id reads more _)))

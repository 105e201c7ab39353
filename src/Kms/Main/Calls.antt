-- ===== src/Kms/Main/Calls.antt =====
-- What each command of scripts/real-kms-keys.mjs asks of the service.
use keyobject_aws_kms.Prelude.{
  ◌≡◌, refl, true, none, some, List, [], ◌∷◌, inl, inr, ◌⊎◌, Text, codes,
}
use keyobject_aws_kms.Kms.Program.{
  describe_key, get_caller_identity, Request, printed, Value, done, throw, Tried, succeeded, failed,
  aws_cli_error, Options, aws_try, read_only_options, code_is,
}
use keyobject_aws_kms.Kms.Program.Logic.{History, Seen-⊑, Stays, Runs, Runs-if, Runs-bind}
use keyobject_aws_kms.Kms.Program.After.{Runs-imp, Runs-with}
use keyobject_aws_kms.Kms.Manifest.{ManifestKey}
use keyobject_aws_kms.Kms.Validation.{
  Place, ManifestFile, ReadManifest, thrown, returned, read_manifest,
}
use keyobject_aws_kms.Kms.Teardown.{not_found, value_metadata, if_found}
use keyobject_aws_kms.Kms.Teardown.Evidence.{IsReadOnly}
use keyobject_aws_kms.Kms.Cleanup.Deletion.{Sent}
use keyobject_aws_kms.Kms.Collect.{teardown, or_else, manifest_entries}
use keyobject_aws_kms.Kms.Collect.Whole.{InScope, TeardownCall, teardown-Runs}
use keyobject_aws_kms.Kms.Setup.{make_run_id}
use keyobject_aws_kms.Kms.Setup.Attempts.{request_of, Replied, TriedBy, aws_try-Runs}
use keyobject_aws_kms.Kms.Provision.{describe_alias, setup}
use keyobject_aws_kms.Kms.Provision.Whole.{Calls, Results-Runs}
use keyobject_aws_kms.Kms.Arguments.{Arguments}
use keyobject_aws_kms.Kms.Main.{
  set_up, torn_down, shown, status_rows, status_of, status, Host, Mode, setup_mode, teardown_mode,
  status_mode, reap_mode, aws_options, teardown_options, setup_options, run_mode, account_of,
  identified, is_dry_setup, run_in,
}

abbrev pub Reads : History → Request → Type 0
Reads h r = IsReadOnly r.command

abbrev pub Done {ℓ} : {A : Type ℓ} → History → A → Type 0
Done h a = Unit

found-Runs :
    (h : History) (r : Tried)
    → Runs Reads Done h (if_found r (done none) (λ value. done (value_metadata value)))
unfolding if_found
found-Runs h (succeeded value) = tt
found-Runs h (failed stderr) =
    Runs-if Reads Done h (code_is stderr not_found) (done none) (throw (aws_cli_error stderr))
      (λ e. tt) (λ e. tt)

status_rows-Runs :
    (opts : Options) (entries : List (Text × ManifestKey)) (h : History)
    → Runs Reads Done h (status_rows opts entries)
unfolding status_rows describe_alias
status_rows-Runs opts [] h = tt
status_rows-Runs opts ((name, key) ∷ entries) h =
    Runs-bind Reads Done Done _ (describe_alias opts (or_else key.alias [])) h
      (Runs-bind Reads (TriedBy opts (describe_key (or_else key.alias []))) Done _
        (aws_try opts (describe_key (or_else key.alias []))) h
        (aws_try-Runs opts Reads (describe_key (or_else key.alias [])) h (λ real. tt))
        (λ g p r t. found-Runs g r))
      (λ g p metadata u.
        Runs-bind Reads Done Done _ (status_rows opts entries) g (status_rows-Runs opts entries g)
          (λ k q rows v. tt))

-- `status` only reads.
status-Runs :
    (place : Place) (opts : Options) (file : ManifestFile) (h : History)
    → Runs Reads Done h (status place opts file)
unfolding status
status-Runs place opts file h = of (read_manifest place true file)
  where
    of : (r : ReadManifest) → Runs Reads Done h (status_of (read_only_options opts) r)
    of (thrown message) = tt
    of (returned m) = status_rows-Runs (read_only_options opts) (manifest_entries m) h

module _ (lower_case : Text → Text) (host : Host) where
  abbrev identity : Arguments → Text → Request
  identity a region = request_of (read_only_options (aws_options a region)) get_caller_identity

  -- The service has named the account as the caller's; a dry run of `setup` has none.
  abbrev pub IsCaller : Arguments → Text → Mode → Text → History → Type 0
  IsCaller a region mode account h =
      (is_dry_setup lower_case host a mode ≡ true)
      ⊎ ((v : Value) × Replied (read_only_options (aws_options a region)) get_caller_identity
            (printed (some v)) h
          × (account ≡ account_of lower_case host v))

  -- The calls of a command, for the caller's account.
  abbrev pub CallOf : Arguments → Text → Mode → Text → History → Request → Type 0
  CallOf a region setup_mode account h r =
      Calls lower_case (setup_options a region account)
        (make_run_id lower_case host.run host.run_attempt host.random)
        (host.required a.smoke a.roles) h r
  CallOf a region teardown_mode account h r =
      InScope (teardown_options a region account a.sweep) (host.manifest_at a.manifest) (λ m.
        Sent (teardown_options a region account a.sweep)
          (TeardownCall (teardown_options a region account a.sweep) m) h r)
  CallOf a region status_mode account h r = IsReadOnly r.command
  CallOf a region reap_mode account h r =
      InScope (teardown_options a region account true) (host.manifest_at a.manifest) (λ m.
        Sent (teardown_options a region account true)
          (TeardownCall (teardown_options a region account true) m) h r)

  run_mode-Runs :
      (a : Arguments) (region : Text) (mode : Mode) (account : Text) (h : History)
      → Runs (CallOf a region mode account) Done h (run_mode lower_case host a region mode account)
  unfolding run_mode
  run_mode-Runs a region setup_mode account h =
      Runs-bind _ Done Done (λ m. done (set_up m))
        (setup lower_case (setup_options a region account) host.setup_schedule
          (make_run_id lower_case host.run host.run_attempt host.random)
          (host.required a.smoke a.roles))
        h
        (Runs-imp _ _ _ Done (λ g c q. q) (λ g m r. tt) _ h
          (Results-Runs lower_case (setup_options a region account)
            (make_run_id lower_case host.run host.run_attempt host.random) host.setup_schedule
            (host.required a.smoke a.roles) h))
        (λ g p m u. tt)
  run_mode-Runs a region teardown_mode account h =
      Runs-bind _ Done Done (λ n. done (torn_down n))
        (teardown (teardown_options a region account a.sweep) host.schedules
          (host.manifest_at a.manifest))
        h
        (Runs-imp _ _ _ Done (λ g c q. q) (λ g n r. tt) _ h
          (teardown-Runs (teardown_options a region account a.sweep) (host.manifest_at a.manifest)
            host.schedules h))
        (λ g p n u. tt)
  run_mode-Runs a region status_mode account h =
      Runs-bind Reads Done Done (λ rows. done (shown rows))
        (status (record { account = account; region = region }) (aws_options a region)
          (host.manifest_at a.manifest))
        h
        (status-Runs (record { account = account; region = region }) (aws_options a region)
          (host.manifest_at a.manifest) h)
        (λ g p rows u. tt)
  run_mode-Runs a region reap_mode account h =
      Runs-bind _ Done Done (λ n. done (torn_down n))
        (teardown (teardown_options a region account true) host.schedules
          (host.manifest_at a.manifest))
        h
        (Runs-imp _ _ _ Done (λ g c q. q) (λ g n r. tt) _ h
          (teardown-Runs (teardown_options a region account true) (host.manifest_at a.manifest)
            host.schedules h))
        (λ g p n u. tt)

  -- The calls of the program: first the question for the caller's identity, then those of the command.
  abbrev pub ModeCall : Arguments → Text → Mode → History → Request → Type 0
  ModeCall a region mode h r =
      (r ≡ request_of (read_only_options (aws_options a region)) get_caller_identity)
      ⊎ ((account : Text) × IsCaller a region mode account h × CallOf a region mode account h r)

  IsCaller-Stays :
      (a : Arguments) (region : Text) (mode : Mode) (account : Text)
      → Stays (IsCaller a region mode account)
  IsCaller-Stays a region mode account h g p (inl dry) = inl dry
  IsCaller-Stays a region mode account h g p (inr (v, seen, same)) = inr (v, Seen-⊑ _ p seen, same)

  called-Runs :
      (a : Arguments) (region : Text) (mode : Mode) (account : Text) (h : History)
      → IsCaller a region mode account h
      → Runs (ModeCall a region mode) Done h (run_mode lower_case host a region mode account)
  called-Runs a region mode account h caller =
      Runs-imp _ (ModeCall a region mode) _ Done (λ g c q. inr (account, q.0, q.1)) (λ g r u. tt)
        (run_mode lower_case host a region mode account) h
        (Runs-with (IsCaller a region mode account) (IsCaller-Stays a region mode account)
          (CallOf a region mode account) Done (run_mode lower_case host a region mode account) h
          caller (run_mode-Runs a region mode account h))

  identified-Runs :
      (a : Arguments) (region : Text) (mode : Mode) (h : History) (r : Tried)
      → TriedBy (read_only_options (aws_options a region)) get_caller_identity h r
      → Runs (ModeCall a region mode) Done h (identified lower_case host a region mode r)
  unfolding identified read_only_options
  identified-Runs a region mode h (failed stderr) t = tt
  identified-Runs a region mode h (succeeded none) t = tt
  identified-Runs a region mode h (succeeded (some v)) (inl dry) = absurd (cc dry.0)
  identified-Runs a region mode h (succeeded (some v)) (inr seen) =
      called-Runs a region mode (account_of lower_case host v) h (inr (v, seen, refl))

  pub run_in-Runs :
      (a : Arguments) (region : Text) (mode : Mode) (h : History)
      → Runs (ModeCall a region mode) Done h (run_in lower_case host a region mode)
  unfolding run_in
  run_in-Runs a region mode h =
      Runs-if (ModeCall a region mode) Done h (is_dry_setup lower_case host a mode) _ _
        (λ dry. called-Runs a region mode (codes "000000000000") h (inl dry))
        (λ wet.
          Runs-bind (ModeCall a region mode)
            (TriedBy (read_only_options (aws_options a region)) get_caller_identity) Done
            (identified lower_case host a region mode) _ h
            (aws_try-Runs (read_only_options (aws_options a region)) (ModeCall a region mode)
              get_caller_identity h (λ real. inl refl))
            (λ g p r t. identified-Runs a region mode g r t))

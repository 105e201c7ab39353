-- ===== src/Kms/Main.antt =====
-- scripts/real-kms-keys.mjs: `status` and `main`. What `main` finds around it (the files, the AWS CLI, the
-- configuration, the inventory and the random bytes) is the record Host. An account that a reply to
-- get-caller-identity leaves out is the empty text, which no key ARN has.
pub mod Calls
pub mod Commands
use keyobject_aws_kms.Prelude.{
  suc, ℕ, Bool, true, false, not, ◌&&◌, ◌||◌, Option, none, some, List, [], ◌∷◌, if◌then◌else◌,
  is_empty, Text, codes, text_eq, String,
}
use keyobject_aws_kms.Kms.MapLimit.{Limit, one_and}
use keyobject_aws_kms.Kms.Program.{
  get_caller_identity, Metadata, Value, Program, done, throw, aws_cli_error, other_error, Tried,
  succeeded, failed, Options, aws_try, read_only_options, attempt, ◌>>=◌,
}
use keyobject_aws_kms.Kms.Manifest.{ManifestKey, Manifest}
use keyobject_aws_kms.Kms.Validation.{
  Place, ManifestFile, missing, not_json, parsed, thrown, returned, ReadManifest, read_manifest,
}
use keyobject_aws_kms.Kms.Teardown.{TeardownOptions}
use keyobject_aws_kms.Kms.Cleanup.{Schedules}
use keyobject_aws_kms.Kms.Collect.{teardown, manifest_entries, or_else}
use keyobject_aws_kms.Kms.Setup.{SetupOptions, Wanted, make_run_id}
use keyobject_aws_kms.Kms.Provision.{setup, describe_alias}
use keyobject_aws_kms.Kms.Arguments.{
  Arguments, Parsed, rejected, accepted, Variables, first_set, parse_args,
}

-- A line of `status`; the fields of a key that does not exist are `none`.
pub record Row : Type 0 where
  pub alias : Text
  pub metadata : Option Metadata
  pub is_foreign : Bool

abbrev opt_eq : Text → Option Text → Bool
opt_eq a none = false
opt_eq a (some b) = text_eq a b

unfoldable pub row : ManifestKey → Option Metadata → Row
row key none = record { alias = or_else key.alias []; metadata = none; is_foreign = false }
row key (some metadata) = record {
  alias = or_else key.alias [];
  metadata = some metadata;
  is_foreign = not (opt_eq metadata.arn key.arn);
}

unfoldable pub status_rows : Options → List (Text × ManifestKey) → Program (List Row)
unfolding row
status_rows opts [] = done []
status_rows opts ((name, key) ∷ entries) =
    describe_alias opts (or_else key.alias []) >>= λ metadata.
    status_rows opts entries >>= λ rows. done (row key metadata ∷ rows)

unfoldable pub status_of : Options → ReadManifest → Program (List Row)
status_of opts (thrown message) = throw (other_error message)
status_of opts (returned m) = status_rows opts (manifest_entries m)

-- `status(opts)`.
unfoldable pub status : Place → Options → ManifestFile → Program (List Row)
unfolding status_of
status place opts file = status_of (read_only_options opts) (read_manifest place true file)

pub record Host : Type 0 where
  pub variables : Variables
  -- `process.env.CI` and `process.env.AWSKMS_ALLOW_AMBIENT_CREDENTIALS`, if they are set.
  pub is_ci : Bool
  pub allows_ambient : Bool
  pub run : Option Text
  pub run_attempt : Option Text
  pub random : Text
  pub has_aws_cli : Bool
  -- `configuredRegion(profile)`.
  pub configured_region : Text → Option Text
  -- The file at the path of a manifest.
  pub manifest_at : Text → ManifestFile
  -- `required({smokeOnly, roles})`.
  pub required : Bool → List Text → List Wanted
  pub setup_schedule : List ℕ
  pub schedules : Schedules

pub data Result : Type 0 where
  set_up : Manifest → Result
  torn_down : ℕ → Result
  shown : List Row → Result

pub data Mode : Type 0 where
  setup_mode teardown_mode status_mode reap_mode : Mode

unfoldable pub mode_of : Text → Option Mode
mode_of command =
    if text_eq command (codes "setup")
    then some setup_mode
    else if text_eq command (codes "teardown")
    then some teardown_mode
    else if text_eq command (codes "status")
    then some status_mode
    else if text_eq command (codes "reap")
    then some reap_mode
    else none

abbrev pub opt_mode : Option Text → Option Mode
opt_mode none = none
opt_mode (some command) = mode_of command

abbrev or_zero : Option ℕ → ℕ
or_zero n = or_else n 0

-- The limit is that number, which parseArgs has found to be positive; other values do not come here.
abbrev pub limit_of : Option ℕ → Limit
limit_of (some (suc more)) = one_and more
limit_of _ = one_and 0

abbrev pub is_truthy : Option Text → Bool
is_truthy none = false
is_truthy (some a) = not (is_empty a)

-- `opts` as the parts of the program read it, once the place is known.
abbrev pub aws_options : Arguments → Text → Options
aws_options a region = record { region = some region; profile = a.profile; dry_run = a.dry_run }

unfoldable pub teardown_options : Arguments → Text → Text → Bool → TeardownOptions
teardown_options a region account sweep = record {
  place = record { account = account; region = region };
  aws = aws_options a region;
  window = or_zero a.window;
  concurrency = limit_of a.concurrency;
  sweep = sweep;
  manifest_explicit = a.manifest_explicit;
}

unfoldable pub setup_options : Arguments → Text → Text → SetupOptions
setup_options a region account = record {
  place = record { account = account; region = region };
  aws = aws_options a region;
  concurrency = limit_of a.concurrency;
  roles = a.roles;
}

module _ (lower_case : Text → Text) (host : Host) where
  -- The `switch` on the command.
  unfoldable pub run_mode : Arguments → Text → Mode → Text → Program Result
  unfolding teardown_options setup_options
  run_mode a region setup_mode account =
      setup lower_case (setup_options a region account) host.setup_schedule
        (make_run_id lower_case host.run host.run_attempt host.random)
        (host.required a.smoke a.roles)
      >>= λ m. done (set_up m)
  run_mode a region teardown_mode account =
      teardown (teardown_options a region account a.sweep) host.schedules
        (host.manifest_at a.manifest)
      >>= λ n. done (torn_down n)
  run_mode a region status_mode account =
      status (record { account = account; region = region }) (aws_options a region)
        (host.manifest_at a.manifest)
      >>= λ rows. done (shown rows)
  run_mode a region reap_mode account =
      teardown (teardown_options a region account true) host.schedules (host.manifest_at a.manifest)
      >>= λ n. done (torn_down n)

  abbrev pub account_of : Value → Text
  account_of v = or_else v.account []

  unfoldable pub identified : Arguments → Text → Mode → Tried → Program Result
  identified a region mode (failed stderr) = throw (aws_cli_error stderr)
  identified a region mode (succeeded none) = throw (other_error "Cannot read properties of null")
  identified a region mode (succeeded (some v)) = run_mode a region mode (account_of v)

  abbrev pub is_dry_setup : Arguments → Mode → Bool
  is_dry_setup a setup_mode = a.dry_run
  is_dry_setup a _ = false

  -- From the account on.
  unfoldable pub run_in : Arguments → Text → Mode → Program Result
  run_in a region mode =
      if is_dry_setup a mode
      then run_mode a region mode (codes "000000000000")
      else (aws_try (read_only_options (aws_options a region)) get_caller_identity
          >>= identified a region mode)

  -- `opts.region`, or that of the profile.
  unfoldable pub region_of : Arguments → Option Text
  region_of a =
      if not (is_truthy a.region) && is_truthy a.profile
      then host.configured_region (or_else a.profile [])
      else a.region

  abbrev pub is_missing : ManifestFile → Bool
  is_missing missing = true
  is_missing _ = false

  abbrev pub lacks_manifest : Arguments → Mode → Bool
  lacks_manifest a teardown_mode = not a.sweep && is_missing (host.manifest_at a.manifest)
  lacks_manifest a _ = false

  unfoldable pub with_region : Arguments → Mode → Option Text → Program Result
  with_region a mode none = throw (other_error "no region")
  with_region a mode (some region) =
      if is_empty region
      then throw (other_error "no region")
      else if not (is_truthy a.profile) && not host.is_ci && not host.allows_ambient
      then throw (other_error "--profile is required outside CI")
      else run_in a region mode

  unfoldable pub run_command : Option Mode → Parsed → Program Result
  unfolding region_of with_region
  run_command mode (rejected message) = throw (other_error message)
  run_command none (accepted a) = throw (other_error "usage")
  run_command (some mode) (accepted a) =
      if lacks_manifest a mode
      then throw (other_error "manifest not found")
      else if not host.has_aws_cli
      then throw (other_error "the aws CLI is required and was not found on PATH")
      else with_region a mode (region_of a)

  -- `main()`: `argv` is `process.argv.slice(2)`.
  unfoldable pub main_program : (Text → Option ℕ) → List Text → Program Result
  unfolding run_command mode_of
  main_program number argv =
      let read = parse_args number host.variables argv in run_command (opt_mode read.0) read.1

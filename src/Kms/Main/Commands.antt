-- ===== src/Kms/Main/Commands.antt =====
-- The whole of scripts/real-kms-keys.mjs, from its arguments on.
use keyobject_aws_kms.Prelude.{
  arith, ℕ, ◌≡◌, refl, true, false, not, ◌&&◌, ◌||◌, Option, none, some, List, Text, is_empty,
}
use keyobject_aws_kms.Kms.Program.{Request, throw, other_error}
use keyobject_aws_kms.Kms.Program.Logic.{History, Runs, Runs-if}
use keyobject_aws_kms.Kms.Program.After.{Runs-imp}
use keyobject_aws_kms.Kms.Arguments.{Arguments, Parsed, rejected, accepted, parse_args}
use keyobject_aws_kms.Kms.Main.{
  Host, Mode, opt_mode, is_truthy, run_in, region_of, lacks_manifest, with_region, run_command,
  main_program,
}
use keyobject_aws_kms.Kms.Main.Calls.{Done, ModeCall, run_in-Runs}

module _ (lower_case : Text → Text) (host : Host) where
  -- The credentials were chosen, or may be those around the program.
  abbrev pub HasCredentials : Arguments → Type 0
  HasCredentials a = (is_truthy a.profile || host.is_ci || host.allows_ambient) ≡ true

  -- A call of a command that was accepted.
  abbrev pub CommandCall : Option Mode → Parsed → History → Request → Type 0
  CommandCall mode p h r =
      (a : Arguments) × (region : Text) × (m : Mode) × (mode ≡ some m)
      × (p ≡ accepted a)
      × HasCredentials a
      × (is_empty region ≡ false)
      × ModeCall lower_case host a region m h r

  with_region-Runs :
      (a : Arguments) (m : Mode) (region : Option Text) (h : History)
      → Runs (CommandCall (some m) (accepted a)) Done h (with_region lower_case host a m region)
  unfolding with_region
  with_region-Runs a m none h = tt
  with_region-Runs a m (some region) h =
      Runs-if (CommandCall (some m) (accepted a)) Done h (is_empty region)
        (throw (other_error "no region")) _ (λ e. tt)
        (λ full.
          Runs-if (CommandCall (some m) (accepted a)) Done h
            (not (is_truthy a.profile) && not host.is_ci && not host.allows_ambient)
            (throw (other_error "--profile is required outside CI"))
            (run_in lower_case host a region m) (λ e. tt)
            (λ chosen.
              Runs-imp (ModeCall lower_case host a region m) (CommandCall (some m) (accepted a))
                Done Done (λ g c q. (a, region, m, refl, refl, ground arith, full, q)) (λ g r u. tt)
                (run_in lower_case host a region m) h (run_in-Runs lower_case host a region m h)))

  run_command-Runs :
      (mode : Option Mode) (p : Parsed) (h : History)
      → Runs (CommandCall mode p) Done h (run_command lower_case host mode p)
  unfolding run_command
  run_command-Runs mode (rejected message) h = tt
  run_command-Runs none (accepted a) h = tt
  run_command-Runs (some m) (accepted a) h =
      Runs-if (CommandCall (some m) (accepted a)) Done h (lacks_manifest lower_case host a m)
        (throw (other_error "manifest not found")) _ (λ e. tt)
        (λ has.
          Runs-if (CommandCall (some m) (accepted a)) Done h (not host.has_aws_cli)
            (throw (other_error "the aws CLI is required and was not found on PATH"))
            (with_region lower_case host a m (region_of lower_case host a)) (λ e. tt)
            (λ cli. with_region-Runs a m (region_of lower_case host a) h))

  -- The whole program, for all replies and all interleavings. It makes no call unless its arguments
  -- are accepted, name one of the four commands, a region is known, and a profile is chosen or the
  -- credentials around the program may be used. It asks for the caller's identity; any other call is
  -- made for the account of a reply to that (or in a dry run of `setup`), and is one of those
  -- of the command: `setup` creates keys and aliases as it may, `teardown` and `reap` delete only
  -- targets in their scope that passed the preflight, and `status` only reads.
  pub main_program-Runs :
      (number : Text → Option ℕ) (argv : List Text) (h : History)
      → Runs
          (CommandCall
            (opt_mode (parse_args number host.variables argv).0)
            (parse_args number host.variables argv).1)
          Done
          h
          (main_program lower_case host number argv)
  unfolding main_program
  main_program-Runs number argv h =
      run_command-Runs (opt_mode (parse_args number host.variables argv).0)
        (parse_args number host.variables argv).1 h

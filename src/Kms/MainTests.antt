-- ===== src/Kms/MainTests.antt =====
-- Runs of the arguments and the commands of scripts/real-kms-keys.mjs on concrete values.
use keyobject_aws_kms.Prelude.{
  ℕ, ◌≡◌, refl, true, false, Option, none, some, List, [], ◌∷◌, Text, codes, text_eq,
}
use keyobject_aws_kms.Kms.Program.Logic.{Runs}
use keyobject_aws_kms.Kms.Manifest.{all_roles}
use keyobject_aws_kms.Kms.Validation.{missing}
use keyobject_aws_kms.Kms.Arguments.{Arguments, accepted, Variables, parse_args}
use keyobject_aws_kms.Kms.Arguments.Bounds.{IsInBounds, parse_args-IsInBounds}
use keyobject_aws_kms.Kms.Main.{Host, opt_mode, main_program}
use keyobject_aws_kms.Kms.Main.Calls.{Done}
use keyobject_aws_kms.Kms.Main.Commands.{CommandCall, main_program-Runs}

abbrev same_case : Text → Text
same_case s = s

abbrev two : Text → Option ℕ
two s = some 2

abbrev variables : Variables
variables = record { aws_region = some (codes "r"); aws_default_region = none; aws_profile = none }

abbrev argv : List Text
argv = codes "reap" ∷ codes "--concurrency" ∷ codes "2" ∷ codes "--dry-run" ∷ []

abbrev options : Arguments
options = record {
  region = some (codes "r");
  profile = none;
  smoke = false;
  roles = all_roles;
  roles_explicit = false;
  manifest = codes "build/real-kms-keys.json";
  manifest_explicit = false;
  window = some 7;
  concurrency = some 2;
  sweep = false;
  dry_run = true;
  json = false;
}

abbrev host : Host
host = record {
  variables = variables;
  is_ci = true;
  allows_ambient = false;
  run = none;
  run_attempt = none;
  random = codes "0123456789abcdef01234567";
  has_aws_cli = true;
  configured_region = λ profile. none;
  manifest_at = λ path. missing;
  required = λ smoke roles. [];
  setup_schedule = [];
  schedules = record { preflights = 1 ∷ []; aliases = []; keys = [] };
}

arguments_read : (parse_args two variables argv).1 ≡ accepted options
unfolding parse_args text_eq
arguments_read = refl

parse_args-IsInBounds_example : IsInBounds (parse_args two variables argv).0 options
parse_args-IsInBounds_example = parse_args-IsInBounds two variables argv options arguments_read

main_program-Runs_example :
    Runs
      (CommandCall same_case host
        (opt_mode (parse_args two host.variables argv).0)
        (parse_args two host.variables argv).1)
      Done
      []
      (main_program same_case host two argv)
main_program-Runs_example = main_program-Runs same_case host two argv []

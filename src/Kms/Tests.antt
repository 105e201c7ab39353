-- ===== src/Kms/Tests.antt =====
-- Runs of scripts/real-kms-keys.mjs on concrete values.
use keyobject_aws_kms.Prelude.{
  ℕ, ◌≡◌, refl, ◌↔◌, false, none, some, List, [], ◌∷◌, ◌++◌, Text, codes, text_eq, starts_with,
}
use keyobject_aws_kms.Kms.Program.{Request, sleep, Program, done, call}
use keyobject_aws_kms.Kms.Program.Logic.{History, Runs}
use keyobject_aws_kms.Kms.MapLimit.{map_limit, one_and}
use keyobject_aws_kms.Kms.MapLimit.Results.{Outputs, map_limit-Runs}
use keyobject_aws_kms.Kms.Manifest.{
  KeyArn, parse_key_arn, is_line_end, ManifestKey, absent, Manifest, Tags, expected_tags,
  alias_prefix, owner_tag, owner_value, is_run_id, includes,
}
use keyobject_aws_kms.Kms.Manifest.Arn.{IsKeyArn, parse_key_arn_iff}
use keyobject_aws_kms.Kms.Validation.{Place, opt_is, tags_eq, validate_manifest}
use keyobject_aws_kms.Kms.Validation.Accepted.{IsOfCaller, validate_manifest-IsOfCaller}
use keyobject_aws_kms.Kms.Teardown.{TeardownOptions, Target, verify_owned_target, preflight}
use keyobject_aws_kms.Kms.Teardown.Evidence.{Verified, verify_owned_target-Runs}
use keyobject_aws_kms.Kms.Cleanup.{Schedules, cleanup}
use keyobject_aws_kms.Kms.Cleanup.Preflight.{Preflighted, preflight-Runs}
use keyobject_aws_kms.Kms.Cleanup.Safety.{Allowed, reads}
use keyobject_aws_kms.Kms.Cleanup.Whole.{Returned, cleanup-Runs}

abbrev place : Place
place = record { account = codes "123456789012"; region = codes "r" }

abbrev opts : TeardownOptions
opts = record {
  place = place;
  aws = record { region = some (codes "r"); profile = none; dry_run = false };
  window = 7;
  concurrency = one_and 1;
  sweep = false;
  manifest_explicit = false;
}

abbrev arn : Text
arn = codes "arn:aws:kms:r:123456789012:key/k"

abbrev parts : KeyArn
parts = record { region = codes "r"; account = codes "123456789012"; key_id = codes "k" }

abbrev run_id : Text
run_id = codes "local-0123456789abcdef01234567"

abbrev alias : Text
alias = alias_prefix ++ run_id ++ codes "-test-rsa"

abbrev tags : Tags
tags =
    (owner_tag, owner_value)
    ∷ (codes "awskms-run", run_id)
    ∷ (codes "awskms-role", codes "test")
    ∷ (codes "awskms-spec", codes "RSA")
    ∷ []

abbrev target : Target
target = record {
  id = arn;
  alias = some alias;
  key_spec = some (codes "RSA");
  expected_tags = tags;
}

abbrev swept : Target
swept = record {
  id = codes "arn:aws:kms:r:123456789012:key/m";
  alias = none;
  key_spec = none;
  expected_tags = (owner_tag, owner_value) ∷ [];
}

abbrev targets : List Target
targets = target ∷ swept ∷ []

abbrev schedules : Schedules
schedules = record { preflights = 1 ∷ 0 ∷ 1 ∷ []; aliases = []; keys = 1 ∷ [] }

abbrev manifest_key : ManifestKey
manifest_key = record {
  arn = some arn;
  key_id = some (codes "k");
  role = some (codes "test");
  spec = some (codes "RSA");
  alias = some alias;
  key_spec = none;
  expected_tags = some tags;
}

abbrev manifest : Manifest
manifest = record {
  version = some 1;
  account = some place.account;
  region = some place.region;
  run_id = some run_id;
  roles = absent;
  keys = some ((codes "rsa", manifest_key) ∷ []);
}

cleanup-Runs_example :
    Runs (Allowed opts targets) (Returned opts targets) [] (cleanup opts schedules targets)
cleanup-Runs_example = cleanup-Runs opts targets schedules []

verify_owned_target-Runs_example :
    Runs (Allowed opts targets) (Verified opts target) [] (verify_owned_target opts target)
verify_owned_target-Runs_example =
    verify_owned_target-Runs opts (Allowed opts targets) (reads opts targets) target []

preflight-Runs_example :
    Runs (Allowed opts targets) (Preflighted opts target) [] (preflight opts target)
preflight-Runs_example = preflight-Runs opts (Allowed opts targets) (reads opts targets) target []

is_valid : validate_manifest place manifest ≡ none
unfolding validate_manifest opt_is text_eq is_run_id parse_key_arn is_line_end includes starts_with
    tags_eq expected_tags
is_valid = refl

validate_manifest-IsOfCaller_example : IsOfCaller place manifest
validate_manifest-IsOfCaller_example = validate_manifest-IsOfCaller place manifest is_valid

parse_key_arn_iff_example : (parse_key_arn arn ≡ some parts) ↔ IsKeyArn arn parts
parse_key_arn_iff_example = parse_key_arn_iff arn parts

abbrev Anything : History → Request → Type 0
Anything h c = Unit

-- A program that pauses and then gives its own number back.
abbrev pausing : ℕ → Program ℕ
pausing n = call (record { command = sleep n; region = none; profile = none }) (λ r. done n)

map_limit-Runs_example :
    Runs Anything
      (λ h ns.
        Outputs Anything (λ c g h p u. tt) (λ n h m. m ≡ n) (λ n m g h p e. e) h (3 ∷ 5 ∷ []) ns)
      []
      (map_limit (1 ∷ 0 ∷ []) (3 ∷ 5 ∷ []) (one_and 1) pausing)
map_limit-Runs_example =
    map_limit-Runs Anything (λ c g h p u. tt) (λ n h m. m ≡ n) (λ n m g h p e. e) (1 ∷ 0 ∷ [])
      (3 ∷ 5 ∷ []) (one_and 1) pausing [] ((tt, λ r. refl), ((tt, λ r. refl), tt))

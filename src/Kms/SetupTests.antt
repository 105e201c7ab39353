-- ===== src/Kms/SetupTests.antt =====
-- Runs of `setup` of scripts/real-kms-keys.mjs on concrete values.
use keyobject_aws_kms.Prelude.{
  ◌≡◌, refl, true, false, none, some, [], ◌∷◌, ◌++◌, Text, codes, text_eq, starts_with,
}
use keyobject_aws_kms.Kms.Program.Logic.{Runs}
use keyobject_aws_kms.Kms.MapLimit.{one_and}
use keyobject_aws_kms.Kms.Manifest.{
  is_run_id, is_random_part, is_unique, includes, expected_tags, is_line_end, parse_key_arn, listed,
}
use keyobject_aws_kms.Kms.Validation.{valid_roles, validate_manifest, is_in_place}
use keyobject_aws_kms.Kms.Setup.{SetupOptions, Wanted, make_run_id, alias_for}
use keyobject_aws_kms.Kms.Setup.RunId.{make_run_id-is_run_id}
use keyobject_aws_kms.Kms.Provision.{Created, unavailable, created, setup_manifest, setup}
use keyobject_aws_kms.Kms.Provision.Valid.{IsGood, setup_manifest-validate_manifest}
use keyobject_aws_kms.Kms.Provision.Whole.{Calls, SetUp, setup-Runs}

abbrev same_case : Text → Text
same_case s = s

abbrev opts : SetupOptions
opts = record {
  place = record { account = codes "123456789012"; region = codes "r" };
  aws = record { region = some (codes "r"); profile = none; dry_run = false };
  concurrency = one_and 1;
  roles = codes "test" ∷ [];
}

abbrev random_part : Text
random_part = codes "0123456789abcdef01234567"

abbrev run_id : Text
run_id = codes "local-" ++ random_part

abbrev rsa : Wanted
rsa = record { role = codes "test"; spec = codes "RSA_2048" }

abbrev ecc : Wanted
ecc = record { role = codes "test"; spec = codes "ECC_NIST_P256" }

abbrev key : Created
key = record {
  wanted = rsa;
  alias = alias_for same_case run_id rsa;
  key_id = codes "k";
  arn = codes "arn:aws:kms:r:123456789012:key/k";
  key_spec = some (codes "RSA_2048");
  tags = expected_tags run_id (codes "test") (codes "RSA_2048");
}

good_run_id : is_run_id run_id ≡ true
unfolding is_run_id
good_run_id = refl

good_roles : valid_roles (listed opts.roles) ≡ some opts.roles
unfolding valid_roles is_unique text_eq
good_roles = refl

test_role : includes opts.roles (codes "test") ≡ true
unfolding includes text_eq
test_role = refl

IsGood-key : IsGood opts.place run_id opts.roles key
unfolding parse_key_arn is_in_place text_eq is_line_end starts_with alias_for
IsGood-key = record {
  parts = record { region = codes "r"; account = codes "123456789012"; key_id = codes "k" };
  has_parts = refl;
  inside = refl;
  has_id = refl;
  has_role = test_role;
  in_namespace = refl;
  has_tags = refl;
}

setup_manifest-validate_manifest_example :
    validate_manifest opts.place (setup_manifest opts run_id (unavailable ecc ∷ created key ∷ []))
    ≡ none
setup_manifest-validate_manifest_example =
    setup_manifest-validate_manifest opts run_id (unavailable ecc ∷ created key ∷ []) good_run_id
      good_roles (tt, (IsGood-key, tt))

setup-Runs_example :
    Runs
      (Calls same_case opts run_id (rsa ∷ ecc ∷ []))
      (SetUp same_case opts run_id)
      []
      (setup same_case opts (1 ∷ 0 ∷ []) run_id (rsa ∷ ecc ∷ []))
setup-Runs_example =
    setup-Runs same_case opts run_id (1 ∷ 0 ∷ []) (rsa ∷ ecc ∷ []) [] good_run_id good_roles
      (test_role, (test_role, tt))

good_random : is_random_part random_part ≡ true
unfolding is_random_part
good_random = refl

make_run_id-is_run_id_example :
    is_run_id (make_run_id same_case (some (codes "17")) (some (codes "2")) random_part) ≡ true
make_run_id-is_run_id_example =
    make_run_id-is_run_id same_case (some (codes "17")) (some (codes "2")) random_part (refl, refl)
      (refl, refl) good_random refl

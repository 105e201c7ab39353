-- ===== src/Kms/Provision.antt =====
-- scripts/real-kms-keys.mjs: the function that `setup` runs for each wanted key, and `setup`.
pub mod Calls
pub mod Valid
pub mod Whole
use keyobject_aws_kms.Prelude.{
  ℕ, zero, suc, Bool, true, false, not, Option, none, some, List, [], ◌∷◌, ◌++◌, if◌then◌else◌,
  Text, codes, text_eq, String,
}
use keyobject_aws_kms.Kms.Program.{
  describe_key, create_key, create_alias, Metadata, Value, Program, done, throw, Failure,
  other_error, Options, aws_try, attempt, ◌>>=◌, ◌>>◌,
}
use keyobject_aws_kms.Kms.MapLimit.{map_limit}
use keyobject_aws_kms.Kms.Manifest.{Tags, ManifestKey, Manifest, listed, expected_tags}
use keyobject_aws_kms.Kms.Validation.{Place}
use keyobject_aws_kms.Kms.Teardown.{value_metadata, if_found}
use keyobject_aws_kms.Kms.Setup.{
  SetupOptions, Wanted, alias_for, is_unsupported_spec, with_retry, more_attempts, first_delay,
  poll_enabled,
}

-- A key with what `setup` knows of it.
pub record Created : Type 0 where
  pub wanted : Wanted
  pub alias : Text
  pub key_id : Text
  pub arn : Text
  pub key_spec : Option Text
  pub tags : Tags

pub data Provisioned : Type 0 where
  unavailable : Wanted → Provisioned
  created : Created → Provisioned

-- `describeAlias(alias, opts)`.
unfoldable pub describe_alias : Options → Text → Program (Option Metadata)
describe_alias opts alias = do
  described ← aws_try opts (describe_key alias)
  if_found described (done none) (λ value. done (value_metadata value))

-- The label of a key, `${key.role}-${key.spec}`.
abbrev pub label : Wanted → Text
label w = w.role ++ codes "-" ++ w.spec

abbrev pub description : Text → Wanted → Text
description run_id w =
    codes "keyobject-aws-kms test key (" ++ run_id ++ codes " " ++ label w ++ codes ")"

-- Behind the creation of the key: it becomes enabled and gets its alias.
unfoldable pub finish_key :
    SetupOptions → Wanted → Text → Tags → Option Metadata → Program Provisioned
finish_key opts w alias tags none = throw (other_error "Cannot read properties of undefined")
finish_key opts w alias tags (some metadata) = do
  poll_enabled opts.aws metadata.key_id 30
  aliased ← with_retry opts.aws (create_alias alias metadata.key_id) more_attempts first_delay
  done (
      created (record {
        wanted = w;
        alias = alias;
        key_id = metadata.key_id;
        arn = metadata.arn;
        key_spec = some metadata.key_spec;
        tags = tags;
      }))

unfoldable pub created_reply :
    SetupOptions → Wanted → Text → Tags → Option Value → Program Provisioned
created_reply opts w alias tags value =
    if opts.aws.dry_run
    then done (
        created (record {
          wanted = w;
          alias = alias;
          key_id = codes "(dry-run)";
          arn = codes "(dry-run)";
          key_spec = none;
          tags = tags;
        }))
    else finish_key opts w alias tags (value_metadata value)

-- A spec that the region does not have is skipped.
unfoldable pub not_created : Wanted → Failure → Program Provisioned
not_created w e = if is_unsupported_spec e then done (unavailable w) else throw e

unfoldable pub if_no_alias :
    SetupOptions → Text → Wanted → Text → Tags → Option Metadata → Program Provisioned
if_no_alias opts run_id w alias tags (some metadata) =
    throw (other_error "refusing to replace the already-existing run alias")
if_no_alias opts run_id w alias tags none =
    attempt
      (with_retry opts.aws (create_key w.spec (description run_id w) tags) more_attempts
        first_delay)
      (created_reply opts w alias tags) (not_created w)

-- `keys[name] = key`.
unfoldable pub put_key : Text → ManifestKey → List (Text × ManifestKey) → List (Text × ManifestKey)
put_key name key [] = (name, key) ∷ []
put_key name key ((n, k) ∷ keys) =
    let rest = put_key name key keys in if text_eq n name then (n, key) ∷ keys else (n, k) ∷ rest

unfoldable pub key_of : Created → ManifestKey
key_of c = record {
  arn = some c.arn;
  key_id = some c.key_id;
  role = some c.wanted.role;
  spec = some c.wanted.spec;
  alias = some c.alias;
  key_spec = c.key_spec;
  expected_tags = some c.tags;
}

-- The loop over the results.
unfoldable pub put_results :
    List (Text × ManifestKey) → List Provisioned → List (Text × ManifestKey)
unfolding put_key key_of
put_results keys [] = keys
put_results keys (unavailable w ∷ results) = put_results keys results
put_results keys (created c ∷ results) =
    put_results (put_key (label c.wanted) (key_of c) keys) results

unfoldable pub setup_manifest : SetupOptions → Text → List Provisioned → Manifest
unfolding put_results
setup_manifest opts run_id results = record {
  version = some 1;
  account = some opts.place.account;
  region = some opts.place.region;
  run_id = some run_id;
  roles = listed opts.roles;
  keys = some (put_results [] results);
}

module _ (lower_case : Text → Text) where
  -- The function of `mapLimit` in `setup`.
  unfoldable pub provision : SetupOptions → Text → Wanted → Program Provisioned
  provision opts run_id w =
      let alias = alias_for lower_case run_id w in
      describe_alias opts.aws alias
      >>= if_no_alias opts run_id w alias (expected_tags run_id w.role w.spec)

  -- `setup(opts)`: the manifest that it returns and, unless it is a dry run, writes.
  unfoldable pub setup : SetupOptions → List ℕ → Text → List Wanted → Program Manifest
  setup opts schedule run_id wanted =
      map_limit schedule wanted opts.concurrency (provision opts run_id) >>= λ results.
      done (setup_manifest opts run_id results)

-- ===== src/Lifecycle/Attestation.antt =====
-- The attestation of a payload (stageAttestationBundle, reuseAttestationBundle and comparePayloads of
-- scripts/release-lifecycle.mjs).
pub mod Reused
use keyobject_aws_kms.Prelude.{
  ℕ, ◌==◌, Bool, true, false, not, ◌&&◌, ◌||◌, Option, none, some, List, [], ◌∷◌, ◌++◌, map, all,
  any, if◌then◌else◌, Text, codes, text_eq, starts_with, is_empty, ltb,
}
use keyobject_aws_kms.Effects.{Io, done, throw, attempt, ◌>>=◌, ◌>>◌, catch}
use keyobject_aws_kms.Release.Version.{sorted, texts_eq, lookup, keys_of}
use keyobject_aws_kms.Lifecycle.Machine.{
  Bytes, Failure, Completed, Manifest, Bundle, Statement, Tools, Request, run, list_directory,
  read_file, copy_file, exists, sys, Script, fail, parsed, command,
}
use keyobject_aws_kms.Lifecycle.Payload.{
  release_subjects, expected_payload, attestation_bundle_name, inspect_attestation_bundle,
  inspect_payload,
}

module _ (tools : Tools) where
  -- `stageAttestationBundle(directory, source, version)`.
  unfoldable pub stage_attestation_bundle : Text → Text → Text → Script Text
  stage_attestation_bundle directory source version = do
    inspect_payload tools directory version false
    inspect_attestation_bundle tools source directory (release_subjects version)
    let destination = tools.join directory attestation_bundle_name
    there ← sys (exists destination)
    if there then fail (codes "refusing to overwrite " ++ attestation_bundle_name) else done tt
    sys (copy_file source destination false)
    inspect_payload tools directory version true
    done destination

  -- The names whose files differ.
  unfoldable pub changed_files : Text → Text → List Text → Script (List Text)
  changed_files previous current [] = done []
  changed_files previous current (name ∷ names) = do
    before ← sys (read_file (tools.join previous name))
    after ← sys (read_file (tools.join current name))
    rest ← changed_files previous current names
    done (if text_eq before after then rest else name ∷ rest)

  unfoldable pub require_unchanged : Text → Text → List Text → Script (Unit {0})
  require_unchanged previous current names = do
    changed ← changed_files previous current names
    if is_empty changed then done tt else fail (codes "release payload changed across run attempts")

  -- `reuseAttestationBundle(previous, current, version)`.
  unfoldable pub reuse_attestation_bundle : Text → Text → Text → Script (Unit {0})
  reuse_attestation_bundle previous current version = do
    inspect_payload tools previous version true
    inspect_payload tools current version false
    require_unchanged previous current (expected_payload version false)
    sys (
        copy_file (tools.join previous attestation_bundle_name)
          (tools.join current attestation_bundle_name) true)
    inspect_payload tools current version true
    done tt

  -- `comparePayloads(previous, current, version)`.
  unfoldable pub compare_payloads : Text → Text → Text → Script (Unit {0})
  compare_payloads previous current version = do
    inspect_payload tools previous version true
    inspect_payload tools current version true
    require_unchanged previous current (expected_payload version true)

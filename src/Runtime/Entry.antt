-- ===== src/Runtime/Entry.antt =====
-- What the npm package exports (npm/core/index.js from resolveModule to isSupported): the paths of the
-- provider and of its OpenSSL config, the registration, and the compatibility check.
pub mod Sound
pub mod Located
pub mod Configured
pub mod Supported
pub mod Exports
pub mod Promises
pub mod Denied
use keyobject_aws_kms.Prelude.{
  ℕ, Bool, true, false, ◌&&◌, ◌||◌, ◌==◌, if◌then◌else◌, Option, none, some, List, [], ◌∷◌, ◌++◌,
  any, length, Text, codes, text_eq,
}
use keyobject_aws_kms.Effects.{done, throw, read_state, assign, attempt, ◌>>=◌, ◌>>◌}
use keyobject_aws_kms.Runtime.Host.{
  Bytes, Failure, error, caused_error, code_of, message_of, has_code, Host, dlopen, probe,
  Satellite, PrivateFile, Module, Script, sys,
}
use keyobject_aws_kms.Runtime.Satellite.{resolve_satellite}
use keyobject_aws_kms.Runtime.Directory.{failure}
use keyobject_aws_kms.Runtime.File.{validate_private_file, write_private_file}
use keyobject_aws_kms.Runtime.Config.{Result, returns, throws, render_config}

-- `s.endsWith('.zip')`, with something in front.
abbrev is_archive : Text → Bool
is_archive [] = false
is_archive (c ∷ s) = text_eq s (codes ".zip") || is_archive s

-- The parts of a path that a `/` ends.
abbrev folders_from : Text → Text → List Text
folders_from folder [] = []
folders_from folder (c ∷ s) =
    let next = folders_from [] s in
    let same = folders_from (folder ++ c ∷ []) s in if c == b'/' then folder ∷ next else same

-- `/(?:^|\/)[^/]+\.zip\//u.test(path)`.
unfoldable pub inside_archive : Text → Bool
inside_archive path = any is_archive (folders_from [] path)

-- What `runtimeCapabilityFailure` and `isSupported` report.
pub data Support : Type 0 where
  supported : Support
  unsupported : (code reason : Text) → Support

abbrev pub permission_denied : Text
permission_denied = codes "ERR_AWSKMS_PERMISSION_DENIED"

unfoldable pub is_denied : Failure → Bool
is_denied e =
    has_code e (codes "EACCES")
    || has_code e (codes "EPERM")
    || has_code e (codes "ERR_ACCESS_DENIED")

-- `permissionFailure(error)`: the message of the first error of the chain of causes that denies.
unfoldable pub permission_failure : Failure → Option Text
permission_failure (error code message) =
    if is_denied (error code message) then some message else none
permission_failure (caused_error code message cause) =
    let later = permission_failure cause in
    if is_denied (caused_error code message cause) then some message else later

abbrev pub code_or : Text → Failure → Text
code_or default e = elim (code_of e) [ some code ↦ code | none ↦ default ]

-- What `isSupported` reports of an error of `modulePath`.
unfoldable pub refused : Failure → Support
refused e = refused_with (permission_failure e)
  where
    refused_with : Option Text → Support
    refused_with (some reason) = unsupported permission_denied reason
    refused_with none = unsupported (code_or (codes "ERR_AWSKMS_UNKNOWN") e) (message_of e)

module _ (host : Host) where
  abbrev no_loader : Text
  no_loader =
      codes "node "
      ++ host.node_version
      ++ codes
          " cannot load private keys from URL objects; this Node build does not include the OpenSSL STORE key loader."

  -- What the error of the probe says; `none` where the runtime has what the provider needs.
  unfoldable pub probe_failure : Failure → Option Support
  probe_failure e =
      if has_code e (codes "ERR_INVALID_ARG_TYPE")
      then some (unsupported (codes "ERR_AWSKMS_UNSUPPORTED_RUNTIME") no_loader)
      else if has_code e (codes "ERR_ACCESS_DENIED")
      then some (
          unsupported permission_denied
            (codes "Node denied the OpenSSLStore permission; start it with --allow-openssl-store."))
      else if has_code e (codes "ERR_OSSL_OSSL_STORE_UNSUPPORTED")
          || has_code e (codes "ERR_OSSL_AWSKMS_INVALID_URI")
      then none
      else some (
          unsupported (codes "ERR_AWSKMS_RUNTIME_PROBE_FAILED") (
            codes "The URL-key capability probe failed unexpectedly: " ++ code_or (message_of e) e))

  -- `runtimeCapabilityFailure()`.
  unfoldable pub runtime_capability_failure : Script (Option Support)
  runtime_capability_failure =
      attempt (sys probe)
        (λ accepted. done (
          some (
            unsupported (codes "ERR_AWSKMS_RUNTIME_PROBE_FAILED") (
              codes
                "The URL-key capability probe unexpectedly accepted an invalid aws-kms: URI."))))
        (λ e. done (probe_failure e))

  module _ (rounds : ℕ) where
    abbrev pub module_name : Text
    module_name =
        if text_eq host.platform (codes "darwin") then codes "aws-kms.dylib" else codes "aws-kms.so"

    unfoldable pub copied_module : PrivateFile → Module
    copied_module copied = record { path = copied.path; private_file = some copied }

    unfoldable pub module_of : Satellite → Script Module
    module_of satellite =
        if inside_archive satellite.module_file.path
        then write_private_file host rounds module_name satellite.module_file.bytes 320
          >>= (λ copied. done (copied_module copied))
        else done (record { path = satellite.module_file.path; private_file = none })

    -- `resolveModule()`.
    unfoldable pub resolve_module : Script Module
    resolve_module = resolve_satellite host >>= module_of

    abbrev pub remember_module : Module → Script Module
    remember_module m = read_state (λ s. assign (record s { cached_module = some m }) (done m))

    unfoldable pub module_or_new : Option Module → Script Module
    module_or_new (some m) = done m
    module_or_new none = resolve_module >>= remember_module

    unfoldable pub validate_copy : Option PrivateFile → Script (Unit {0})
    validate_copy none = done tt
    validate_copy (some file) = validate_private_file host file

    -- `modulePath()`.
    unfoldable pub module_path : Script Text
    module_path = do
      m ← read_state (λ s. module_or_new s.cached_module)
      resolve_satellite host
      validate_copy m.private_file
      done m.path

    abbrev pub settled : Result Text → Script Text
    settled (returns a) = done a
    settled (throws e) = throw e

    -- The config as `opensslConfigPath` renders it.
    unfoldable pub rendered_config : Text → Satellite → Script Bytes
    rendered_config library satellite =
        settled (render_config (host.decode satellite.config_file.bytes) library)
        >>= (λ rendered. done (host.encode rendered))

    unfoldable pub same_config : PrivateFile → Bytes → Bool
    same_config file rendered =
        text_eq file.digest (host.sha256 rendered) && length file.bytes == length rendered

    abbrev pub remember_config : PrivateFile → Script PrivateFile
    remember_config file =
        read_state (λ s. assign (record s { cached_config = some file }) (done file))

    unfoldable pub config_file_of : Bytes → Option PrivateFile → Script PrivateFile
    config_file_of rendered none =
        write_private_file host rounds (codes "awskms.cnf") rendered 256 >>= remember_config
    config_file_of rendered (some file) =
        if same_config file rendered
        then validate_private_file host file >> done file
        else throw (failure (codes "The generated OpenSSL config changed within this process."))

    -- `opensslConfigPath()`.
    unfoldable pub openssl_config_path : Script Text
    openssl_config_path = do
      library ← module_path
      satellite ← resolve_satellite host
      rendered ← rendered_config library satellite
      file ← read_state (λ s. config_file_of rendered s.cached_config)
      done file.path

    unfoldable pub load : Script (Unit {0})
    load = do
      path ← module_path
      sys (dlopen path)
      read_state (λ s. assign (record s { registered = true }) (done tt))

    -- `register()`.
    unfoldable pub register : Script (Unit {0})
    register = read_state (λ s. if s.registered then done tt else load)

    unfoldable pub supported_module : Option Support → Script Support
    supported_module (some failure) = done failure
    supported_module none = attempt module_path (λ path. done supported) (λ e. done (refused e))

    -- `isSupported()`.
    unfoldable pub is_supported : Script Support
    is_supported = runtime_capability_failure >>= supported_module

-- ===== src/Cli/Dispatch/Status.antt =====
-- The exit status of the commands of npm/core/bin/awskms.js.
use keyobject_aws_kms.Prelude.{
  ◌≡◌, refl, ◌≢◌, Bool, true, false, Option, none, some, List, [], ◌∷◌, arith, Text,
}
use keyobject_aws_kms.Cli.Command.{
  Process, Support, Runtime, Request, Spawned, exited, Outcome, exit_code, Step, next, stop,
  outcome, split_separator, parse_replace_from, parse_replace_option, require_config_permission,
  environment_with_config, or_throw, require_separator, require_target, require_support, ◌>>=◌,
  exec_request, check_request,
}
use keyobject_aws_kms.Cli.Dispatch.{exec, check, reported, checked}

-- A part of a command ends the process only with a status other than 0.
abbrev Fails {ℓ} : {A : Type ℓ} → Step A → Type ℓ
Fails m = (o : Outcome) → m ≡ stop o → exit_code o ≢ 0

Fails->>= {ℓ} :
    {A B : Type ℓ} (m : Step A) (f : A → Step B)
    → Fails m
    → ((a : A) → Fails (f a))
    → Fails (m >>= f)
Fails->>= (next a) f hm hf o e = hf a o e
Fails->>= (stop o) f hm hf o2 e = hm o2 (cc)

next-Fails {ℓ} : {A : Type ℓ} (a : A) → Fails (next a)
next-Fails a o e = absurd (cc e)

or_throw-Fails {ℓ} : {A : Type ℓ} (a : Option A) → Fails (or_throw a)
unfolding exit_code
or_throw-Fails none o e = ground arith
or_throw-Fails (some a) o e = absurd (cc e)

separator-Fails : (parts : Option (List Text × List Text)) → Fails (require_separator parts)
unfolding exit_code
separator-Fails parts o e = ground arith

target-Fails : (words : List Text) → Fails (require_target words)
unfolding exit_code
target-Fails words o e = ground arith

support-Fails : (s : Support) → Fails (require_support s)
unfolding exit_code
support-Fails s o e = ground arith

parse_replace_from-Fails :
    (replace : Bool) (args : List Text) → Fails (parse_replace_from replace args)
unfolding parse_replace_from exit_code
parse_replace_from-Fails replace [] o e = absurd (cc e)
parse_replace_from-Fails replace (arg ∷ args) o e =
    ground (arith, parse_replace_from-Fails true args o)

parse_replace_option-Fails : (args : List Text) → Fails (parse_replace_option args)
unfolding parse_replace_option
parse_replace_option-Fails args = parse_replace_from-Fails false args

permission-Fails :
    (p : Process) (replace : Bool) (target : List Text)
    → Fails (require_config_permission p replace target)
unfolding require_config_permission exit_code
permission-Fails p replace target o e = ground arith

environment-Fails :
    (p : Process) (config : Text) (replace : Bool)
    → Fails (environment_with_config p config replace)
unfolding environment_with_config exit_code
environment-Fails p config true o e = ground arith
environment-Fails p config false o e = absurd (cc e)

exec_request-Fails :
    (lower_case : Text → Text) (p : Process) (runtime : Runtime) (rest : List Text)
    → Fails (exec_request lower_case p runtime rest)
unfolding exec_request
exec_request-Fails lower_case p runtime rest =
    Fails->>= _ _ (separator-Fails (split_separator rest)) λ parts.
      Fails->>= _ _ (parse_replace_option-Fails parts.0) λ replace.
        Fails->>= _ _ (target-Fails parts.1) λ target.
          Fails->>= _ _ (permission-Fails p replace target.1) λ u.
            Fails->>= _ _ (support-Fails runtime.is_supported) λ v.
              Fails->>= _ _ (or_throw-Fails runtime.openssl_config_path) λ config.
                Fails->>= _ _ (environment-Fails p config replace) λ environment. next-Fails _

check_request-Fails :
    (check_script : Text) (p : Process) (runtime : Runtime) (rest : List Text)
    → Fails (check_request check_script p runtime rest)
unfolding check_request
check_request-Fails check_script p runtime rest =
    Fails->>= _ _ (parse_replace_option-Fails rest) λ replace.
      Fails->>= _ _ (permission-Fails p replace []) λ u.
        Fails->>= _ _ (or_throw-Fails runtime.openssl_config_path)
          λ config. Fails->>= _ _ (environment-Fails p config replace) λ environment. next-Fails _

module _ (spawn : Request → Spawned) where
  reported-success :
      (m : Step Request)
      → Fails m
      → exit_code (outcome (m >>= λ request. next (reported spawn request))) ≡ 0
      → (request : Request) × (m ≡ next request) × (spawn request ≡ exited (some 0))
  unfolding reported exit_code
  reported-success (next request) fails h = (request, refl, ground arith)
  reported-success (stop o) fails h = absurd (fails o refl h)

  checked-success :
      (m : Step Request)
      → Fails m
      → exit_code (outcome (m >>= λ request. next (checked spawn request))) ≡ 0
      → (request : Request) × (m ≡ next request) × (spawn request ≡ exited (some 0))
  unfolding checked exit_code
  checked-success (next request) fails h = (request, refl, ground arith)
  checked-success (stop o) fails h = absurd (fails o refl h)

module _ (lower_case : Text → Text) (spawn : Request → Spawned) (check_script : Text) (p : Process)
    (runtime : Runtime) where
  -- `exec` ends with status 0 only if its child was started and exited with 0.
  pub exec-success :
      (rest : List Text)
      → exit_code (outcome (exec lower_case spawn check_script p runtime rest)) ≡ 0
      → (request : Request) × (exec_request lower_case p runtime rest ≡ next request)
        × (spawn request ≡ exited (some 0))
  unfolding exec
  exec-success rest h =
      reported-success spawn (exec_request lower_case p runtime rest)
        (exec_request-Fails lower_case p runtime rest) h

  -- `check` ends with status 0 only if the check script was started and exited with 0.
  pub check-success :
      (rest : List Text)
      → exit_code (outcome (check lower_case spawn check_script p runtime rest)) ≡ 0
      → (request : Request) × (check_request check_script p runtime rest ≡ next request)
        × (spawn request ≡ exited (some 0))
  unfolding check
  check-success rest h =
      checked-success spawn (check_request check_script p runtime rest)
        (check_request-Fails check_script p runtime rest) h

-- ===== src/Lifecycle/Npm.antt =====
-- Waiting for the packages in the registry (waitForNpm of scripts/release-lifecycle.mjs). The requests of
-- a round are made one after another; a request that the mismatch of another one aborts is one that
-- fails.
pub mod Round
pub mod Available
use keyobject_aws_kms.Prelude.{
  ℕ, zero, suc, ◌+◌, ◌-◌, ◌==◌, Bool, true, false, ◌&&◌, ltb, Option, none, some, List, [], ◌∷◌,
  ◌++◌, if◌then◌else◌, Text, codes,
}
use keyobject_aws_kms.Effects.{Io, done, throw, stuck, attempt, ◌>>=◌, ◌>>◌}
use keyobject_aws_kms.Lifecycle.Machine.{
  Failure, Response, PublishedVersion, Tools, Request, now, sleep, fetch, read_json, sys, Script,
  fail,
}
use keyobject_aws_kms.Lifecycle.Payload.{Packed, opt_is, inspect_payload}

-- What a round found out about a package.
pub data Outcome : Type 0 where
  available : Outcome
  pending : (package_name : Text) → Outcome
  mismatch : (message : Text) → Outcome

abbrev least : ℕ → ℕ → ℕ
least a b = if ltb a b then a else b

abbrev greatest : ℕ → ℕ → ℕ
greatest a b = if ltb a b then b else a

-- `registry.replace(/\/$/, '')`.
unfoldable pub without_slash : Text → Text
without_slash [] = []
without_slash (c ∷ []) = if c == b'/' then [] else c ∷ []
without_slash (c ∷ d ∷ s) = c ∷ without_slash (d ∷ s)

module _ (tools : Tools) (version registry : Text) where
  abbrev pub url_of : Packed → Text
  url_of p = without_slash registry ++ codes "/" ++ tools.encode_uri p.name ++ codes "/" ++ version

  unfoldable pub is_published : Packed → PublishedVersion → Bool
  is_published p published =
      opt_is published.version version && opt_is published.integrity p.integrity

  -- What the answer of the registry says.
  unfoldable pub judge : Packed → Response → Script Outcome
  judge p response =
      if response.is_ok
      then (sys (read_json (url_of p)) >>= (λ published. done (
          if is_published p published
          then available
          else mismatch (p.name ++ codes " is published with different bytes"))))
      else done (pending p.name)

  -- The time limits of the requests of a round; all of them start before the first is answered.
  unfoldable pub time_limits : ℕ → List Packed → Script (List (Packed × ℕ))
  time_limits deadline [] = done []
  time_limits deadline (p ∷ packages) = do
    time ← sys now
    rest ← time_limits deadline packages
    done ((p, greatest 1 (least 15000 (deadline - time))) ∷ rest)

  unfoldable pub poll_package : Packed → ℕ → Script Outcome
  poll_package p limit =
      attempt (sys (fetch (url_of p) limit)) (judge p) (λ e. done (pending p.name))

  unfoldable pub poll_all : List (Packed × ℕ) → Script (List Outcome)
  poll_all [] = done []
  poll_all ((p, limit) ∷ started) = do
    first ← poll_package p limit
    rest ← poll_all started
    done (first ∷ rest)

  unfoldable pub poll : ℕ → List Packed → Script (List Outcome)
  poll deadline packages = time_limits deadline packages >>= poll_all

  -- The first mismatch is thrown; otherwise the names that are pending.
  unfoldable pub settled : List Outcome → Script (List Text)
  settled [] = done []
  settled (available ∷ results) = settled results
  settled (pending name ∷ results) = do names ← settled results; done (name ∷ names)
  settled (mismatch message ∷ results) = fail message

  unfoldable pub within : ℕ → Script (Unit {0}) → Script (Unit {0})
  within deadline later = do
    time ← sys now
    if ltb time deadline then later else fail (codes "npm approval timed out")

  unfoldable pub pause : ℕ → ℕ → Script (Unit {0})
  pause deadline interval = do time ← sys now; sys (sleep (least interval (deadline - time)))

  -- What follows a round.
  unfoldable pub after_poll : ℕ → ℕ → Script (Unit {0}) → List Text → Script (Unit {0})
  after_poll deadline interval later [] = done tt
  after_poll deadline interval later (name ∷ names) =
      within deadline (pause deadline interval >> within deadline later)

  unfoldable pub poll_loop : ℕ → ℕ → List Packed → ℕ → Script (Unit {0})
  poll_loop deadline interval packages zero = stuck
  poll_loop deadline interval packages (suc rounds) = do
    results ← poll deadline packages
    names ← settled results
    after_poll deadline interval (poll_loop deadline interval packages rounds) names

  -- `waitForNpm({ directory, version, registry, timeout, interval })`.
  unfoldable pub wait_for_npm : Text → ℕ → ℕ → ℕ → Script (Unit {0})
  wait_for_npm directory timeout interval rounds = do
    packages ← inspect_payload tools directory version true
    start ← sys now
    poll_loop (start + timeout) interval packages rounds

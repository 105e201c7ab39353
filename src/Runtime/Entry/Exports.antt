-- ===== src/Runtime/Entry/Exports.antt =====
-- The exported functions of npm/core/index.js, called one after another in one process.
use keyobject_aws_kms.Prelude.{ℕ, ◌≤◌, ◌≡◌, none, false, [], subst}
use keyobject_aws_kms.Effects.{done, ◌>>◌}
use keyobject_aws_kms.Effects.Logic.{Runs, Runs-bind, Runs-imp}
use keyobject_aws_kms.Effects.Run
use keyobject_aws_kms.Effects.Run.{returned, threw, ran_out, run, Meets, Runs-run}
use keyobject_aws_kms.Runtime.Host.{Host, Request, Reply, Failure, Session, History, Script}
use keyobject_aws_kms.Runtime.File.{publication_timeout}
use keyobject_aws_kms.Runtime.Entry.{
  module_path, openssl_config_path, register, is_supported, Support,
}
use keyobject_aws_kms.Runtime.Entry.Sound.{Kept}
use keyobject_aws_kms.Runtime.Entry.Located.{Located, module_path-Located}
use keyobject_aws_kms.Runtime.Entry.Configured.{Configured, openssl_config_path-Configured}
use keyobject_aws_kms.Runtime.Entry.Supported.{
  Registered, register-Registered, calm, Reported, is_supported-Reported,
}
use keyobject_aws_kms.Runtime.Logic.{duty}

pub data Export : Type 0 where
  get_module_path : Export
  get_openssl_config_path : Export
  call_register : Export
  check_support : Export

-- The variables of the module when it is loaded.
abbrev pub initial : Session
initial = record {
  cached_satellite = none;
  temp_directory = none;
  cached_module = none;
  cached_config = none;
  registered = false;
}

-- How the host answers, and how a call ends.
abbrev pub Answers : Type 0
Answers = History → (c : Request) → Reply c

abbrev pub Ending : Type 0 → Type 0
Ending A = Run.Ending Session Request Reply Failure A

abbrev pub Leaves : Ending (Unit {0}) → Session → Type 0
Leaves (returned h s u) t = s ≡ t
Leaves (threw h s e) t = s ≡ t
Leaves (ran_out h) t = ⊥

module _ (host : Host) (rounds : ℕ) where
  -- A call of an exported function, its result left out.
  unfoldable pub perform : Export → Script (Unit {0})
  perform get_module_path = module_path host rounds >> done tt
  perform get_openssl_config_path = openssl_config_path host rounds >> done tt
  perform call_register = register host rounds
  perform check_support = is_supported host rounds >> done tt

  -- The variables after any further calls, whether they returned or threw, with any answers.
  pub data Reachable (from : Session) : Session → Type 0 where
    unchanged : Reachable from from
    after :
        {s t : Session} (export : Export) (answers : Answers)
        → Reachable from s
        → Leaves (run answers [] s (perform export)) t
        → Reachable from t

  module _ (fuel : publication_timeout ≤ rounds) (I : Session → Type 0) (kept : Kept host I) where
    abbrev Good : History → Session → Unit {0} → Type 0
    Good g t u = I t

    pub perform-Good :
        (export : Export) (s : Session) → I s → Runs (duty host I) Good [] s (perform export)
    unfolding perform
    perform-Good get_module_path s i =
        Runs-bind (duty host I) (Located host rounds fuel I kept) Good _ (module_path host rounds)
          [] s (module_path-Located host rounds fuel I kept [] s i) (λ g p t a l. l.keeps)
    perform-Good get_openssl_config_path s i =
        Runs-bind (duty host I) (Configured host rounds fuel I kept) Good _
          (openssl_config_path host rounds) [] s
          (openssl_config_path-Configured host rounds fuel I kept [] s i) (λ g p t a c. c.keeps)
    perform-Good call_register s i =
        Runs-imp (duty host I) (duty host I) (Registered host rounds fuel I kept s.registered) Good
          (λ h c x. x) (λ h t e x. x) (λ h x. x) (λ h t a x. x.0) (register host rounds) [] s
          (register-Registered host rounds fuel I kept [] s i)
    perform-Good check_support s i =
        Runs-bind (duty host I) (Reported host rounds fuel I kept) Good _ (is_supported host rounds)
          [] s
          (Runs-imp (calm host rounds fuel I kept) (duty host I) (Reported host rounds fuel I kept)
            (Reported host rounds fuel I kept) (λ h c x. x) (λ h t e x. absurd x) (λ h x. x)
            (λ h t a x. x) (is_supported host rounds) [] s
            (is_supported-Reported host rounds fuel I kept [] s i))
          (λ g p t a r. reported g t a r)
      where
        reported :
            (g : History) (t : Session) (a : Support) → Reported host rounds fuel I kept g t a → I t
        reported g t Support.supported r = r.0
        reported g t (Support.unsupported code reason) r = r

    left_Good :
        (end : Ending (Unit {0})) (t : Session) → Meets (duty host I) Good end → Leaves end t → I t
    left_Good (returned h s u) t m e = subst I e m
    left_Good (threw h s x) t m e = subst I e m
    left_Good (ran_out h) t m e = absurd e

    -- What every assignment keeps holds after any calls.
    pub Reachable-Kept : (s t : Session) → I s → Reachable s t → I t
    Reachable-Kept s _ i unchanged = i
    Reachable-Kept s _ i (after {s = u} export answers r left) =
        left_Good (run answers [] u (perform export)) _
          (Runs-run (duty host I) Good answers (perform export) [] u
            (perform-Good export u (Reachable-Kept s u i r)))
          left

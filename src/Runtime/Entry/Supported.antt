-- ===== src/Runtime/Entry/Supported.antt =====
-- The registration and the compatibility check (register and isSupported of npm/core/index.js).
use keyobject_aws_kms.Prelude.{
  ℕ, ◌≤◌, ◌≡◌, refl, ◌⊎◌, inl, inr, Bool, true, Option, none, some, ◌∷◌, Text, codes, Bool-cases,
  Option-cases, subst, sym,
}
use keyobject_aws_kms.Effects.Logic.{
  Seen, Seen-⊑, ◌⊑◌, same, newer, Duty, Runs, Runs-if, Runs-bind, Runs-attempt,
}
use keyobject_aws_kms.Runtime.Host.{
  Failure, has_code, Host, dlopen, probe, Reply, Request, Session, History,
}
use keyobject_aws_kms.Runtime.File.{publication_timeout}
use keyobject_aws_kms.Runtime.Entry.{
  Support, supported, unsupported, refused, permission_failure, probe_failure,
  runtime_capability_failure, supported_module, is_supported, module_path, load, register,
}
use keyobject_aws_kms.Runtime.Entry.Sound.{Kept}
use keyobject_aws_kms.Runtime.Entry.Located.{Located, module_path-Located}
use keyobject_aws_kms.Runtime.Logic.{duty, Runs-try, Runs-sys, failing, answered}

module _ (host : Host) (rounds : ℕ) (fuel : publication_timeout ≤ rounds) (I : Session → Type 0)
    (kept : Kept host I) where
  abbrev LocatedAt : History → Session → Text → Type 0
  LocatedAt = Located host rounds fuel I kept

  -- The module was loaded into the process from the path that `modulePath` gave.
  abbrev pub Loaded : History → Type 0
  Loaded h =
      (path : Text) × (before : History) × (t : Session) × LocatedAt before t path
      × (before ⊑ h)
      × Seen (answered (dlopen path) tt) h

  -- After `register` the module was registered already, or it has been loaded now.
  abbrev pub Registered : Bool → History → Session → Unit {0} → Type 0
  Registered before g t u = I t × (t.registered ≡ true) × ((before ≡ true) ⊎ Loaded g)

  pub register-Registered :
      (h : History) (s : Session)
      → I s
      → Runs (duty host I) (Registered s.registered) h s (register host rounds)
  unfolding register load
  register-Registered h s sound =
      Runs-if (duty host I) (Registered s.registered) h s s.registered _ _ (λ e. (sound, e, inl e))
        (λ e.
          Runs-bind (duty host I) LocatedAt (Registered s.registered) _ (module_path host rounds) h
            s (module_path-Located host rounds fuel I kept h s sound)
            (λ g p t path l.
              Runs-sys (duty host I) (Registered s.registered) g t (dlopen path) _ tt
                (λ u. (
                  kept.keeps_registered t l.keeps,
                  refl,
                  inr (path, g, t, l, newer _ same, inl refl),
                ))
                (λ e. l.keeps)))

  -- Nothing is thrown.
  abbrev pub calm : Duty Session Request Reply Failure
  calm = record (duty host I) { thrown = λ h s e. ⊥ }

  -- The error of the probe is one of the two that a runtime with a loader for URL keys gives.
  abbrev pub IsReady : Failure → Type 0
  IsReady e =
      (has_code e (codes "ERR_OSSL_OSSL_STORE_UNSUPPORTED") ≡ true)
      ⊎ (has_code e (codes "ERR_OSSL_AWSKMS_INVALID_URI") ≡ true)

  -- What a report means: the runtime has the loader and the module was located, or it is not supported.
  abbrev pub Reported : History → Session → Support → Type 0
  Reported g t supported =
      I t
      × ((e : Failure) × Seen (failing probe e) g × IsReady e)
      × ((path : Text) × LocatedAt g t path)
  Reported g t (unsupported code reason) = I t

  abbrev Unsupported : Support → Type 0
  Unsupported report = (code reason : Text) × (report ≡ unsupported code reason)

  probe_failure-cases :
      (e : Failure)
      → ((probe_failure host e ≡ none) × IsReady e)
        ⊎ ((report : Support) × (probe_failure host e ≡ some report) × Unsupported report)
  unfolding probe_failure
  probe_failure-cases e = elim (Bool-cases (has_code e (codes "ERR_INVALID_ARG_TYPE"))) [
    | inl a ↦ rw a (inr (_, refl, (_, _, refl)))
    | inr na ↦ elim (Bool-cases (has_code e (codes "ERR_ACCESS_DENIED"))) [
      | inl b ↦ rw (na, b) (inr (_, refl, (_, _, refl)))
      | inr nb ↦ elim (Bool-cases (has_code e (codes "ERR_OSSL_OSSL_STORE_UNSUPPORTED"))) [
        | inl c ↦ rw (na, nb, c) (inl (refl, inl refl))
        | inr nc ↦ elim (Bool-cases (has_code e (codes "ERR_OSSL_AWSKMS_INVALID_URI"))) [
          | inl d ↦ rw (na, nb, nc, d) (inl (refl, inr refl))
          | inr nd ↦ rw (na, nb, nc, nd) (inr (_, refl, (_, _, refl)))
        ]
      ]
    ]
  ]

  refused-Unsupported : (e : Failure) → Unsupported (refused e)
  unfolding refused
  refused-Unsupported e = elim (Option-cases (permission_failure e)) [
    | inl n ↦ rw n (_, _, refl)
    | inr (reason, r) ↦ rw r (_, _, refl)
  ]

  still_Reported :
      (g : History) (t : Session) (report : Support)
      → I t
      → Unsupported report
      → Reported g t report
  still_Reported g t report sound (code, reason, e) = subst (λ x. Reported g t x) (sym e) sound

  pub is_supported-Reported :
      (h : History) (s : Session) → I s → Runs calm Reported h s (is_supported host rounds)
  unfolding is_supported supported_module runtime_capability_failure
  is_supported-Reported h s sound =
      Runs-bind calm Probed Reported (supported_module host rounds)
        (runtime_capability_failure host) h s probed (λ g p t o x. by_probe g t o x)
    where
      Probed : History → Session → Option Support → Type 0
      Probed g t none = I t × (e : Failure) × Seen (failing probe e) g × IsReady e
      Probed g t (some report) = I t × Unsupported report

      probed : Runs calm Probed h s (runtime_capability_failure host)
      probed =
          Runs-try calm Probed h s probe _ _ tt (λ u. (sound, (_, _, refl)))
            (λ e. elim (probe_failure-cases e) [
              | inl (n, ready) ↦
                  subst (λ o. Probed (failing probe e ∷ h) s o) (sym n) (sound, e, inl refl, ready)
              | inr (report, some_, un) ↦
                  subst (λ o. Probed (failing probe e ∷ h) s o) (sym some_) (sound, un)
            ])

      by_probe :
          (g : History) (t : Session) (o : Option Support)
          → Probed g t o
          → Runs calm Reported g t (supported_module host rounds o)
      by_probe g t (some report) x = still_Reported g t report x.0 x.1
      by_probe g t none x =
          Runs-attempt calm (λ g t e. I t) LocatedAt Reported _ _ (module_path host rounds) g t
            (module_path-Located host rounds fuel I kept g t (x.0))
            (λ g2 p t2 path l. (l.keeps, (x.1, Seen-⊑ _ p x.2, x.3), (path, l)))
            (λ g2 p t2 e sound2. still_Reported g2 t2 (refused e) sound2 (refused-Unsupported e))

-- ===== src/Lifecycle/Npm/Round.antt =====
-- What one round of questions to the registry shows (waitForNpm of scripts/release-lifecycle.mjs).
use keyobject_aws_kms.Prelude.{
  ℕ, ◌≡◌, refl, ap, subst, inl, inr, Bool, true, false, some, List, [], ◌∷◌, map, All,
  if◌then◌else◌, Text, codes, and_sound,
}
use keyobject_aws_kms.Effects.Logic.{
  Seen, Seen-⊑, ◌⊑◌, same, Runs, Runs-if, Runs-bind, Runs-imp, Runs-later,
}
use keyobject_aws_kms.Effects.Calls.{Runs-sys, Runs-try}
use keyobject_aws_kms.Lifecycle.Machine.{
  Response, PublishedVersion, Tools, Request, run, list_directory, read_file, now, sleep, fetch,
  read_json, answered, History, Duties,
}
use keyobject_aws_kms.Lifecycle.Clock.{GoesOn}
use keyobject_aws_kms.Lifecycle.Rules.{Any}
use keyobject_aws_kms.Lifecycle.Payload.{Packed}
use keyobject_aws_kms.Lifecycle.Payload.Evidence.{InspectedAs}
use keyobject_aws_kms.Lifecycle.Payload.Inspected.{opt_is_sound}
use keyobject_aws_kms.Lifecycle.Npm.{
  Outcome, available, pending, mismatch, url_of, is_published, judge, time_limits, poll_package,
  poll_all, poll, settled,
}

-- Nothing is changed: the script reads files, runs `tar`, asks the registry, and waits.
abbrev pub IsQuiet : History → Request → Type 0
IsQuiet h (run name args) = name ≡ codes "tar"
IsQuiet h (list_directory path) = Unit
IsQuiet h (read_file path) = Unit
IsQuiet h now = Unit
IsQuiet h (sleep milliseconds) = Unit
IsQuiet h (fetch url milliseconds) = Unit
IsQuiet h (read_json url) = Unit
IsQuiet h _ = ⊥

-- The fuel is used up only where the clock goes back or stands still while the script sleeps.
abbrev pub timed : Duties
timed = record { allowed = IsQuiet; thrown = λ h s e. Unit; out_of_fuel = λ h. ¬ GoesOn h }

module _ (tools : Tools) (version registry : Text) where
  -- The registry has answered with this version of the package, whose integrity is that of the tarball.
  abbrev pub IsAvailable : History → Packed → Type 0
  IsAvailable h p =
      (limit : ℕ) × (response : Response) × Seen
        (answered (fetch (url_of tools version registry p) limit) response) h
      × (response.is_ok ≡ true)
      × (published : PublishedVersion) × Seen
          (answered (read_json (url_of tools version registry p)) published) h
      × (published.version ≡ some version)
      × (published.integrity ≡ some p.integrity)

  abbrev pub Available : Text → History → Type 0
  Available directory h =
      (packages : List Packed) × InspectedAs tools directory version true packages h
      × All (IsAvailable h) packages

  abbrev Judged : Packed → History → Outcome → Type 0
  Judged p h available = IsAvailable h p
  Judged p h (pending name) = Unit
  Judged p h (mismatch message) = Unit

  Judged-⊑ : (p : Packed) (o : Outcome) {h g : History} → h ⊑ g → Judged p h o → Judged p g o
  Judged-⊑ p available q (limit, response, asked, fine, published, seen, v, i) =
      (limit, response, Seen-⊑ _ q asked, fine, published, Seen-⊑ _ q seen, v, i)
  Judged-⊑ p (pending name) q x = tt
  Judged-⊑ p (mismatch message) q x = tt

  abbrev AllJudged : List (Packed × ℕ) → List Outcome → History → Type 0
  AllJudged [] [] h = Unit
  AllJudged [] (o ∷ results) h = ⊥
  AllJudged (s ∷ started) [] h = ⊥
  AllJudged (s ∷ started) (o ∷ results) h = Judged (s.0) h o × AllJudged started results h

  abbrev pub AreAvailable : List Outcome → Type 0
  AreAvailable [] = Unit
  AreAvailable (available ∷ results) = AreAvailable results
  AreAvailable (_ ∷ results) = ⊥

  All-IsAvailable :
      (started : List (Packed × ℕ)) (results : List Outcome) (h : History)
      → AllJudged started results h
      → AreAvailable results
      → All (IsAvailable h) (map (λ s. s.0) started)
  All-IsAvailable [] [] h j a = tt
  All-IsAvailable [] (o ∷ results) h j a = absurd j
  All-IsAvailable (s ∷ started) [] h j a = absurd j
  All-IsAvailable (s ∷ started) (available ∷ results) h (j, js) a =
      (j, All-IsAvailable started results h js a)
  All-IsAvailable (s ∷ started) (pending name ∷ results) h j a = absurd a
  All-IsAvailable (s ∷ started) (mismatch message ∷ results) h j a = absurd a

  pub All-IsAvailable-⊑ :
      (packages : List Packed) {h g : History}
      → h ⊑ g
      → All (IsAvailable h) packages
      → All (IsAvailable g) packages
  All-IsAvailable-⊑ [] q x = tt
  All-IsAvailable-⊑ (p ∷ packages) q (x, xs) =
      (Judged-⊑ p available q x, All-IsAvailable-⊑ packages q xs)

  is_published_sound :
      (p : Packed) (published : PublishedVersion)
      → is_published tools version registry p published ≡ true
      → (published.version ≡ some version) × (published.integrity ≡ some p.integrity)
  unfolding is_published
  is_published_sound p published e =
      let (v, i) = and_sound _ _ e in
      (
        opt_is_sound tools published.version version v,
        opt_is_sound tools published.integrity p.integrity i,
      )

  judgement :
      (p : Packed) (published : PublishedVersion) (message : Text) (g : History) (b : Bool)
      → (b ≡ true → IsAvailable g p)
      → Judged p g (if b then available else mismatch message)
  judgement p published message g true f = f refl
  judgement p published message g false f = tt

  poll_package-Judged :
      (p : Packed) (limit : ℕ) (h : History)
      → Runs timed (λ g t o. Judged p g o) h tt (poll_package tools version registry p limit)
  unfolding poll_package judge
  poll_package-Judged p limit h =
      Runs-try timed (λ g t o. Judged p g o) h tt (fetch _ limit) _ _ tt
        (λ response.
          Runs-if timed (λ g t o. Judged p g o) _ tt response.is_ok _ _
            (λ fine.
              Runs-sys timed (λ g t o. Judged p g o) _ tt (read_json _) _ tt
                (λ published.
                  judgement p published _
                    (answered (read_json (url_of tools version registry p)) published
                      ∷ answered (fetch (url_of tools version registry p) limit) response
                      ∷ h)
                    (is_published tools version registry p published)
                    (λ e.
                      let (v, i) = is_published_sound p published e in
                      (limit, response, inr (inl refl), fine, published, inl refl, v, i)))
                (λ e. tt))
            (λ e. tt))
        (λ e. tt)

  poll_all-Judged :
      (started : List (Packed × ℕ)) (h : History)
      → Runs timed
          (λ g t results. AllJudged started results g)
          h
          tt
          (poll_all tools version registry started)
  unfolding poll_all
  poll_all-Judged [] h = tt
  poll_all-Judged ((p, limit) ∷ started) h =
      Runs-bind timed (λ g t o. Judged p g o)
        (λ g t results. AllJudged ((p, limit) ∷ started) results g) _
        (poll_package tools version registry p limit) h tt (poll_package-Judged p limit h)
        (λ g q t first j.
          Runs-bind timed (λ g2 t results. (g ⊑ g2) × AllJudged started results g2)
            (λ g t results. AllJudged ((p, limit) ∷ started) results g) _
            (poll_all tools version registry started) g tt
            (Runs-later timed (λ g t results. AllJudged started results g) g
              (poll_all tools version registry started) g tt same (poll_all-Judged started g))
            (λ g2 q2 t rest js. (Judged-⊑ p first q2 j, js.1)))

  time_limits-map :
      (deadline : ℕ) (packages : List Packed) (h : History)
      → Runs timed
          (λ g t started. map (λ s. s.0) started ≡ packages)
          h
          tt
          (time_limits tools version registry deadline packages)
  unfolding time_limits
  time_limits-map deadline [] h = refl
  time_limits-map deadline (p ∷ packages) h =
      Runs-sys timed (λ g t started. map (λ s. s.0) started ≡ p ∷ packages) h tt now _ tt
        (λ time.
          Runs-bind timed (λ g t started. map (λ s. s.0) started ≡ packages)
            (λ g t started. map (λ s. s.0) started ≡ p ∷ packages) _
            (time_limits tools version registry deadline packages) _ tt
            (time_limits-map deadline packages _) (λ g q t rest e. ap (λ rest. p ∷ rest) e))
        (λ e. tt)

  -- If every result is `available`, so are the packages.
  abbrev pub Told : List Packed → History → List Outcome → Type 0
  Told packages h results = AreAvailable results → All (IsAvailable h) packages

  pub poll-Told :
      (deadline : ℕ) (packages : List Packed) (h : History)
      → Runs timed
          (λ g t results. Told packages g results)
          h
          tt
          (poll tools version registry deadline packages)
  unfolding poll
  poll-Told deadline packages h =
      Runs-bind timed (λ g t started. map (λ s. s.0) started ≡ packages)
        (λ g t results. Told packages g results) _
        (time_limits tools version registry deadline packages) h tt
        (time_limits-map deadline packages h)
        (λ g q t started e.
          Runs-imp timed timed (λ g t results. AllJudged started results g)
            (λ g t results. Told packages g results) (λ h c x. x) (λ h t e x. x) (λ h x. x)
            (λ g t results j a.
              subst (All (IsAvailable g)) e (All-IsAvailable started results g j a))
            (poll_all tools version registry started) g tt (poll_all-Judged started g))

  pub settled-AreAvailable :
      (results : List Outcome) (h : History)
      → Runs timed
          (λ g t names. names ≡ [] → AreAvailable results)
          h
          tt
          (settled tools version registry results)
  unfolding settled
  settled-AreAvailable [] h = λ e. tt
  settled-AreAvailable (available ∷ results) h = settled-AreAvailable results h
  settled-AreAvailable (pending name ∷ results) h =
      Runs-bind timed Any (λ g t names. names ≡ [] → ⊥) _ (settled tools version registry results) h
        tt
        (Runs-imp timed timed (λ g t names. names ≡ [] → AreAvailable results) Any (λ h c x. x)
          (λ h t e x. x) (λ h x. x) (λ g t names x. tt) (settled tools version registry results) h
          tt (settled-AreAvailable results h))
        (λ g q t names x e. absurd (cc e))
  settled-AreAvailable (mismatch message ∷ results) h = tt

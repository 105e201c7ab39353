-- ===== src/Effects/Logic.antt =====
-- A logic of scripts over all answers: which requests a script may make, given what happened before
-- them, and what holds when it returns, when it throws, and when its fuel is used up.
use keyobject_aws_kms.Prelude.{◌≡◌, refl, ◌⊎◌, inr, Bool, true, false, if◌then◌else◌, [], ◌∷◌}
use keyobject_aws_kms.Effects.{
  Io, done, throw, stuck, call, read_state, assign, attempt, Event, History,
}

module _ {Q : Type 0} {R : Q → Type 0} where
  abbrev pub Seen : Event Q R → History Q R → Type 0
  Seen e [] = ⊥
  Seen e (x ∷ h) = (x ≡ e) ⊎ Seen e h

  -- `g` is `h` with newer events.
  infix 4 ◌⊑◌
  pub data ◌⊑◌ (h : History Q R) : History Q R → Type 0 where
    same : h ⊑ h
    newer : {g : History Q R} (x : Event Q R) → h ⊑ g → h ⊑ x ∷ g

  pub ⊑_trans : {a b c : History Q R} → a ⊑ b → b ⊑ c → a ⊑ c
  ⊑_trans p same = p
  ⊑_trans p (newer x q) = newer x (⊑_trans p q)

  pub Seen-⊑ : (e : Event Q R) {h g : History Q R} → h ⊑ g → Seen e h → Seen e g
  Seen-⊑ e same s = s
  Seen-⊑ e (newer x p) s = inr (Seen-⊑ e p s)

-- What a script owes.
pub record Duty (S Q : Type 0) (R : Q → Type 0) (E : Type 0) : Type 1 where
  pub allowed : History Q R → Q → Type 0
  pub thrown : History Q R → S → E → Type 0
  pub out_of_fuel : History Q R → Type 0

module _ {S Q : Type 0} {R : Q → Type 0} {E : Type 0} (D : Duty S Q R E) where
  -- From the past `h` and the state `s` on, the script makes only allowed requests, and what it
  -- returns satisfies `P`.
  abbrev pub Runs :
      {A : Type 0} → (History Q R → S → A → Type 0) → History Q R → S → Io S Q R E A → Type 0
  Runs P h s (done a) = P h s a
  Runs P h s (throw e) = D.thrown h s e
  Runs P h s stuck = D.out_of_fuel h
  Runs P h s (call c k) =
      D.allowed h c × ((r : R c) → Runs P (record { request = c; answer = r } ∷ h) s (k r))
  Runs P h s (read_state k) = Runs P h s (k s)
  Runs P h s (assign t m) = Runs P h t m

module _ {S Q : Type 0} {R : Q → Type 0} {E : Type 0} (D : Duty S Q R E) where
  -- The rule of `try` and `catch`, where the body owes `T` when it throws.
  module _ (T : History Q R → S → E → Type 0) {A B : Type 0} (P : History Q R → S → A → Type 0)
      (P' : History Q R → S → B → Type 0) (f : A → Io S Q R E B) (handler : E → Io S Q R E B) where
    pub Runs-attempt :
        (m : Io S Q R E A) (h : History Q R) (s : S)
        → Runs (record D { thrown = T }) P h s m
        → ((g : History Q R) → h ⊑ g → (t : S) (a : A) → P g t a → Runs D P' g t (f a))
        → ((g : History Q R) → h ⊑ g → (t : S) (e : E) → T g t e → Runs D P' g t (handler e))
        → Runs D P' h s (attempt m f handler)
    unfolding attempt
    Runs-attempt (done a) h s r ok bad = ok h same s a r
    Runs-attempt (throw e) h s r ok bad = bad h same s e r
    Runs-attempt stuck h s r ok bad = r
    Runs-attempt (call c k) h s r ok bad = (
      r.0,
      λ x.
          Runs-attempt (k x) (record { request = c; answer = x } ∷ h) s (r.1 x)
            (λ g p. ok g (⊑_trans (newer _ same) p)) (λ g p. bad g (⊑_trans (newer _ same) p)),
    )
    Runs-attempt (read_state k) h s r ok bad = Runs-attempt (k s) h s r ok bad
    Runs-attempt (assign t m) h s r ok bad = Runs-attempt m h t r ok bad

  -- The rule of a sequence.
  pub Runs-bind :
      {A B : Type 0} (P : History Q R → S → A → Type 0) (P' : History Q R → S → B → Type 0)
      (f : A → Io S Q R E B) (m : Io S Q R E A) (h : History Q R) (s : S)
      → Runs D P h s m
      → ((g : History Q R) → h ⊑ g → (t : S) (a : A) → P g t a → Runs D P' g t (f a))
      → Runs D P' h s (attempt m f throw)
  Runs-bind P P' f m h s r ok = Runs-attempt D.thrown P P' f throw m h s r ok (λ g p t e x. x)

  -- What a script returns, it returns later.
  pub Runs-later :
      {A : Type 0} (P : History Q R → S → A → Type 0) (b : History Q R) (m : Io S Q R E A)
      (h : History Q R) (s : S)
      → b ⊑ h
      → Runs D P h s m
      → Runs D (λ g t a. (b ⊑ g) × P g t a) h s m
  Runs-later P b (done a) h s p r = (p, r)
  Runs-later P b (throw e) h s p r = r
  Runs-later P b stuck h s p r = r
  Runs-later P b (call c k) h s p r = (
    r.0,
    λ x. Runs-later P b (k x) (record { request = c; answer = x } ∷ h) s (newer _ p) (r.1 x),
  )
  Runs-later P b (read_state k) h s p r = Runs-later P b (k s) h s p r
  Runs-later P b (assign t m) h s p r = Runs-later P b m h t p r

  -- The rule of a test.
  pub Runs-if :
      {A : Type 0} (P : History Q R → S → A → Type 0) (h : History Q R) (s : S) (b : Bool)
      (x y : Io S Q R E A)
      → (b ≡ true → Runs D P h s x)
      → (b ≡ false → Runs D P h s y)
      → Runs D P h s (if b then x else y)
  Runs-if P h s true x y yes_ no_ = yes_ refl
  Runs-if P h s false x y yes_ no_ = no_ refl

module _ {S Q : Type 0} {R : Q → Type 0} {E : Type 0} (D D' : Duty S Q R E) {A : Type 0}
    (P P' : History Q R → S → A → Type 0) where
  -- Less is owed.
  pub Runs-imp :
      ((h : History Q R) (c : Q) → D.allowed h c → D'.allowed h c)
      → ((h : History Q R) (s : S) (e : E) → D.thrown h s e → D'.thrown h s e)
      → ((h : History Q R) → D.out_of_fuel h → D'.out_of_fuel h)
      → ((h : History Q R) (s : S) (a : A) → P h s a → P' h s a)
      → (m : Io S Q R E A) (h : History Q R) (s : S) → Runs D P h s m
      → Runs D' P' h s m
  Runs-imp q t f p (done a) h s r = p h s a r
  Runs-imp q t f p (throw e) h s r = t h s e r
  Runs-imp q t f p stuck h s r = f h r
  Runs-imp q t f p (call c k) h s r =
      (q h c r.0, λ x. Runs-imp q t f p (k x) (record { request = c; answer = x } ∷ h) s (r.1 x))
  Runs-imp q t f p (read_state k) h s r = Runs-imp q t f p (k s) h s r
  Runs-imp q t f p (assign u m) h s r = Runs-imp q t f p m h u r

module _ {S Q : Type 0} {R : Q → Type 0} {E : Type 0} (D : Duty S Q R E) {A : Type 0}
    (P P' : History Q R → S → A → Type 0) where
  -- What is known of the result, with all that stays true since the start.
  pub Runs-grow :
      (m : Io S Q R E A) (h : History Q R) (s : S)
      → Runs D P h s m
      → ((g : History Q R) → h ⊑ g → (t : S) (a : A) → P g t a → P' g t a)
      → Runs D P' h s m
  Runs-grow m h s r p =
      Runs-imp D D (λ g t a. (h ⊑ g) × P g t a) P' (λ g c x. x) (λ g t e x. x) (λ g x. x)
        (λ g t a x. p g x.0 t a x.1) m h s (Runs-later D P h m h s same r)

-- ===== src/Kms/Program/Logic.antt =====
-- A logic of programs over all replies: which calls a program may make, given the calls and replies
-- before them, and what holds of its result.
use keyobject_aws_kms.Prelude.{
  ◌≡◌, refl, ◌⊎◌, inl, inr, Bool, true, false, if◌then◌else◌, List, [], ◌∷◌,
}
use keyobject_aws_kms.Kms.Program.{Request, Reply, Failure, Program, done, throw, call, attempt}

-- A call and its reply.
pub record Event : Type 0 where
  pub request : Request
  pub reply : Reply

-- The newest event first.
abbrev pub History : Type 0
History = List Event

abbrev pub Seen : Event → History → Type 0
Seen e [] = ⊥
Seen e (x ∷ h) = (x ≡ e) ⊎ Seen e h

-- The events of the one happened in the other, in the same order.
infix 4 ◌⊑◌
pub data ◌⊑◌ : History → History → Type 0 where
  nothing : [] ⊑ []
  skip : {h g : History} (x : Event) → h ⊑ g → h ⊑ x ∷ g
  keep : {h g : History} (x : Event) → h ⊑ g → (x ∷ h) ⊑ (x ∷ g)

pub ⊑_refl : (h : History) → h ⊑ h
⊑_refl [] = nothing
⊑_refl (x ∷ h) = keep x (⊑_refl h)

pub ⊑-cons : (x : Event) (h : History) → h ⊑ x ∷ h
⊑-cons x h = skip x (⊑_refl h)

pub ⊑_trans : {a b c : History} → a ⊑ b → b ⊑ c → a ⊑ c
⊑_trans p nothing = p
⊑_trans p (skip x q) = skip x (⊑_trans p q)
⊑_trans (skip y p) (keep x q) = skip x (⊑_trans p q)
⊑_trans (keep y p) (keep x q) = keep x (⊑_trans p q)

pub Seen-⊑ : (e : Event) {h g : History} → h ⊑ g → Seen e h → Seen e g
Seen-⊑ e nothing s = s
Seen-⊑ e (skip x p) s = inr (Seen-⊑ e p s)
Seen-⊑ e (keep x p) (inl same) = inl same
Seen-⊑ e (keep x p) (inr s) = inr (Seen-⊑ e p s)

-- A statement about the past that stays true.
abbrev pub Stays : (History → Type 0) → Type 0
Stays P = (h g : History) → h ⊑ g → P h → P g

module _ (Q : History → Request → Type 0) where
  -- From `h` on, the program makes only calls that `Q` allows, and what it returns satisfies `P`.
  abbrev pub Runs : {A : Type 0} → (History → A → Type 0) → History → Program A → Type 0
  Runs P h (done a) = P h a
  Runs P h (throw e) = Unit
  Runs P h (call c k) = Q h c × ((r : Reply) → Runs P (record { request = c; reply = r } ∷ h) (k r))

  module _ (stays : (c : Request) → Stays (λ h. Q h c)) where
    -- More may have happened in the meantime.
    pub Runs-⊑ :
        {A : Type 0} (P : History → A → Type 0)
        → ((a : A) → Stays (λ h. P h a))
        → (m : Program A) {h g : History} → h ⊑ g
        → Runs P h m
        → Runs P g m
    Runs-⊑ P keeps (done a) {h} {g} p r = keeps a h g p r
    Runs-⊑ P keeps (throw e) p r = tt
    Runs-⊑ P keeps (call c k) {h} {g} p r =
        (stays c h g p r.0, λ x. Runs-⊑ P keeps (k x) (keep _ p) (r.1 x))

  module _ {A B : Type 0} (P : History → A → Type 0) (R : History → B → Type 0) (f : A → Program B)
      (handler : Failure → Program B) where
    pub Runs-attempt :
        (m : Program A) (h : History)
        → Runs P h m
        → ((g : History) → h ⊑ g → (a : A) → P g a → Runs R g (f a))
        → ((g : History) → h ⊑ g → (e : Failure) → Runs R g (handler e))
        → Runs R h (attempt m f handler)
    unfolding attempt
    Runs-attempt (done a) h r ok bad = ok h (⊑_refl h) a r
    Runs-attempt (throw e) h r ok bad = bad h (⊑_refl h) e
    Runs-attempt (call c k) h r ok bad = (
      r.0,
      λ x.
          let g : History = record { request = c; reply = x } ∷ h in
          Runs-attempt (k x) g (r.1 x) (λ g2 p. ok g2 (⊑_trans (⊑-cons _ h) p))
            (λ g2 p. bad g2 (⊑_trans (⊑-cons _ h) p)),
    )

  -- The rule of a test.
  pub Runs-if :
      {A : Type 0} (P : History → A → Type 0) (h : History) (b : Bool) (x y : Program A)
      → (b ≡ true → Runs P h x)
      → (b ≡ false → Runs P h y)
      → Runs P h (if b then x else y)
  Runs-if P h true x y yes_ no_ = yes_ refl
  Runs-if P h false x y yes_ no_ = no_ refl

  -- The rule of a `do` block.
  pub Runs-bind :
      {A B : Type 0} (P : History → A → Type 0) (R : History → B → Type 0) (f : A → Program B)
      (m : Program A) (h : History)
      → Runs P h m
      → ((g : History) → h ⊑ g → (a : A) → P g a → Runs R g (f a))
      → Runs R h (attempt m f throw)
  Runs-bind P R f m h r ok = Runs-attempt P R f throw m h r ok (λ g p e. tt)

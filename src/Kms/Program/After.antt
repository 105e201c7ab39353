-- ===== src/Kms/Program/After.antt =====
-- Programs that follow one another: what was seen before the second began, and what it saw itself.
use keyobject_aws_kms.Prelude.{◌≡◌, refl, ap, subst, [], ◌∷◌, ◌++◌}
use keyobject_aws_kms.Kms.Program.{Request, Program, done, throw, call}
use keyobject_aws_kms.Kms.Program.Logic.{History, ◌⊑◌, nothing, skip, keep, ⊑-cons, Stays, Runs}

-- The past falls into an earlier part where `E` holds and a later part where `L` holds.
pub record After (E L : History → Type 0) (h : History) : Type 0 where
  pub late : History
  pub early : History
  pub split : h ≡ late ++ early
  pub before : E early
  pub since : L late

abbrev Split : History → History → History → Type 0
Split late early g =
    (late' early' : History) × (g ≡ late' ++ early') × (late ⊑ late') × (early ⊑ early')

⊑-Split : (late early : History) {h g : History} → h ⊑ g → h ≡ late ++ early → Split late early g
⊑-Split [] early {h} {g} p e = ([], g, refl, nothing, subst (λ x. x ⊑ g) e p)
⊑-Split (x ∷ late) early nothing e = absurd (cc e)
⊑-Split (x ∷ late) early (skip y p) e =
    let (late', early', split, l, r) = ⊑-Split (x ∷ late) early p e in
    (y ∷ late', early', ap (λ h. y ∷ h) split, skip y l, r)
⊑-Split (x ∷ late) early (keep y p) e =
    let (late', early', split, l, r) = ⊑-Split late early p (cc e) in
    (
      y ∷ late',
      early',
      ap (λ h. y ∷ h) split,
      subst (λ z. (z ∷ late) ⊑ (y ∷ late')) (cc e) (keep y l),
      r,
    )

pub After-Stays : (E L : History → Type 0) → Stays E → Stays L → Stays (After E L)
After-Stays E L e l h g p a =
    let (late, early, split, p1, p2) = ⊑-Split a.late a.early p a.split in
    record {
      late = late;
      early = early;
      split = split;
      before = e a.early early p2 a.before;
      since = l a.late late p1 a.since;
    }

pub ⊑-append : (late early : History) → late ⊑ late ++ early
⊑-append [] [] = nothing
⊑-append [] (x ∷ early) = skip x (⊑-append [] early)
⊑-append (x ∷ late) early = keep x (⊑-append late early)

-- A program that is known by what it sees itself, after `E` was established.
pub Runs-After :
    (E : History → Type 0) (Q : History → Request → Type 0) {A : Type 0} (P : History → A → Type 0)
    (early : History)
    → E early
    → (m : Program A) (late : History) → Runs Q P late m
    → Runs (λ h c. After E (λ l. Q l c) h) (λ h a. After E (λ l. P l a) h) (late ++ early) m
Runs-After E Q P early e (done a) late r = record {
  late = late;
  early = early;
  split = refl;
  before = e;
  since = r;
}
Runs-After E Q P early e (throw x) late r = tt
Runs-After E Q P early e (call c k) late r = (
  record { late = late; early = early; split = refl; before = e; since = r.0 },
  λ x. Runs-After E Q P early e (k x) (record { request = c; reply = x } ∷ late) (r.1 x),
)

-- Fewer calls are allowed than are said to be, and more is known of the result.
pub Runs-imp :
    (Q Q' : History → Request → Type 0) {A : Type 0} (P P' : History → A → Type 0)
    → ((h : History) (c : Request) → Q h c → Q' h c)
    → ((h : History) (a : A) → P h a → P' h a)
    → (m : Program A) (h : History) → Runs Q P h m
    → Runs Q' P' h m
Runs-imp Q Q' P P' q p (done a) h r = p h a r
Runs-imp Q Q' P P' q p (throw e) h r = tt
Runs-imp Q Q' P P' q p (call c k) h r =
    (q h c r.0, λ x. Runs-imp Q Q' P P' q p (k x) (record { request = c; reply = x } ∷ h) (r.1 x))

-- What stays true holds at every call and at the end.
pub Runs-with :
    (E : History → Type 0)
    → Stays E
    → (Q : History → Request → Type 0) {A : Type 0} (P : History → A → Type 0) (m : Program A)
      (h : History)
    → E h
    → Runs Q P h m
    → Runs (λ g c. E g × Q g c) (λ g a. E g × P g a) h m
Runs-with E stays Q P (done a) h e r = (e, r)
Runs-with E stays Q P (throw x) h e r = tt
Runs-with E stays Q P (call c k) h e r = (
  (e, r.0),
  λ x.
      Runs-with E stays Q P (k x) (record { request = c; reply = x } ∷ h)
        (stays h (record { request = c; reply = x } ∷ h) (⊑-cons _ h) e) (r.1 x),
)

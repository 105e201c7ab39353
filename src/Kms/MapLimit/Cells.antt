-- ===== src/Kms/MapLimit/Cells.antt =====
-- The state of `mapLimit` of scripts/real-kms-keys.mjs: what holds of each item while it runs.
use keyobject_aws_kms.Prelude.{
  ℕ, zero, suc, ◌≡◌, Option, none, some, List, [], ◌∷◌, get_elem?, set, subst,
}
use keyobject_aws_kms.Kms.Program.{Request, Failure, Program, done, throw, call}
use keyobject_aws_kms.Kms.Program.Logic.{History, ◌⊑◌, Stays, Runs, Runs-⊑}
use keyobject_aws_kms.Kms.MapLimit.{Cell, waiting, active, finished, dead, first_failure, take_next}

abbrev pub Failed : Option Failure → Type 0
Failed none = ⊥
Failed (some e) = Unit

module _ (Q : History → Request → Type 0) (stays : (c : Request) → Stays (λ h. Q h c)) where
  pub Runs-weaken :
      {A : Type 0} (P R : History → A → Type 0)
      → ((g : History) (a : A) → P g a → R g a)
      → (m : Program A) (h : History) → Runs Q P h m
      → Runs Q R h m
  Runs-weaken P R w (done a) h r = w h a r
  Runs-weaken P R w (throw e) h r = tt
  Runs-weaken P R w (call c k) h r = (r.0, λ x. Runs-weaken P R w (k x) _ (r.1 x))

  module _ {I B : Type 0} (P : I → History → B → Type 0)
      (keeps : (i : I) (b : B) → Stays (λ h. P i h b)) where
    abbrev pub CellOk : Option Failure → History → I → Cell B → Type 0
    CellOk f h i (waiting p) = Runs Q (P i) h p
    CellOk f h i (active p) = Runs Q (P i) h p
    CellOk f h i (finished b) = P i h b
    CellOk f h i dead = Failed f

    abbrev pub Cells : Option Failure → History → List I → List (Cell B) → Type 0
    Cells f h [] [] = Unit
    Cells f h [] (c ∷ cs) = ⊥
    Cells f h (i ∷ is) [] = ⊥
    Cells f h (i ∷ is) (c ∷ cs) = CellOk f h i c × Cells f h is cs

    -- The results stand in the order of the items.
    abbrev pub Outputs : History → List I → List B → Type 0
    Outputs h [] [] = Unit
    Outputs h [] (b ∷ bs) = ⊥
    Outputs h (i ∷ is) [] = ⊥
    Outputs h (i ∷ is) (b ∷ bs) = P i h b × Outputs h is bs

    -- After a failure nothing is returned.
    abbrev pub Post : Option Failure → List I → History → List B → Type 0
    Post none is h bs = Outputs h is bs
    Post (some e) is h bs = ⊥

    pub CellOk-⊑ :
        (f : Option Failure) {h g : History} (i : I) (c : Cell B)
        → h ⊑ g
        → CellOk f h i c
        → CellOk f g i c
    CellOk-⊑ f i (waiting m) p r = Runs-⊑ Q stays (P i) (keeps i) m p r
    CellOk-⊑ f i (active m) p r = Runs-⊑ Q stays (P i) (keeps i) m p r
    CellOk-⊑ f {h} {g} i (finished b) p r = keeps i b h g p r
    CellOk-⊑ f i dead p r = r

    pub CellOk-failed :
        (f : Option Failure) (e : Failure) (h : History) (i : I) (c : Cell B)
        → CellOk f h i c
        → CellOk (first_failure f e) h i c
    CellOk-failed f e h i (waiting m) r = r
    CellOk-failed f e h i (active m) r = r
    CellOk-failed f e h i (finished b) r = r
    CellOk-failed none e h i dead r = tt
    CellOk-failed (some x) e h i dead r = tt

    pub Cells-map :
        (f g : Option Failure) (h k : History)
        → ((i : I) (c : Cell B) → CellOk f h i c → CellOk g k i c)
        → (is : List I) (cs : List (Cell B)) → Cells f h is cs
        → Cells g k is cs
    Cells-map f g h k m [] [] r = tt
    Cells-map f g h k m [] (c ∷ cs) r = r
    Cells-map f g h k m (i ∷ is) [] r = r
    Cells-map f g h k m (i ∷ is) (c ∷ cs) r = (m i c r.0, Cells-map f g h k m is cs r.1)

    pub Cells-set :
        (f g : Option Failure) (h k : History) (c' : Cell B)
        → ((i : I) (c : Cell B) → CellOk f h i c → CellOk g k i c)
        → (is : List I) (cs : List (Cell B)) (n : ℕ) (c : Cell B) → get_elem? cs n ≡ some c
        → ((i : I) → CellOk f h i c → CellOk g k i c')
        → Cells f h is cs
        → Cells g k is (set cs n c')
    Cells-set f g h k c' m is [] n c e s r = absurd (cc e)
    Cells-set f g h k c' m [] (x ∷ cs) n c e s r = absurd r
    Cells-set f g h k c' m (i ∷ is) (x ∷ cs) zero c e s r =
        (s i (subst (CellOk f h i) (cc e) r.0), Cells-map f g h k m is cs r.1)
    Cells-set f g h k c' m (i ∷ is) (x ∷ cs) (suc n) c e s r =
        (m i x r.0, Cells-set f g h k c' m is cs n c e s r.1)

    pub Cells-at :
        (f : Option Failure) (h : History) (is : List I) (cs : List (Cell B)) (n : ℕ) (c : Cell B)
        → get_elem? cs n ≡ some c
        → Cells f h is cs
        → (i : I) × CellOk f h i c
    Cells-at f h is [] n c e r = absurd (cc e)
    Cells-at f h [] (x ∷ cs) n c e r = absurd r
    Cells-at f h (i ∷ is) (x ∷ cs) zero c e r = (i, subst (CellOk f h i) (cc e) r.0)
    Cells-at f h (i ∷ is) (x ∷ cs) (suc n) c e r = Cells-at f h is cs n c e r.1

    pub Cells-take_next :
        (f : Option Failure) (h : History) (is : List I) (cs : List (Cell B))
        → Cells f h is cs
        → Cells f h is (take_next cs)
    unfolding take_next
    Cells-take_next f h is [] r = r
    Cells-take_next f h [] (c ∷ cs) r = absurd r
    Cells-take_next f h (i ∷ is) (waiting p ∷ cs) r = r
    Cells-take_next f h (i ∷ is) (active p ∷ cs) r = (r.0, Cells-take_next f h is cs r.1)
    Cells-take_next f h (i ∷ is) (finished b ∷ cs) r = (r.0, Cells-take_next f h is cs r.1)
    Cells-take_next f h (i ∷ is) (dead ∷ cs) r = (r.0, Cells-take_next f h is cs r.1)

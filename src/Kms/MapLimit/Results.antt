-- ===== src/Kms/MapLimit/Results.antt =====
-- What `mapLimit` of scripts/real-kms-keys.mjs calls and returns, for every schedule.
use keyobject_aws_kms.Prelude.{
  ℕ, zero, suc, ◌-◌, ◌≡◌, refl, Option, none, some, List, [], ◌∷◌, map, get_elem?, set, All,
}
use keyobject_aws_kms.Kms.Program.{Request, Failure, Program, done, throw, call, attempt, ◌>>=◌}
use keyobject_aws_kms.Kms.Program.Logic.{History, ◌⊑◌, ⊑-cons, Stays, Runs, Runs-attempt, Runs-bind}
use keyobject_aws_kms.Kms.MapLimit.{
  Limit, workers_of, Cell, waiting, active, finished, dead, first_failure, start_workers, take_next,
  workers_left, drain, advance, run_schedule, map_programs, map_limit,
}
use keyobject_aws_kms.Kms.MapLimit.Cells
use keyobject_aws_kms.Kms.MapLimit.Cells.{Failed, Runs-weaken}

module _ (Q : History → Request → Type 0) (stays : (c : Request) → Stays (λ h. Q h c))
    {I B : Type 0} (P : I → History → B → Type 0)
    (keeps : (i : I) (b : B) → Stays (λ h. P i h b)) where
  abbrev CellOk : Option Failure → History → I → Cell B → Type 0
  CellOk = Cells.CellOk Q stays P keeps

  abbrev CellsOk : Option Failure → History → List I → List (Cell B) → Type 0
  CellsOk = Cells.Cells Q stays P keeps

  abbrev pub Outputs : History → List I → List B → Type 0
  Outputs = Cells.Outputs Q stays P keeps

  abbrev Post : Option Failure → List I → History → List B → Type 0
  Post = Cells.Post Q stays P keeps

  Cells-⊑ :
      (f : Option Failure) {h g : History} (is : List I) (cs : List (Cell B))
      → h ⊑ g
      → CellsOk f h is cs
      → CellsOk f g is cs
  Cells-⊑ f {h} {g} is cs p r =
      Cells.Cells-map Q stays P keeps f f h g (λ i c. Cells.CellOk-⊑ Q stays P keeps f i c p) is cs
        r

  Cells-failed :
      (f : Option Failure) (e : Failure) (h : History) (is : List I) (cs : List (Cell B))
      → CellsOk f h is cs
      → CellsOk (first_failure f e) h is cs
  Cells-failed f e h is cs r =
      Cells.Cells-map Q stays P keeps f (first_failure f e) h h
        (Cells.CellOk-failed Q stays P keeps f e h) is cs r

  Post-cons :
      (f : Option Failure) (i : I) (is : List I) (b : B) (g k : History)
      → g ⊑ k
      → P i g b
      → (bs : List B) → Post f is k bs
      → Post f (i ∷ is) k (b ∷ bs)
  Post-cons none i is b g k p ok bs r = (keeps i b g k p ok, r)
  Post-cons (some e) i is b g k p ok bs r = r

  Post-dead :
      (f : Option Failure) (i : I) (is : List I)
      → Failed f
      → (g : History) (bs : List B) → Post f is g bs
      → Post f (i ∷ is) g bs
  Post-dead none i is failed g bs r = absurd failed
  Post-dead (some e) i is failed g bs r = r

  Post-failed :
      (f : Option Failure) (e : Failure) (is is' : List I) (g : History) (bs : List B)
      → Post (first_failure f e) is g bs
      → Post f is' g bs
  Post-failed none e is is' g bs r = absurd r
  Post-failed (some x) e is is' g bs r = r

  -- The result of an item in front of the results of the rest.
  Runs-cons :
      (f : Option Failure) (i : I) (is : List I) (b : B) (g : History) (rest : Program (List B))
      → P i g b
      → Runs Q (Post f is) g rest
      → Runs Q (Post f (i ∷ is)) g (rest >>= λ bs. done (b ∷ bs))
  Runs-cons f i is b g rest ok r =
      Runs-bind Q (Post f is) (Post f (i ∷ is)) (λ bs. done (b ∷ bs)) rest g r
        (λ k p bs q. Post-cons f i is b g k p ok bs q)

  Runs-item :
      (workers later : ℕ) (f : Option Failure) (i : I) (is : List I) (p : Program B)
      (cs : List (Cell B)) (h : History)
      → ((w : ℕ) (f' : Option Failure) (g : History)
          → CellsOk f' g is cs
          → Runs Q (Post f' is) g (drain w f' cs))
      → Runs Q (P i) h p
      → CellsOk f h is cs
      → Runs Q (Post f (i ∷ is)) h (
          attempt p
            (λ b. drain workers f cs >>= λ bs. done (b ∷ bs))
            (λ e. drain later (first_failure f e) cs))
  Runs-item workers later f i is p cs h rest r rs =
      Runs-attempt Q (P i) (Post f (i ∷ is)) _ _ p h r
        (λ g q b ok.
          Runs-cons f i is b g (drain workers f cs) ok (rest workers f g (Cells-⊑ f is cs q rs)))
        (λ g q e.
          Runs-weaken Q stays (Post (first_failure f e) is) (Post f (i ∷ is))
            (Post-failed f e is (i ∷ is)) (drain later (first_failure f e) cs) g
            (rest later (first_failure f e) g (Cells-failed f e g is cs (Cells-⊑ f is cs q rs))))

  Runs-drain :
      (workers : ℕ) (f : Option Failure) (is : List I) (cs : List (Cell B)) (h : History)
      → CellsOk f h is cs
      → Runs Q (Post f is) h (drain workers f cs)
  unfolding drain
  Runs-drain workers none [] [] h r = r
  Runs-drain workers (some e) [] [] h r = tt
  Runs-drain workers f [] (c ∷ cs) h r = absurd r
  Runs-drain workers f (i ∷ is) [] h r = absurd r
  Runs-drain workers f (i ∷ is) (finished b ∷ cs) h r =
      Runs-cons f i is b h (drain workers f cs) r.0 (Runs-drain workers f is cs h r.1)
  Runs-drain workers f (i ∷ is) (dead ∷ cs) h r =
      Runs-weaken Q stays (Post f is) (Post f (i ∷ is)) (Post-dead f i is r.0) (drain workers f cs)
        h (Runs-drain workers f is cs h r.1)
  Runs-drain workers f (i ∷ is) (active p ∷ cs) h r =
      Runs-item workers (workers - 1) f i is p cs h (λ w f' g. Runs-drain w f' is cs g) r.0 r.1
  Runs-drain zero none (i ∷ is) (waiting p ∷ cs) h r =
      Runs-item zero zero none i is p cs h (λ w' f' g. Runs-drain w' f' is cs g) r.0 r.1
  Runs-drain zero (some e) (i ∷ is) (waiting p ∷ cs) h r = tt
  Runs-drain (suc w) f (i ∷ is) (waiting p ∷ cs) h r =
      Runs-item (suc w) w f i is p cs h (λ w' f' g. Runs-drain w' f' is cs g) r.0 r.1

  Runs-advance :
      (go : Option Failure → List (Cell B) → Program (List B)) (is : List I)
      → ((f : Option Failure) (cs : List (Cell B)) (g : History)
          → CellsOk f g is cs
          → Runs Q (Post f is) g (go f cs))
      → (f : Option Failure) (cs : List (Cell B)) (n : ℕ) (h : History) → CellsOk f h is cs
      → (o : Option (Cell B)) → get_elem? cs n ≡ o
      → Runs Q (Post f is) h (advance go f cs n o)
  unfolding advance
  Runs-advance go is rest f cs n h r (some (active (call c k))) e =
      let (i, ok) = Cells.Cells-at Q stays P keeps f h is cs n (active (call c k)) e r in
      (
        ok.0,
        λ x.
            let g : History = record { request = c; reply = x } ∷ h in
            rest f (set cs n (active (k x))) g (
              Cells.Cells-set Q stays P keeps f f h g (active (k x))
                (λ i' c'. Cells.CellOk-⊑ Q stays P keeps f i' c' (⊑-cons _ h)) is cs n
                (active (call c k)) e (λ i' ok. ok.1 x) r),
      )
  Runs-advance go is rest f cs n h r (some (active (done b))) e =
      rest f (take_next (set cs n (finished b))) h (
        Cells.Cells-take_next Q stays P keeps f h is (set cs n (finished b)) (
          Cells.Cells-set Q stays P keeps f f h h (finished b) (λ i c ok. ok) is cs n
            (active (done b)) e (λ i ok. ok) r))
  Runs-advance go is rest f cs n h r (some (active (throw x))) e =
      Runs-weaken Q stays (Post (first_failure f x) is) (Post f is) (Post-failed f x is is)
        (go (first_failure f x) (set cs n dead)) h
        (rest (first_failure f x) (set cs n dead) h (
          Cells.Cells-set Q stays P keeps f (first_failure f x) h h dead
            (Cells.CellOk-failed Q stays P keeps f x h) is cs n (active (throw x)) e
            (λ i ok. failed f x) r))
    where
      failed : (f : Option Failure) (x : Failure) → Failed (first_failure f x)
      failed none x = tt
      failed (some y) x = tt
  Runs-advance go is rest f cs n h r _ e = rest f cs h r

  Runs-run_schedule :
      (schedule : List ℕ) (f : Option Failure) (is : List I) (cs : List (Cell B)) (h : History)
      → CellsOk f h is cs
      → Runs Q (Post f is) h (run_schedule schedule f cs)
  unfolding run_schedule
  Runs-run_schedule [] f is cs h r = Runs-drain (workers_left cs) f is cs h r
  Runs-run_schedule (n ∷ schedule) f is cs h r =
      Runs-advance (run_schedule schedule) is (λ f' cs' g. Runs-run_schedule schedule f' is cs' g) f
        cs n h r (get_elem? cs n) refl

  CellsOk-start_workers :
      (workers : ℕ) (h : History) (is : List I) (fn : I → Program B)
      → All (λ i. Runs Q (P i) h (fn i)) is
      → CellsOk none h is (start_workers workers (map fn is))
  unfolding start_workers
  CellsOk-start_workers workers h [] fn r = tt
  CellsOk-start_workers zero h (i ∷ is) fn r = (r.0, CellsOk-start_workers zero h is fn r.1)
  CellsOk-start_workers (suc w) h (i ∷ is) fn r = (r.0, CellsOk-start_workers w h is fn r.1)

  -- For every positive limit and every interleaving: if the program of each item makes only allowed calls and
  -- its result satisfies the item's postcondition, then `mapLimit` makes only allowed calls, and what
  -- it returns has one result for each item, in the order of the items, that satisfies the item's
  -- postcondition.
  pub map_limit-Runs :
      (schedule : List ℕ) (is : List I) (limit : Limit) (fn : I → Program B) (h : History)
      → All (λ i. Runs Q (P i) h (fn i)) is
      → Runs Q (λ g bs. Outputs g is bs) h (map_limit schedule is limit fn)
  unfolding map_limit map_programs
  map_limit-Runs schedule is limit fn h r =
      Runs-run_schedule schedule none is (start_workers (workers_of limit) (map fn is)) h
        (CellsOk-start_workers (workers_of limit) h is fn r)

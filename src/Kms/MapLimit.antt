-- ===== src/Kms/MapLimit.antt =====
-- `mapLimit(items, limit, fn)` of scripts/real-kms-keys.mjs: `limit` workers take the items in order.
-- The programs of the items interleave at their calls. Which one goes on next is the schedule, a
-- list of positions; what a schedule leaves over is finished in order, so that every interleaving of
-- finitely many calls is that of a schedule. When an item fails, its worker ends, the others go on,
-- and the first failure is thrown. A limit is positive, which parseArgs has checked of every limit.
pub mod Cells
pub mod Results
use keyobject_aws_kms.Prelude.{
  ℕ, zero, suc, ◌-◌, Option, none, some, List, [], ◌∷◌, map, get_elem?, set,
}
use keyobject_aws_kms.Kms.Program.{Failure, Program, done, throw, call, attempt, ◌>>=◌}

-- A positive number of workers: one, and some more.
pub data Limit : Type 0 where
  one_and : (more : ℕ) → Limit

abbrev pub workers_of : Limit → ℕ
workers_of (one_and more) = suc more

pub data Cell (B : Type 0) : Type 0 where
  waiting active : Program B → Cell B
  finished : B → Cell B
  dead : Cell B

abbrev pub first_failure : Option Failure → Failure → Option Failure
first_failure none e = some e
first_failure (some first) e = some first

module _ {B : Type 0} where
  -- Each worker takes an item.
  unfoldable pub start_workers : ℕ → List (Program B) → List (Cell B)
  start_workers workers [] = []
  start_workers zero (p ∷ ps) = waiting p ∷ start_workers zero ps
  start_workers (suc w) (p ∷ ps) = active p ∷ start_workers w ps

  -- A worker that has finished an item takes the next one, `index = next++`.
  unfoldable pub take_next : List (Cell B) → List (Cell B)
  take_next [] = []
  take_next (waiting p ∷ cells) = active p ∷ cells
  take_next (c ∷ cells) = c ∷ take_next cells

  unfoldable pub workers_left : List (Cell B) → ℕ
  workers_left [] = 0
  workers_left (active p ∷ cells) = suc (workers_left cells)
  workers_left (c ∷ cells) = workers_left cells

  abbrev pub ending : Option Failure → Program (List B)
  ending none = done []
  ending (some e) = throw e

  -- The items that are left, in order, by the workers that are left. A worker ends only with a failure, so
  -- that there is one as long as none has failed.
  unfoldable pub drain : ℕ → Option Failure → List (Cell B) → Program (List B)
  drain workers failure [] = ending failure
  drain workers failure (finished b ∷ cells) = drain workers failure cells >>= λ bs. done (b ∷ bs)
  drain workers failure (dead ∷ cells) = drain workers failure cells
  drain workers failure (active p ∷ cells) =
      attempt p (λ b. drain workers failure cells >>= λ bs. done (b ∷ bs))
        (λ e. drain (workers - 1) (first_failure failure e) cells)
  drain zero (some e) (waiting p ∷ cells) = throw e
  drain zero none (waiting p ∷ cells) =
      attempt p (λ b. drain zero none cells >>= λ bs. done (b ∷ bs))
        (λ e. drain zero (some e) cells)
  drain (suc w) failure (waiting p ∷ cells) =
      attempt p (λ b. drain (suc w) failure cells >>= λ bs. done (b ∷ bs))
        (λ e. drain w (first_failure failure e) cells)

  -- One step of the item at position `i`.
  unfoldable pub advance :
      (Option Failure → List (Cell B) → Program (List B))
      → Option Failure
      → List (Cell B)
      → ℕ
      → Option (Cell B)
      → Program (List B)
  advance go failure cells i (some (active (call c k))) =
      call c (λ r. go failure (set cells i (active (k r))))
  advance go failure cells i (some (active (done b))) =
      go failure (take_next (set cells i (finished b)))
  advance go failure cells i (some (active (throw e))) =
      go (first_failure failure e) (set cells i dead)
  advance go failure cells i _ = go failure cells

  unfoldable pub run_schedule : List ℕ → Option Failure → List (Cell B) → Program (List B)
  unfolding drain advance
  run_schedule [] failure cells = drain (workers_left cells) failure cells
  run_schedule (i ∷ schedule) failure cells =
      advance (run_schedule schedule) failure cells i (get_elem? cells i)

  unfoldable pub map_programs : List ℕ → ℕ → List (Program B) → Program (List B)
  unfolding run_schedule start_workers
  map_programs schedule limit programs = run_schedule schedule none (start_workers limit programs)

-- `mapLimit(items, limit, fn)`.
unfoldable pub map_limit :
    {A B : Type 0} → List ℕ → List A → Limit → (A → Program B) → Program (List B)
unfolding map_programs
map_limit schedule items limit fn = map_programs schedule (workers_of limit) (map fn items)

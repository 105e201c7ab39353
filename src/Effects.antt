-- ===== src/Effects.antt =====
-- Synchronous scripts as the trees of their calls: a script reads and assigns its module's variables
-- (a state of type `S`), calls the host (requests of type `Q`, a request `c` answered in `R c`), and
-- throws errors of type `E`. The host is not modelled: what a script does next may depend on every
-- answer, and statements range over all of them. A loop without a bound runs on fuel, and a script
-- whose fuel is used up is `stuck`, which is neither a result nor an error.
pub mod Logic
pub mod Run
pub mod Calls
pub mod Clock
use keyobject_aws_kms.Prelude.{◌≡◌, refl, ◌⊎◌, List, [], ◌∷◌}

pub data Io (S Q : Type 0) (R : Q → Type 0) (E A : Type 0) : Type 0 where
  done : A → Io S Q R E A
  throw : E → Io S Q R E A
  stuck : Io S Q R E A
  call : (c : Q) → (R c → Io S Q R E A) → Io S Q R E A
  read_state : (S → Io S Q R E A) → Io S Q R E A
  assign : S → Io S Q R E A → Io S Q R E A

module _ {S Q : Type 0} {R : Q → Type 0} {E : Type 0} where
  -- To go on with the result, or with the error.
  unfoldable pub attempt :
      {A B : Type 0} → Io S Q R E A → (A → Io S Q R E B) → (E → Io S Q R E B) → Io S Q R E B
  attempt (done a) ok failed = ok a
  attempt (throw e) ok failed = failed e
  attempt stuck ok failed = stuck
  attempt (call c k) ok failed = call c (λ r. attempt (k r) ok failed)
  attempt (read_state k) ok failed = read_state (λ s. attempt (k s) ok failed)
  attempt (assign s m) ok failed = assign s (attempt m ok failed)

  infixl 5 ◌>>=◌ ◌>>◌
  abbrev pub ◌>>=◌ : {A B : Type 0} → Io S Q R E A → (A → Io S Q R E B) → Io S Q R E B
  m >>= f = attempt m f throw

  abbrev pub ◌>>◌ : {A B : Type 0} → Io S Q R E A → Io S Q R E B → Io S Q R E B
  m >> k = m >>= λ _. k

  -- `try { m } catch (error) { … }`.
  abbrev pub catch : {A : Type 0} → Io S Q R E A → (E → Io S Q R E A) → Io S Q R E A
  catch m handler = attempt m done handler

  -- `try { m } finally { c }`: an error of `c` takes the place of what `m` did.
  abbrev pub finally : {A B : Type 0} → Io S Q R E A → Io S Q R E B → Io S Q R E A
  finally m c = attempt m (λ a. c >>= λ _. done a) (λ e. c >>= λ _. throw e)

-- A request and its answer.
pub record Event (Q : Type 0) (R : Q → Type 0) : Type 0 where
  pub request : Q
  pub answer : R request

-- The newest event first.
abbrev pub History : (Q : Type 0) → (Q → Type 0) → Type 0
History Q R = List (Event Q R)

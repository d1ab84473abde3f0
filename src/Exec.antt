-- ===== src/Exec.antt =====
-- Go functions that return `(T, error)` and act on a service or a store: a state and a result. The
-- state comes back beside an error too, since what was written before the error stays written.
pub mod Ensures
use digital_wallet.Prelude.{Option, none, some}
use digital_wallet.Shared.{Error}

pub data Result {ℓ} (A : Type ℓ) : Type ℓ where
  ok : A → Result A
  err : Error → Result A

abbrev pub Exec : Type 0 → Type 0 → Type 0
Exec S A = S → Result A × S

module _ {S A : Type 0} where
  unfoldable pub pure : A → Exec S A
  pure a s = (ok a, s)

  unfoldable pub raise : Error → Exec S A
  raise e s = (err e, s)

  -- `x, err := m(); …`: what follows sees the value or the error.
  unfoldable pub attempt : {B : Type 0} → Exec S A → (Result A → Exec S B) → Exec S B
  attempt m k s = let (r, s') = m s in k r s'

  -- The error of `m` under a change of the error, as `fmt.Errorf("%w", …)` makes one.
  abbrev pub or_raise : (Error → Error) → Result A → Exec S A
  or_raise f (ok a) = pure a
  or_raise f (err e) = raise (f e)

  unfoldable pub wrap : (Error → Error) → Exec S A → Exec S A
  wrap f m = attempt m (or_raise f)

  abbrev pub or_else : Option A → Error → Exec S A
  or_else none e = raise e
  or_else (some a) e = pure a

module _ {S A B : Type 0} where
  -- `if err != nil { return err }`
  abbrev pub continue : (A → Exec S B) → Result A → Exec S B
  continue f (ok a) = f a
  continue f (err e) = raise e

  infixl 5 ◌>>=◌ ◌>>◌
  abbrev pub ◌>>=◌ : Exec S A → (A → Exec S B) → Exec S B
  m >>= f = attempt m (continue f)

  abbrev pub ◌>>◌ : Exec S A → Exec S B → Exec S B
  m >> n = m >>= λ _. n

-- a call that touches no state
abbrev pub from_result : {A S : Type 0} → Result A → Exec S A
from_result (ok a) = pure a
from_result (err e) = raise e

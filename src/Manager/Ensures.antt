-- ===== src/Manager/Ensures.antt =====
-- What holds after a call, on each way in which it can end.
use tarfs.Manager.{Manager, Errno, Run, ok, fail, exited, fault, out_of_fuel, M, and_then}

-- `P` of the value and the state that a call returns, `Q` of the state that is left by an error or
-- by `exit`.
pub data Ensures {A : Type 0} (P : A → Manager → Type 0) (Q : Manager → Type 0)
    : Run A → Type 0 where
  on_ok : {a : A} {m : Manager} → P a m → Ensures P Q (ok a m)
  on_fail : {e : Errno} {m : Manager} → Q m → Ensures P Q (fail e m)
  on_exit : {m : Manager} → Q m → Ensures P Q (exited m)
  on_fault : Ensures P Q fault
  on_fuel : Ensures P Q out_of_fuel

-- The call returns without an error, and `P` holds of what it returns.
pub data Returns {A : Type 0} (P : A → Manager → Type 0) : Run A → Type 0 where
  returns : {a : A} {m : Manager} → P a m → Returns P (ok a m)

-- A call of which nothing is asked
pub Ensures-after :
    {A B : Type 0} {P : B → Manager → Type 0} {k : A → M B} (r : Run A)
    → ((a : A) (m : Manager) → Ensures P (λ m'. Unit {0}) (k a m))
    → Ensures P (λ m'. Unit {0}) (and_then r k)
Ensures-after (ok a m) next = next a m
Ensures-after (fail e m) next = on_fail tt
Ensures-after (exited m) next = on_exit tt
Ensures-after fault next = on_fault
Ensures-after out_of_fuel next = on_fuel

module _ {A B : Type 0} {P : A → Manager → Type 0} {Q : Manager → Type 0} where
  pub Ensures-bind :
      {P' : B → Manager → Type 0} {r : Run A} {k : A → M B}
      → Ensures P Q r
      → ((a : A) (m : Manager) → P a m → Ensures P' Q (k a m))
      → Ensures P' Q (and_then r k)
  Ensures-bind (on_ok p) next = next _ _ p
  Ensures-bind (on_fail q) next = on_fail q
  Ensures-bind (on_exit q) next = on_exit q
  Ensures-bind on_fault next = on_fault
  Ensures-bind on_fuel next = on_fuel

module _ {A : Type 0} {P : A → Manager → Type 0} {Q : Manager → Type 0} where
  pub Ensures-mono :
      {P' : A → Manager → Type 0} {Q' : Manager → Type 0} {r : Run A}
      → Ensures P Q r
      → ((a : A) (m : Manager) → P a m → P' a m)
      → ((m : Manager) → Q m → Q' m)
      → Ensures P' Q' r
  Ensures-mono (on_ok p) f g = on_ok (f _ _ p)
  Ensures-mono (on_fail q) f g = on_fail (g _ q)
  Ensures-mono (on_exit q) f g = on_exit (g _ q)
  Ensures-mono on_fault f g = on_fault
  Ensures-mono on_fuel f g = on_fuel

module _ {A B : Type 0} {P : A → Manager → Type 0} where
  pub Returns-bind :
      {P' : B → Manager → Type 0} {r : Run A} {k : A → M B}
      → Returns P r
      → ((a : A) (m : Manager) → P a m → Returns P' (k a m))
      → Returns P' (and_then r k)
  Returns-bind (returns p) next = next _ _ p

module _ {A : Type 0} {P : A → Manager → Type 0} where
  pub Returns-mono :
      {P' : A → Manager → Type 0} {r : Run A}
      → Returns P r
      → ((a : A) (m : Manager) → P a m → P' a m)
      → Returns P' r
  Returns-mono (returns p) f = returns (f _ _ p)

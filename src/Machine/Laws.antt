-- ===== src/Machine/Laws.antt =====
-- How a run may end, for proofs about the code in the monad.
use iouring_http_server.Prelude.{◌≡◌, ◌≢◌, refl}
use iouring_http_server.Machine.{World, Run, ok, exits, undefined, M, and_then}

-- The run returns as `P` says or exits as `Q` says; it never meets undefined behaviour.
pub data Ends {A : Type 0} (P : A → World → Type 0) (Q : World → Type 0) : Run A → Type 0 where
  returns : {a : A} {w : World} → P a w → Ends P Q (ok a w)
  aborts : {w : World} → Q w → Ends P Q (exits w)

module _ {A : Type 0} {P : A → World → Type 0} {Q : World → Type 0} where
  pub Ends-bind :
      {B : Type 0} {R : B → World → Type 0} {r : Run A} {k : A → M B}
      → Ends P Q r
      → ((a : A) (w : World) → P a w → Ends R Q (k a w))
      → Ends R Q (and_then r k)
  Ends-bind (returns p) next = next _ _ p
  Ends-bind (aborts q) next = aborts q

  pub Ends-weaken :
      {R : A → World → Type 0} {S : World → Type 0} {r : Run A}
      → Ends P Q r
      → ((a : A) (w : World) → P a w → R a w)
      → ((w : World) → Q w → S w)
      → Ends R S r
  Ends-weaken (returns p) f g = returns (f _ _ p)
  Ends-weaken (aborts q) f g = aborts (g _ q)

  -- A run that cannot exit returns.
  pub Ends-returns :
      {r : Run A}
      → Ends P Q r
      → ((w : World) → Q w → ⊥)
      → (a : A) × (w : World) × (r ≡ ok a w) × P a w
  Ends-returns (returns p) never = (_, _, refl, p)
  Ends-returns (aborts q) never = absurd (never _ q)

  -- A run that ends in one of the two ways is defined.
  pub Ends-defined : {r : Run A} → Ends P Q r → r ≢ undefined
  Ends-defined (returns p) e = cc
  Ends-defined (aborts q) e = cc

-- ===== src/Machine/Leaves.antt =====
-- What holds if a run returns, whatever the outside answers, for proofs about the code in the monad.
use iouring_http_server.Prelude.{
  ℕ, ◌≡◌, refl, Bool, true, false, if◌then◌else◌, zero, suc, ◌^◌, Option, none, some, ◌∷◌,
  Bool-cases, inl, inr, ltb, ◌==◌,
}
use iouring_http_server.Prelude.Int.{ℤ, is_negative}
use iouring_http_server.Machine.{
  World, History, Call, Run, ok, exits, undefined, M, and_then, assert_positive,
  assert_positive_call, assert_not_null, use_filled, store_through, as_int, deref,
}
use iouring_http_server.Machine.Laws.{Ends, returns, aborts}

pub data Leaves {A : Type 0} (P : A → World → Type 0) : Run A → Type 0 where
  returned : {a : A} {w : World} → P a w → Leaves P (ok a w)
  exited : {w : World} → Leaves P (exits w)
  broken : Leaves P undefined

module _ {A B : Type 0} {R : B → World → Type 0} where
  pub Leaves-bind :
      {P : A → World → Type 0} {r : Run A} {k : A → M B}
      → Leaves P r
      → ((a : A) (w : World) → P a w → Leaves R (k a w))
      → Leaves R (and_then r k)
  Leaves-bind (returned p) next = next _ _ p
  Leaves-bind exited next = exited
  Leaves-bind broken next = broken

  pub Leaves-assert_not_null :
      (o : Option A) (w : World) (k : A → M B)
      → ((a : A) → Leaves R (k a w))
      → Leaves R (and_then (assert_not_null o w) k)
  unfolding assert_not_null
  Leaves-assert_not_null none w k next = exited
  Leaves-assert_not_null (some a) w k next = next a

  pub Leaves-deref :
      (o : Option A) (w : World) (k : A → M B)
      → ((a : A) → Leaves R (k a w))
      → Leaves R (and_then (deref o w) k)
  unfolding deref
  Leaves-deref none w k next = broken
  Leaves-deref (some a) w k next = next a

-- A run whose last step is the assertion.
pub Leaves-last_assertion :
    {P : Unit {0} → World → Type 0} (code : ℤ) (w : World)
    → P tt w
    → Leaves P (assert_positive code w)
unfolding assert_positive
Leaves-last_assertion code w p = elim (Bool-cases (is_negative code)) [
  | inl bad ↦ rw bad exited
  | inr fine ↦ rw fine (returned p)
]

module _ {B : Type 0} {R : B → World → Type 0} where
  pub Leaves-assert_positive :
      (code : ℤ) (w : World) (k : Unit {0} → M B)
      → Leaves R (k tt w)
      → Leaves R (and_then (assert_positive code w) k)
  unfolding assert_positive
  Leaves-assert_positive code w k next = elim (Bool-cases (is_negative code)) [
    | inl bad ↦ rw bad exited
    | inr fine ↦ rw fine next
  ]

  pub Leaves-assert_positive_call :
      (status : History → ℤ) (c : Call) (w : World) (k : Unit {0} → M B)
      → Leaves R (k tt (record w { history = c ∷ w.history }))
      → Leaves R (and_then (assert_positive_call status c w) k)
  unfolding assert_positive_call
  Leaves-assert_positive_call status c w k next =
      elim (Bool-cases (is_negative (status (c ∷ w.history)))) [
        | inl bad ↦ rw bad exited
        | inr fine ↦ rw fine next
      ]

  pub Leaves-use_filled :
      (err : ℤ) (w : World) (k : Unit {0} → M B)
      → Leaves R (k tt w)
      → Leaves R (and_then (use_filled err w) k)
  unfolding use_filled
  Leaves-use_filled err w k next = elim (Bool-cases (is_negative err)) [
    | inl bad ↦ rw bad broken
    | inr fine ↦ rw fine next
  ]

  pub Leaves-store_through :
      (address count : ℕ) (w : World) (k : Unit {0} → M B)
      → Leaves R (k tt w)
      → Leaves R (and_then (store_through address count w) k)
  unfolding store_through
  Leaves-store_through address zero w k next = next
  Leaves-store_through address (suc count) w k next = elim (Bool-cases (address == 0)) [
    | inl null ↦ rw null broken
    | inr room ↦ rw room next
  ]

  pub Leaves-as_int :
      (n : ℕ) (w : World) (k : ℕ → M B) → Leaves R (k n w) → Leaves R (and_then (as_int n w) k)
  unfolding as_int
  Leaves-as_int n w k next = elim (Bool-cases (ltb n (2 ^ 31))) [
    | inl fits ↦ rw fits next
    | inr not_fits ↦ rw not_fits broken
  ]

-- A run that ends well, and leaves something if it returns, does both.
pub Ends-Leaves :
    {A : Type 0} {P R : A → World → Type 0} {Q : World → Type 0} {r : Run A}
    → Ends P Q r
    → Leaves R r
    → Ends (λ a w. P a w × R a w) Q r
Ends-Leaves (returns p) (returned q) = returns (p, q)
Ends-Leaves (aborts q) exited = aborts q

pub Leaves-if :
    {A : Type 0} {R : A → World → Type 0} (b : Bool) (m n : M A) (w : World)
    → (b ≡ true → Leaves R (m w))
    → (b ≡ false → Leaves R (n w))
    → Leaves R ((if b then m else n) w)
Leaves-if true m n w p q = p refl
Leaves-if false m n w p q = q refl

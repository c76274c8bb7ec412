-- ===== src/Pool/Stack.antt =====
-- What the pool promises: a stack of buffer numbers. The calls of clib/appctx.c implement it.
use iouring_http_server.Prelude.{
  ℕ, ◌^◌, ◌<◌, ◌≤◌, ◌≡◌, refl, ap, ◌∙◌, Option, none, some, List, [], ◌∷◌, arith, length,
}
use iouring_http_server.Pool.{Bufpool, bufpool_of, bufpool_pop, bufpool_put}
use iouring_http_server.Pool.Chain.{NotIn, IsPool, pop_empty, pop_first, put_first}
use iouring_http_server.Pool.Init.{countdown, bufpool_of-IsPool, length-freelist_mem}

pub data PoolCall : Type 0 where
  pops : PoolCall
  puts : ℕ → PoolCall

-- The results of the `pops` among the calls, on a stack.
unfoldable pub stack_results : List PoolCall → List ℕ → List (Option ℕ)
stack_results [] free = []
stack_results (pops ∷ calls) [] = none ∷ stack_results calls []
stack_results (pops ∷ calls) (x ∷ free) = some x ∷ stack_results calls free
stack_results (puts x ∷ calls) free = stack_results calls (x ∷ free)

unfoldable pub after_result : Option ℕ → Option (List (Option ℕ)) → Option (List (Option ℕ))
after_result r none = none
after_result r (some rs) = some (r ∷ rs)

-- The results of `bufpool_pop` in a series of calls on a pool, or none where one of them faults.
unfoldable pub pool_results : List PoolCall → Bufpool → Option (List (Option ℕ))
unfolding after_result
pool_results [] p = some []
pool_results (pops ∷ calls) p = elim (bufpool_pop p) [
  | none ↦ none
  | some (r, q) ↦ after_result r (pool_results calls q)
]
pool_results (puts x ∷ calls) p = elim (bufpool_put p x) [
  | none ↦ none
  | some q ↦ pool_results calls q
]

-- The clients put back only buffers below `n` that are not free.
abbrev pub Legal : ℕ → List PoolCall → List ℕ → Type 0
Legal n [] free = Unit
Legal n (pops ∷ calls) [] = Legal n calls []
Legal n (pops ∷ calls) (x ∷ free) = Legal n calls free
Legal n (puts x ∷ calls) free = NotIn x free × (x < n) × Legal n calls (x ∷ free)

pool_results-stack_results :
    (n : ℕ) (calls : List PoolCall) (p : Bufpool) (free : List ℕ)
    → IsPool p free
    → length p.freelist_mem ≡ n
    → Legal n calls free
    → pool_results calls p ≡ some (stack_results calls free)
unfolding pool_results stack_results
pool_results-stack_results n [] p free v room legal = refl
pool_results-stack_results n (pops ∷ calls) p [] v room legal =
    rw (pop_empty p v, pool_results)
      (rw (pool_results-stack_results n calls p [] v room legal) refl)
pool_results-stack_results n (pops ∷ calls) p (x ∷ free) v room legal =
    let (q, e, w, same, _) = pop_first p x free v in
    rw (e, pool_results)
      (rw (pool_results-stack_results n calls q free w (ap length same ∙ room) legal) refl)
pool_results-stack_results n (puts x ∷ calls) p free v room legal =
    let (q, e, w, same, _) = put_first p x free v legal.0 (omega (arith, room, legal.1)) in
    rw (e, pool_results) (pool_results-stack_results n calls q (x ∷ free) w (same ∙ room) legal.2)

-- A pool fresh from `bufpool_init` with at most 2 ^ 16 buffers answers any series of calls, in which
-- only buffers of the pool that are not free are put back, as a stack does that holds all of the
-- buffers, the last one on top; none of the calls faults.
pub pool_results-bufpool_of :
    (buf buf_size n : ℕ) (calls : List PoolCall)
    → n ≤ 2 ^ 16
    → Legal n calls (countdown n)
    → pool_results calls (bufpool_of buf buf_size n) ≡ some (stack_results calls (countdown n))
pool_results-bufpool_of buf buf_size n calls small legal =
    pool_results-stack_results n calls _ (countdown n) (bufpool_of-IsPool buf buf_size n small)
      (length-freelist_mem buf buf_size n) legal

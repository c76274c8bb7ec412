-- ===== src/Pool/View.antt =====
-- Which buffers of the pool are free, whatever their order: the view that a client has of it.
use mathlib.Core.Quot
use mathlib.Core.Quot.{Quot}
use iouring_http_server.Prelude.{
  ℕ, zero, suc, ◌≤◌, ◌≡◌, refl, ap, ◌∙◌, Option, none, some, List, [], ◌∷◌, ◌++◌, arith, length,
  length-append, get_elem?,
}
use iouring_http_server.Pool.{Freebuf, Bufpool}
use iouring_http_server.Pool.Chain.{Chain}
use iouring_http_server.Pool.Ownership.{Owned, times, times-append}
use iouring_http_server.Pool.Removed.{length-of_times}

-- The entries that the `next` pointers lead through, from a pointer on.
unfoldable pub followed : List Freebuf → (fuel : ℕ) → Option ℕ → List ℕ
followed mem zero head = []
followed mem (suc fuel) none = []
followed mem (suc fuel) (some x) = elim (get_elem? mem x) [
  | none ↦ []
  | some freebuf ↦ x ∷ followed mem fuel freebuf.next
]

-- Lists that name the same buffers, each as often.
abbrev pub SameBuffers : List ℕ → List ℕ → Type 0
SameBuffers free other = (bid : ℕ) → times bid free ≡ times bid other

abbrev pub BufferSet : Type 0
BufferSet = Quot SameBuffers

-- The free buffers of a pool. No list without a repetition is longer than `freelist_mem`.
unfoldable pub free_view : Bufpool → BufferSet
unfolding followed
free_view p = Quot.mk (followed p.freelist_mem (length p.freelist_mem) p.freelist_head)

followed-Chain :
    (mem : List Freebuf) (fuel : ℕ) (head : Option ℕ) (free : List ℕ)
    → Chain mem head free
    → length free ≤ fuel
    → followed mem fuel head ≡ free
unfolding followed
followed-Chain mem zero head [] c enough = refl
followed-Chain mem zero head (x ∷ free) c enough = absurd (omega arith)
followed-Chain mem (suc fuel) head [] c enough = rw c refl
followed-Chain mem (suc fuel) head (x ∷ free) (e, freebuf, there, c) enough = rw e (
    rw (there, followed)
      (ap (λ rest. x ∷ rest) (followed-Chain mem fuel freebuf.next free c (omega arith))))

-- The free list of a pool whose buffers are all free or held is found within the fuel.
followed-Owned :
    (n : ℕ) (p : Bufpool) (held : List ℕ) (v : Owned n p held)
    → followed p.freelist_mem (length p.freelist_mem) p.freelist_head ≡ v.free
followed-Owned n p held v =
    let all : length (v.free ++ held) ≡ n =
      length-of_times n (v.free ++ held) (λ a. times-append a v.free held ∙ v.once a) in
    followed-Chain p.freelist_mem (length p.freelist_mem) p.freelist_head v.free v.is_pool.chain
      (omega (arith, v.room, length-append v.free held))

pub Owned-SameBuffers :
    (n : ℕ) (p : Bufpool) (held other : List ℕ)
    → SameBuffers held other
    → Owned n p held
    → Owned n p other
Owned-SameBuffers n p held other same v = record {
  free = v.free;
  is_pool = v.is_pool;
  once = λ a. omega (arith, v.once a, same a);
  room = v.room;
  buffers = v.buffers;
}

-- Two pools of `n` buffers, of which the same ones are held, have the same free buffers.
pub free_view-Owned :
    (n : ℕ) (p q : Bufpool) (held : List ℕ)
    → Owned n p held
    → Owned n q held
    → free_view p ≡ free_view q
unfolding free_view
free_view-Owned n p q held v w = Quot.sound λ a.
    rw (followed-Owned n p held v)
      (rw (followed-Owned n q held w) (omega (arith, v.once a, w.once a)))

-- ===== src/Pool/Chain.antt =====
-- The free list as a list of indices: what `bufpool_pop` and `bufpool_put` do to it.
use native.Mathlib.Decide.{ℕ_discrete}
use iouring_http_server.Prelude.{
  ℕ, ◌<◌, ◌≡◌, ◌≢◌, refl, sym, ◌∙◌, Option, none, some, List, [], ◌∷◌, arith, length, get_elem?,
  set, get_elem?-set_self, get_elem?-set_ne, get_elem?-some, get_elem?-lt, length-set, subst,
}
use iouring_http_server.Pool.{Freebuf, Bufpool, bufpool_pop, bufpool_put}

abbrev pub NotIn : ℕ → List ℕ → Type 0
NotIn a [] = Unit
NotIn a (x ∷ xs) = (x ≢ a) × NotIn a xs

abbrev pub Distinct : List ℕ → Type 0
Distinct [] = Unit
Distinct (x ∷ xs) = NotIn x xs × Distinct xs

-- From `head` the `next` pointers lead through the entries `xs` of `mem`, and end with NULL.
abbrev pub Chain : List Freebuf → Option ℕ → List ℕ → Type 0
Chain mem head [] = head ≡ none
Chain mem head (x ∷ xs) =
    (head ≡ some x) × (b : Freebuf) × (get_elem? mem x ≡ some b) × Chain mem b.next xs

Chain-set :
    (mem : List Freebuf) (head : Option ℕ) (xs : List ℕ) (i : ℕ) (b : Freebuf)
    → NotIn i xs
    → Chain mem head xs
    → Chain (set mem i b) head xs
Chain-set mem head [] i b out c = c
Chain-set mem head (x ∷ xs) i b out c = (
  c.0,
  c.1,
  get_elem?-set_ne mem i x b (λ e. out.0 (sym e)) ∙ c.2,
  Chain-set mem c.1.next xs i b out.1 c.3,
)

-- Each entry of `mem` describes the buffer of its own index.
abbrev pub Numbered : List Freebuf → Type 0
Numbered mem = (i : ℕ) (b : Freebuf) → get_elem? mem i ≡ some b → (b.bid ≡ i) × (b.iov ≡ i)

-- `free` is the free list of the pool, the next buffer first.
pub record IsPool (p : Bufpool) (free : List ℕ) : Type 0 where
  pub chain : Chain p.freelist_mem p.freelist_head free
  pub distinct : Distinct free
  pub numbered : Numbered p.freelist_mem

-- `bufpool_pop` on a pool with no free buffer returns NULL and changes nothing.
pub pop_empty : (p : Bufpool) → IsPool p [] → bufpool_pop p ≡ some (none, p)
unfolding bufpool_pop
pop_empty p v = ground arith

-- On a pool with a free buffer `bufpool_pop` returns the first one, and the others stay free in
-- their order; no other part of the pool changes.
pub pop_first :
    (p : Bufpool) (x : ℕ) (xs : List ℕ)
    → IsPool p (x ∷ xs)
    → (q : Bufpool) × (bufpool_pop p ≡ some (some x, q))
      × IsPool q xs
      × (q.freelist_mem ≡ p.freelist_mem)
      × (q.iovecs ≡ p.iovecs)
unfolding bufpool_pop
pop_first p x xs v = (
  record p { freelist_head = v.chain.1.next },
  rw (v.chain.0, bufpool_pop) (rw (v.chain.2, bufpool_pop)),
  record { chain = v.chain.3; distinct = v.distinct.1; numbered = v.numbered },
  refl,
  refl,
)

Numbered-set :
    (mem : List Freebuf) (i : ℕ) (b c : Freebuf)
    → Numbered mem
    → get_elem? mem i ≡ some b
    → c.bid ≡ b.bid
    → c.iov ≡ b.iov
    → Numbered (set mem i c)
Numbered-set mem i b c v e h k j d f = elim (ℕ_discrete i j) [
  | yes same ↦
      let there : get_elem? (set mem i c) j ≡ some c =
        subst (λ m. get_elem? (set mem i c) m ≡ some c) same
          (get_elem?-set_self mem i c (get_elem?-lt mem i b e)) in
      let (bid, iov) = v i b e in ground arith
  | no apart ↦ v j d (sym (get_elem?-set_ne mem i j c apart) ∙ f)
]

-- `bufpool_put` of a buffer of the pool that is not free makes it the first free one.
pub put_first :
    (p : Bufpool) (x : ℕ) (xs : List ℕ)
    → IsPool p xs
    → NotIn x xs
    → x < length p.freelist_mem
    → (q : Bufpool) × (bufpool_put p x ≡ some q)
      × IsPool q (x ∷ xs)
      × (length q.freelist_mem ≡ length p.freelist_mem)
      × (q.iovecs ≡ p.iovecs)
unfolding bufpool_put
put_first p x xs v out h =
    let (b, e) = get_elem?-some p.freelist_mem x h in
    let c : Freebuf = record b { next = p.freelist_head } in
    let mem = set p.freelist_mem x c in
    (
      record p { freelist_mem = mem; freelist_head = some x },
      rw (e, bufpool_put),
      record {
        chain = (
          refl,
          c,
          get_elem?-set_self p.freelist_mem x c h,
          Chain-set p.freelist_mem p.freelist_head xs x c out v.chain,
        );
        distinct = (out, v.distinct);
        numbered = Numbered-set p.freelist_mem x b c v.numbered e refl refl;
      },
      length-set p.freelist_mem x c,
      refl,
    )

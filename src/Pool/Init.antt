-- ===== src/Pool/Init.antt =====
-- What `bufpool_init` builds.
use Prim.Native.Nat.add
use native.Mathlib.Nat.{add-zero}
use iouring_http_server.Prelude.{
  ℕ, zero, suc, ◌+◌, ◌*◌, ◌%◌, ◌^◌, ◌<◌, ◌≤◌, ◌≡◌, refl, ◌∙◌, ap, Option, none, some, List, [], ◌∷◌,
  arith, length, get_elem?, get_elem?-some,
}
use iouring_http_server.Pool.{Freebuf, Iovec, Bufpool, init_loop, bufpool_of}
use iouring_http_server.Pool.Chain.{NotIn, Distinct, Chain, Numbered, IsPool}

-- n - 1, …, 1, 0.
abbrev pub countdown : ℕ → List ℕ
countdown zero = []
countdown (suc n) = n ∷ countdown n

NotIn-countdown : (a n : ℕ) → n ≤ a → NotIn a (countdown n)
NotIn-countdown a zero h = tt
NotIn-countdown a (suc n) h = (omega arith, NotIn-countdown a n (omega arith))

Distinct-countdown : (n : ℕ) → Distinct (countdown n)
Distinct-countdown zero = tt
Distinct-countdown (suc n) = (NotIn-countdown n n (omega arith), Distinct-countdown n)

module _ (buf buf_size : ℕ) where
  pub length-init_loop :
      (left i : ℕ) (head : Option ℕ)
      → (length (init_loop buf buf_size left i head).freebs ≡ left)
        × (length (init_loop buf buf_size left i head).iovecs ≡ left)
  unfolding init_loop
  length-init_loop zero i head = (refl, refl)
  length-init_loop (suc left) i head =
      let rest = length-init_loop left (i + 1) (some i) in (ap suc rest.0, ap suc rest.1)

  -- The k-th entry that the loop writes from round i on.
  entry_of_loop :
      (left i : ℕ) (head : Option ℕ) (k : ℕ) (b : Freebuf)
      → get_elem? (init_loop buf buf_size left i head).freebs k ≡ some b
      → (k < left) × (b.bid ≡ (i + k) % 2 ^ 16) × (b.iov ≡ i + k)
  unfolding init_loop
  entry_of_loop zero i head k b e = cc
  entry_of_loop (suc left) i head zero b e = ground arith
  entry_of_loop (suc left) i head (suc k) b e =
      let rest = entry_of_loop left (i + 1) (some i) k b e in
      (omega arith, omega arith, omega arith)

  iovec_of_loop :
      (left i : ℕ) (head : Option ℕ) (k : ℕ) (v : Iovec)
      → get_elem? (init_loop buf buf_size left i head).iovecs k ≡ some v
      → (k < left) × (v.iov_base ≡ buf + (i + k) * buf_size % 2 ^ 64) × (v.iov_len ≡ buf_size)
  unfolding init_loop
  iovec_of_loop zero i head k v e = cc
  iovec_of_loop (suc left) i head zero v e = rw add-zero (ground arith)
  iovec_of_loop (suc left) i head (suc k) v e =
      let rest = iovec_of_loop left (i + 1) (some i) k v e in
      (
        omega arith,
        rest.1
            ∙ ap (λ m. buf + m * buf_size % 2 ^ 64) {x = i + 1 + k} {y = i + suc k} (omega arith),
        rest.2,
      )

  first_of_loop :
      (left i : ℕ) (head : Option ℕ) (b : Freebuf)
      → get_elem? (init_loop buf buf_size left i head).freebs 0 ≡ some b
      → b.next ≡ head
  unfolding init_loop
  first_of_loop zero i head b e = cc
  first_of_loop (suc left) i head b e = ground arith

  next_of_loop :
      (left i : ℕ) (head : Option ℕ) (k : ℕ) (b : Freebuf)
      → get_elem? (init_loop buf buf_size left i head).freebs (suc k) ≡ some b
      → b.next ≡ some (i + k)
  unfolding init_loop
  next_of_loop zero i head k b e = cc
  next_of_loop (suc zero) i head k b e = cc
  next_of_loop (suc (suc left)) i head zero b e = ground arith
  next_of_loop (suc (suc left)) i head (suc k) b e =
      next_of_loop (suc left) (i + 1) (some i) k b e
      ∙ ap some {x = i + 1 + k} {y = i + suc k} (omega arith)

  head_of_loop :
      (left i : ℕ) (head : Option ℕ)
      → (init_loop buf buf_size (suc left) i head).head ≡ some (i + left)
  unfolding init_loop
  head_of_loop zero i head = ap some {x = i} {y = i + 0} (omega arith)
  head_of_loop (suc left) i head =
      head_of_loop left (i + 1) (some i)
      ∙ ap some {x = i + 1 + left} {y = i + suc left} (omega arith)

-- The pointer to entry m - 1.
abbrev last_below : ℕ → Option ℕ
last_below zero = none
last_below (suc m) = some m

head_of_pool :
    (buf buf_size entries : ℕ)
    → (bufpool_of buf buf_size entries).freelist_head ≡ last_below entries
unfolding bufpool_of init_loop
head_of_pool buf buf_size zero = refl
head_of_pool buf buf_size (suc n) = head_of_loop buf buf_size n 0 none ∙ ap some (omega arith)

module _ (buf buf_size entries : ℕ) where
  abbrev pub pool : Bufpool
  pool = bufpool_of buf buf_size entries

  pub length-freelist_mem : length pool.freelist_mem ≡ entries
  unfolding bufpool_of
  length-freelist_mem = (length-init_loop buf buf_size entries 0 none).0

  pub length-iovecs : length pool.iovecs ≡ entries
  unfolding bufpool_of
  length-iovecs = (length-init_loop buf buf_size entries 0 none).1

  next_of_pool :
      (k : ℕ) (b : Freebuf) → get_elem? pool.freelist_mem k ≡ some b → b.next ≡ last_below k
  unfolding bufpool_of
  next_of_pool zero b e = first_of_loop buf buf_size entries 0 none b e
  next_of_pool (suc k) b e = next_of_loop buf buf_size entries 0 none k b e ∙ ap some (omega arith)

  Chain-countdown : (m : ℕ) → m ≤ entries → Chain pool.freelist_mem (last_below m) (countdown m)
  Chain-countdown zero h = refl
  Chain-countdown (suc m) h =
      let (b, e) = get_elem?-some pool.freelist_mem m (omega (arith, length-freelist_mem)) in
      (refl, b, e, rw (next_of_pool m b e) (Chain-countdown m (omega arith)))

  Numbered-pool : entries ≤ 2 ^ 16 → Numbered pool.freelist_mem
  unfolding bufpool_of
  Numbered-pool h i b e =
      let entry = entry_of_loop buf buf_size entries 0 none i b e in (omega arith, omega arith)

  -- With at most 2 ^ 16 buffers, `bufpool_init` builds a pool in which every buffer is free, the last
  -- one first, and each entry has the number and the `iovec` of its place.
  pub bufpool_of-IsPool : entries ≤ 2 ^ 16 → IsPool pool (countdown entries)
  bufpool_of-IsPool h = record {
    chain = rw (head_of_pool buf buf_size entries) (Chain-countdown entries (omega arith));
    distinct = Distinct-countdown entries;
    numbered = Numbered-pool h;
  }

  place_fits :
      (k : ℕ)
      → entries * buf_size < 2 ^ 64
      → k < entries
      → ((0 + k) * buf_size % 2 ^ 64 ≡ k * buf_size)
        × (k * buf_size + buf_size ≤ entries * buf_size)
  place_fits k fits h =
      let below : k * buf_size + buf_size ≤ entries * buf_size = grind arith in
      (omega (arith, ap (λ m. m * buf_size) (add.zero k)), below)

  -- The buffers lie one behind the other in the memory that `malloc` returned: none overlaps another
  -- or reaches past `entries * buf_size` bytes, provided that this product fits `size_t`.
  pub buffers_apart :
      (i j : ℕ) (v w : Iovec)
      → entries * buf_size < 2 ^ 64
      → get_elem? pool.iovecs i ≡ some v
      → get_elem? pool.iovecs j ≡ some w
      → i < j
      → (v.iov_base + v.iov_len ≤ w.iov_base) × (w.iov_base + w.iov_len ≤ buf + entries * buf_size)
  unfolding bufpool_of
  buffers_apart i j v w fits ev ew h =
      let a = iovec_of_loop buf buf_size entries 0 none i v ev in
      let b = iovec_of_loop buf buf_size entries 0 none j w ew in
      let (ea, la) = place_fits i fits a.0 in
      let (eb, lb) = place_fits j fits b.0 in
      let between : i * buf_size + buf_size ≤ j * buf_size = grind arith in
      (omega arith, omega arith)

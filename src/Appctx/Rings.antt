-- ===== src/Appctx/Rings.antt =====
-- The ring of buffers that `bufring_init` sets up.
use native.Mathlib.Numerals.{add-one}
use iouring_http_server.Prelude.{
  ℕ, zero, suc, ◌+◌, ◌*◌, ◌%◌, ◌^◌, ◌<◌, ◌≡◌, ◌≢◌, refl, ap, ◌∙◌, ◌∷◌, false, arith,
}
use iouring_http_server.Prelude.Int.{ℤ, neg, is_negative}
use iouring_http_server.Machine.{
  Env, World, History, BufringInitParams, ok, store_through, as_int, assert_positive, malloc,
  posix_memalign, register_buf_ring, buf_ring_init, buf_ring_add, buf_ring_advance,
}
use iouring_http_server.Appctx.{ring_bufs, add_loop, bufring_init}

-- Buffers 0 to k - 1 added in this order, each under its own number and at its own place.
abbrev pub adds : (br mask base entry_size : ℕ) → ℕ → History → History
adds br mask base entry_size zero h = h
adds br mask base entry_size (suc k) h =
    buf_ring_add br (base + k * entry_size) entry_size (k % 2 ^ 16) mask k
    ∷ adds br mask base entry_size k h

add_loop-adds :
    (br mask base entry_size left i : ℕ) (h : History) (w : World)
    → add_loop br mask
        (ring_bufs base entry_size left i)
        i
        (record w { history = adds br mask base entry_size i h })
      ≡ ok tt (record w { history = adds br mask base entry_size (i + left) h })
unfolding add_loop ring_bufs
add_loop-adds br mask base entry_size zero i h w =
    ap (λ k. ok tt (record w { history = adds br mask base entry_size k h })) {x = i} {y = i + 0}
      (omega arith)
add_loop-adds br mask base entry_size (suc left) i h w = rw add-one (
    add_loop-adds br mask base entry_size left (suc i) h w
    ∙ ap (λ k. ok tt (record w { history = adds br mask base entry_size k h })) {x = suc i + left}
        {y = i + suc left} (omega arith))

pub add_loop-adds_all :
    (br mask base entry_size entries : ℕ) (h : History) (w : World)
    → add_loop br mask (ring_bufs base entry_size entries 0) 0 (record w { history = h })
      ≡ ok tt (record w { history = adds br mask base entry_size entries h })
add_loop-adds_all br mask base entry_size entries h w =
    add_loop-adds br mask base entry_size entries 0 h w
    ∙ ap (λ k. ok tt (record w { history = adds br mask base entry_size k h })) {x = 0 + entries}
        {y = entries} (omega arith)

pub store_through-allocated :
    (address count : ℕ) (w : World) → address ≢ 0 → store_through address count w ≡ ok tt w
unfolding store_through
store_through-allocated address zero w room = refl
store_through-allocated address (suc count) w room = ground arith

pub as_int-fits : (n : ℕ) (w : World) → n < 2 ^ 31 → as_int n w ≡ ok n w
unfolding as_int
as_int-fits n w fits = ground arith

assert_positive-passes :
    (code : ℤ) (w : World) → is_negative code ≡ false → assert_positive code w ≡ ok tt w
unfolding assert_positive
assert_positive-passes code w holds = rw holds refl

module _ (env : Env) (params : BufringInitParams) (w : World) where
  open params use {entries, entry_size, bgid}

  abbrev pub allocated : History
  allocated =
      posix_memalign 4096 (entries * 16)
      ∷ malloc (entries * 16)
      ∷ malloc (entries * entry_size)
      ∷ w.history

  abbrev pub base : ℕ
  base = env.address (malloc (entries * entry_size) ∷ w.history)

  abbrev pub br : ℕ
  br = env.address allocated

  abbrev pub registered : History
  registered = register_buf_ring br entries bgid ∷ allocated

  abbrev pub ready : History
  ready =
      buf_ring_advance br entries
      ∷ adds br (env.ring_mask entries) base entry_size entries (buf_ring_init br ∷ registered)

  -- Where the size of the memory fits `int`, and the allocations and the registration succeed, `bufring_init` registers the ring, adds each of
  -- its buffers once, in order, under its own number and at its own place in the memory, makes all of
  -- them visible, and returns them.
  pub bufring_init_lem :
      entries * entry_size < 2 ^ 31
      → env.address (malloc (entries * 16) ∷ malloc (entries * entry_size) ∷ w.history) ≢ 0
      → is_negative (neg (env.status allocated)) ≡ false
      → is_negative (env.status registered) ≡ false
      → bufring_init env params w
        ≡ ok
            (record { br = br; bufs = ring_bufs base entry_size entries 0; params = params })
            (record w { history = ready })
  unfolding bufring_init
  bufring_init_lem fits room aligned accepted = rw (as_int-fits (entries * entry_size) w fits) (
      rw
        (assert_positive-passes (neg (env.status allocated)) (record w { history = allocated })
          aligned)
        (rw
          (assert_positive-passes (env.status registered) (record w { history = registered })
            accepted)
          (rw
            (store_through-allocated
              (env.address (malloc (entries * 16) ∷ malloc (entries * entry_size) ∷ w.history))
              entries (record w { history = buf_ring_init br ∷ registered }) room)
            (rw
              (add_loop-adds_all br (env.ring_mask entries) base entry_size entries
                (buf_ring_init br ∷ registered) w)
              refl))))

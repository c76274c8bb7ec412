-- ===== src/Pool/Ownership.antt =====
-- Who holds which buffer: the pool and its clients over any history of calls.
use iouring_http_server.Prelude.{
  ℕ, zero, suc, ◌+◌, ◌^◌, ◌<◌, ◌≤◌, ◌≡◌, ◌⊎◌, inl, inr, subst, ◌∙◌, ap, none, some, List, [], ◌∷◌,
  ◌++◌, arith, length, ltb, ◌==◌, if◌then◌else◌,
}
use iouring_http_server.Pool.{Bufpool, bufpool_of, bufpool_pop, bufpool_put}
use iouring_http_server.Pool.Chain.{NotIn, IsPool, pop_empty, pop_first, put_first}
use iouring_http_server.Pool.Init.{countdown, length-freelist_mem, length-iovecs, bufpool_of-IsPool}

-- How often a list of buffers names one.
abbrev pub times : (bid : ℕ) → List ℕ → ℕ
times bid [] = 0
times bid (x ∷ rest) = times bid rest + (if x == bid then 1 else 0)

pub times-append :
    (bid : ℕ) (before after : List ℕ)
    → times bid (before ++ after) ≡ times bid before + times bid after
times-append bid [] after = omega arith
times-append bid (x ∷ rest) after = omega (arith, times-append bid rest after)

NotIn-of-times : (a : ℕ) (xs : List ℕ) → times a xs ≡ 0 → NotIn a xs
NotIn-of-times a [] h = tt
NotIn-of-times a (x ∷ xs) h = (ground arith, NotIn-of-times a xs (ground arith))

-- The calls of the pool's clients, with the list of the buffers that they hold.
pub data Step : Bufpool × List ℕ → Bufpool × List ℕ → Type 0 where
  takes :
      (p q : Bufpool) (held : List ℕ) (x : ℕ)
      → bufpool_pop p ≡ some (some x, q)
      → Step (p, held) (q, x ∷ held)
  refused :
      (p q : Bufpool) (held : List ℕ) → bufpool_pop p ≡ some (none, q) → Step (p, held) (q, held)
  gives :
      (p q : Bufpool) (before after : List ℕ) (x : ℕ)
      → bufpool_put p x ≡ some q
      → Step (p, before ++ x ∷ after) (q, before ++ after)

pub data Reach (s : Bufpool × List ℕ) : Bufpool × List ℕ → Type 0 where
  here : Reach s s
  next : {t u : Bufpool × List ℕ} → Reach s t → Step t u → Reach s u

-- Each of the buffers below `n` is either free or held, once.
pub record Owned (n : ℕ) (p : Bufpool) (held : List ℕ) : Type 0 where
  pub free : List ℕ
  pub is_pool : IsPool p free
  pub once : (a : ℕ) → times a free + times a held ≡ (if ltb a n then 1 else 0)
  pub room : length p.freelist_mem ≡ n
  pub buffers : length p.iovecs ≡ n

times-countdown : (a n : ℕ) → times a (countdown n) ≡ (if ltb a n then 1 else 0)
times-countdown a zero = ground arith
times-countdown a (suc n) = ground (arith, times-countdown a n)

pub init-Owned : (buf buf_size n : ℕ) → n ≤ 2 ^ 16 → Owned n (bufpool_of buf buf_size n) []
init-Owned buf buf_size n h = record {
  free = countdown n;
  is_pool = bufpool_of-IsPool buf buf_size n h;
  once = λ a. omega (arith, times-countdown a n);
  room = length-freelist_mem buf buf_size n;
  buffers = length-iovecs buf buf_size n;
}

-- What `bufpool_pop` does for clients that hold `held`.
abbrev pub PopOwned : ℕ → Bufpool → List ℕ → Type 0
PopOwned n p held =
    ((bufpool_pop p ≡ some (none, p)) × ((a : ℕ) → times a held ≡ (if ltb a n then 1 else 0)))
    ⊎ ((x : ℕ) × (q : Bufpool) × (bufpool_pop p ≡ some (some x, q))
        × (x < n)
        × (times x held ≡ 0)
        × Owned n q (x ∷ held))

pop-cases :
    (n : ℕ) (p : Bufpool) (held free : List ℕ)
    → IsPool p free
    → ((a : ℕ) → times a free + times a held ≡ (if ltb a n then 1 else 0))
    → length p.freelist_mem ≡ n
    → length p.iovecs ≡ n
    → PopOwned n p held
pop-cases n p held [] v once room buffers = inl (pop_empty p v, λ a. omega (arith, once a))
pop-cases n p held (x ∷ xs) v once room buffers =
    let (q, e, w, same, same_bufs) = pop_first p x xs v in
    inr (
      x,
      q,
      e,
      ground (arith, once x),
      ground (arith, once x),
      record {
        free = xs;
        is_pool = w;
        once = λ a. omega (arith, once a);
        room = ap length same ∙ room;
        buffers = ap length same_bufs ∙ buffers;
      },
    )

-- With every buffer free or held, `bufpool_pop` never faults. It returns NULL only if the clients hold
-- all of the buffers; else it returns one that nobody holds, and every buffer is still free or held.
pub pop-Owned : (n : ℕ) (p : Bufpool) (held : List ℕ) → Owned n p held → PopOwned n p held
pop-Owned n p held v = pop-cases n p held v.free v.is_pool v.once v.room v.buffers

-- With every buffer free or held, one that is held can be put back without a fault, and every buffer
-- is then free or held by the other holders.
pub put-Owned :
    (n : ℕ) (p : Bufpool) (before after : List ℕ) (x : ℕ)
    → Owned n p (before ++ x ∷ after)
    → (q : Bufpool) × (bufpool_put p x ≡ some q) × Owned n q (before ++ after)
put-Owned n p before after x v =
    let held_once = times-append x before (x ∷ after) in
    let out : NotIn x v.free = NotIn-of-times x v.free (ground (arith, v.once x)) in
    let inside : x < length p.freelist_mem = ground (arith, v.once x, v.room) in
    let (q, e, w, same, same_bufs) = put_first p x v.free v.is_pool out inside in
    (
      q,
      e,
      record {
        free = x ∷ v.free;
        is_pool = w;
        once = λ a.
            omega (arith, v.once a, times-append a before (x ∷ after), times-append a before after);
        room = same ∙ v.room;
        buffers = ap length same_bufs ∙ v.buffers;
      },
    )

Step-Owned : (n : ℕ) {s t : Bufpool × List ℕ} → Step s t → Owned n s.0 s.1 → Owned n t.0 t.1
Step-Owned n (takes p q held x e) v = elim (pop-Owned n p held v) [
  | inl (e', _) ↦ cc
  | inr (y, r, e', _, _, w) ↦
      let same_x : y ≡ x = cc in
      let same_q : r ≡ q = cc in
      subst (λ z. Owned n q (z ∷ held)) same_x (subst (λ z. Owned n z (y ∷ held)) same_q w)
]
Step-Owned n (refused p q held e) v = elim (pop-Owned n p held v) [
  | inl (e', _) ↦ let same : p ≡ q = cc in subst (λ z. Owned n z held) same v
  | inr (y, r, e', _, _, w) ↦ cc
]
Step-Owned n (gives p q before after x e) v =
    let (r, e', w) = put-Owned n p before after x v in
    let same : r ≡ q = cc in subst (λ z. Owned n z (before ++ after)) same w

Reach-Owned : (n : ℕ) {s t : Bufpool × List ℕ} → Owned n s.0 s.1 → Reach s t → Owned n t.0 t.1
Reach-Owned n v here = v
Reach-Owned n v (next r st) = Step-Owned n st (Reach-Owned n v r)

-- Over any history of calls that starts with `bufpool_init` of at most 2 ^ 16 buffers, and in which
-- only held buffers are put back, each buffer is free or held by one client, and once.
pub init-Reach-Owned :
    (buf buf_size n : ℕ) (p : Bufpool) (held : List ℕ)
    → n ≤ 2 ^ 16
    → Reach (bufpool_of buf buf_size n, []) (p, held)
    → Owned n p held
init-Reach-Owned buf buf_size n p held h r = Reach-Owned n (init-Owned buf buf_size n h) r

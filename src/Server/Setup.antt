-- ===== src/Server/Setup.antt =====
-- The set-up of clib/appctx.c, as the start of cexe/main.c uses it: what each stage leaves.
use iouring_http_server.Prelude.{
  ℕ, zero, suc, ◌+◌, ◌*◌, ◌%◌, ◌^◌, ◌≤◌, ◌<◌, ◌≡◌, ◌≢◌, refl, ◌∙◌, ap, [], ◌∷◌, arith, true,
  Bool-cases, inl, inr, length, List, get_elem?, some,
}
use iouring_http_server.Prelude.Int.{neg, is_negative}
use iouring_http_server.Pool.{bufpool_of}
use iouring_http_server.Pool.Ownership.{Owned, init-Owned}
use iouring_http_server.Machine.{
  Env, World, History, Call, Bufring, Sqe, has_status, BufringInitParams, UringParams,
  assert_positive, assert_positive_call, malloc, register_buffers, posix_memalign,
  queue_init_params,
}
use iouring_http_server.Machine.Laws.{Ends, returns, aborts, Ends-bind}
use iouring_http_server.Appctx.{ring_bufs, bufring_init, bufpool_init, init_bufrings, appctx_init}
use iouring_http_server.Appctx.Rings.{
  adds, allocated, registered, bufring_init_lem, store_through-allocated, as_int-fits,
}
use iouring_http_server.Server.{bufrings_params}
use iouring_http_server.Server.Handover.{AllOwn, adds-AllOwn}
use iouring_http_server.Server.InFlight.{outstanding}
use iouring_http_server.Server.Loop.{HasConn}

-- Why the server may exit before its loop, as the world shows that it exits in: the last call,
-- of those whose result is tested, failed; it failed and the assertion made it once more; or `posix_memalign` gave a positive number.
pub data StartFailed (env : Env) (w : World) : Type 0 where
  failed :
      (c : Call) (h : History)
      → has_status c ≡ true
      → w.history ≡ c ∷ h
      → is_negative (env.status (c ∷ h)) ≡ true
      → StartFailed env w
  failed_twice :
      (c : Call) (h : History)
      → has_status c ≡ true
      → w.history ≡ c ∷ c ∷ h
      → is_negative (env.status (c ∷ h)) ≡ true
      → StartFailed env w
  unaligned :
      (alignment size : ℕ) (h : History)
      → w.history ≡ posix_memalign alignment size ∷ h
      → is_negative (neg (env.status (posix_memalign alignment size ∷ h))) ≡ true
      → StartFailed env w

-- `malloc` never gives NULL.
abbrev pub HasMemory : Env → Type 0
HasMemory env = (h : History) → env.address h ≢ 0

-- `io_uring_get_sqe` always finds a free entry.
abbrev pub HasRoom : Env → Type 0
HasRoom env = (h : History) → (sqe : Sqe) × (env.sqe h ≡ some sqe)

length-ring_bufs : (base entry_size left i : ℕ) → length (ring_bufs base entry_size left i) ≡ left
unfolding ring_bufs
length-ring_bufs base entry_size zero i = refl
length-ring_bufs base entry_size (suc left) i =
    ap suc (length-ring_bufs base entry_size left (i + 1))

module _ (env : Env) (memory : HasMemory env) where
  outstanding-adds :
      (br mask base entry_size entries : ℕ) (h : History)
      → outstanding env (adds br mask base entry_size entries h) ≡ outstanding env h
  unfolding outstanding
  outstanding-adds br mask base entry_size zero h = refl
  outstanding-adds br mask base entry_size (suc m) h = outstanding-adds br mask base entry_size m h

  -- A stage of the start that leaves the context and the writes as they are.
  abbrev pub Quiet : World → World → Type 0
  Quiet w w' = (w'.appctx ≡ w.appctx) × (outstanding env w'.history ≡ outstanding env w.history)

  -- A stage that hands buffers of one ring at most to the kernel, and each as what it is.
  abbrev pub Hands : Bufring → World → World → Type 0
  Hands ring w w' =
      (rings : List Bufring) (place : ℕ)
      → get_elem? rings place ≡ some ring
      → AllOwn env rings w.history
      → AllOwn env rings w'.history

  -- A stage that hands no buffer to the kernel.
  abbrev pub Withholds : World → World → Type 0
  Withholds w w' = (rings : List Bufring) → AllOwn env rings w.history → AllOwn env rings w'.history

  bufring_init-Ends :
      (params : BufringInitParams) (w : World)
      → params.entries * params.entry_size < 2 ^ 31
      → params.entries ≤ 2 ^ 16
      → Ends
          (λ ring w'. Quiet w w' × (length ring.bufs ≡ params.entries) × Hands ring w w')
          (StartFailed env)
          (bufring_init env params w)
  unfolding bufring_init assert_positive outstanding AllOwn
  bufring_init-Ends params w fits small =
      elim (Bool-cases (is_negative (neg (env.status (allocated env params w))))) [
        | inl bad ↦
            rw (as_int-fits (params.entries * params.entry_size) w fits)
              (rw bad (aborts (unaligned 4096 (params.entries * 16) _ refl bad)))
        | inr aligned ↦ elim (Bool-cases (is_negative (env.status (registered env params w)))) [
          | inl bad ↦
              rw (as_int-fits (params.entries * params.entry_size) w fits)
                (rw aligned (rw bad (aborts (failed _ _ refl refl bad))))
          | inr accepted ↦ rw (bufring_init_lem env params w fits (memory _) aligned accepted) (
              returns (
                (refl, outstanding-adds _ _ _ _ params.entries _),
                length-ring_bufs _ _ params.entries 0,
                λ rings place listed own.
                    adds-AllOwn env rings place _ _ params.entries _ listed refl small (omega arith)
                      own,
              ))
        ]
      ]

  bufpool_init-Ends :
      (buf_size entries : ℕ) (w : World)
      → entries ≤ 2 ^ 16
      → Ends
          (λ pool w'. Quiet w w' × Owned entries pool [] × Withholds w w')
          (StartFailed env)
          (bufpool_init env buf_size entries w)
  unfolding bufpool_init assert_positive outstanding AllOwn
  bufpool_init-Ends buf_size entries w small =
      let pool =
        bufpool_of (env.address (malloc (entries * buf_size % 2 ^ 64) ∷ w.history)) buf_size
          entries in
      let blocks : History =
        malloc (entries * 24 % 2 ^ 64)
        ∷ malloc (entries * 16 % 2 ^ 64)
        ∷ malloc (entries * buf_size % 2 ^ 64)
        ∷ w.history in
      rw
        (store_through-allocated _ entries (record w { history = blocks })
          (memory
            (malloc (entries * 16 % 2 ^ 64) ∷ malloc (entries * buf_size % 2 ^ 64) ∷ w.history)))
        (rw (store_through-allocated _ entries (record w { history = blocks }) (memory blocks))
          (elim (Bool-cases
            (is_negative (env.status (register_buffers pool.iovecs entries ∷ blocks)))) [
              | inl bad ↦ rw bad (aborts (failed _ _ refl refl bad))
              | inr fine ↦
                  rw fine
                    (returns ((refl, refl), init-Owned _ buf_size entries small, λ rings own. own))
            ]))

  pub assert_positive_call-Ends :
      (c : Call) (w : World)
      → has_status c ≡ true
      → outstanding env (c ∷ w.history) ≡ outstanding env w.history
      → Withholds w (record w { history = c ∷ w.history })
      → Ends
          (λ _ w'. Quiet w w' × Withholds w w')
          (StartFailed env)
          (assert_positive_call env.status c w)
  unfolding assert_positive_call
  assert_positive_call-Ends c w tested quiet withheld =
      elim (Bool-cases (is_negative (env.status (c ∷ w.history)))) [
        | inl bad ↦ rw bad (aborts (failed_twice c w.history tested refl bad))
        | inr fine ↦ rw fine (returns ((refl, quiet), withheld))
      ]

  Quiet-trans : (w w' w'' : World) → Quiet w w' → Quiet w' w'' → Quiet w w''
  Quiet-trans w w' w'' a b = (b.0 ∙ a.0, b.1 ∙ a.1)

  last_bufring-Ends :
      (params : BufringInitParams) (w : World)
      → params.entries * params.entry_size < 2 ^ 31
      → params.entries ≤ 2 ^ 16
      → Ends
          (λ rings w'. Quiet w w' × (ring : Bufring) × (rings ≡ ring ∷ []) × Hands ring w w')
          (StartFailed env)
          (init_bufrings env (params ∷ []) w)
  unfolding init_bufrings
  last_bufring-Ends params w fits small =
      Ends-bind (bufring_init-Ends params w fits small)
        λ ring w' (calm, size, hands). returns (calm, ring, refl, hands)

  init_bufrings-Ends :
      (w : World)
      → Ends
          (λ rings w'.
            Quiet w w'
            × HasConn 16 (record { bufpool = w.appctx.bufpool; bufrings = rings })
            × (AllOwn env rings w.history → AllOwn env rings w'.history))
          (StartFailed env)
          (init_bufrings env bufrings_params w)
  unfolding init_bufrings
  init_bufrings-Ends w =
      Ends-bind
        (bufring_init-Ends (record { entries = 16; entry_size = 1024; bgid = 0 }) w (omega arith)
          (omega arith))
        λ ring w1 (calm, size, hands).
          Ends-bind
            (last_bufring-Ends (record { entries = 16; entry_size = 512; bgid = 1 }) w1
              (omega arith) (omega arith))
            λ rings w2 (calm', other, only, hands'). returns (
              Quiet-trans w w1 w2 calm calm',
              (ring, refl, size),
              λ own. hands' (ring ∷ rings) 1 (rw only refl) (hands (ring ∷ rings) 0 refl own),
            )

  pub appctx_init-Ends :
      (params : UringParams) (w : World)
      → Ends
          (λ self w'.
            Quiet w w'
            × Owned 16 self.bufpool []
            × HasConn 16 self
            × (AllOwn env self.bufrings w.history → AllOwn env self.bufrings w'.history))
          (StartFailed env)
          (appctx_init env params bufrings_params 16 w)
  unfolding appctx_init outstanding AllOwn
  appctx_init-Ends params w =
      Ends-bind
        (assert_positive_call-Ends (queue_init_params 16 params) w refl refl (λ rings own. own))
        λ u w1 (queue, withheld).
          Ends-bind (bufpool_init-Ends 256 16 w1 (omega arith)) λ pool w2 (made, owned, withheld').
            let blocks : History = malloc (2 * 24) ∷ w2.history in
            rw
              (store_through-allocated (env.address blocks) 2 (record w2 { history = blocks })
                (memory blocks))
              (Ends-bind (init_bufrings-Ends (record w2 { history = blocks }))
                λ rings w3 (rest, conn, handed). returns (
                  Quiet-trans w w1 w3 queue (Quiet-trans w1 w2 w3 made rest),
                  owned,
                  conn,
                  λ own. handed (withheld' rings (withheld rings own)),
                ))

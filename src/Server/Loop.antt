-- ===== src/Server/Loop.antt =====
-- The event loop of cexe/main.c with a kernel that keeps to what it was asked.
use iouring_http_server.Prelude.{
  ℕ, ◌⊎◌, zero, suc, ◌/◌, ◌%◌, ◌^◌, ◌<◌, ◌≡◌, ◌≢◌, refl, sym, subst, none, some, ◌∷◌, arith, true,
  false, Bool-cases, inl, inr, get_elem?, get_elem?-some, length,
}
use native.Mathlib.Decide.{ℕ_discrete}
use iouring_http_server.Prelude.Int.{ℤ, pos, negsuc, neg, is_negative}
use iouring_http_server.Userdata.{op_recvmsg, op_write_fixed, opcode_value, userdata_decode}
use iouring_http_server.Pool.{Iovec, bufpool_pop}
use iouring_http_server.Pool.Ownership.{Owned, times}
use iouring_http_server.Machine.{
  Call, has_status, getpeername, History, Sqe, Env, World, Appctx, Bufring, Cqe, get_sqe, wait_cqe,
  submit, cqe_seen, recvmsg_validate,
}
use iouring_http_server.Machine.Laws.{Ends, returns, aborts, Ends-bind, Ends-weaken}
use iouring_http_server.Logging.{format_inet_addr_from_sockfd}
use iouring_http_server.Appctx.{
  bufrings_conn, conn_buffer, ioring_cqe_buffer_shift, appctx_handle_accept, appctx_handle_recvmsg,
}
use iouring_http_server.Appctx.Accept.{watching, appctx_handle_accept-Ends}
use iouring_http_server.Appctx.Receive.{appctx_handle_recvmsg-Ends}
use iouring_http_server.Server.{handle_completion, event_round, run_event_loop}
use iouring_http_server.Pool.Removed.{removed-split}
use iouring_http_server.Server.Handover.{AllOwn}
use iouring_http_server.Server.InFlight.{outstanding, settled, settled-other}
use iouring_http_server.Server.Buffers.{handle_completion-put, handle_completion-other}

-- Each ring that the loop uses has its buffers: `k` of them in the ring of the connections.
abbrev pub HasConn : ℕ → Appctx → Type 0
HasConn k self =
    (ring : Bufring) × (get_elem? self.bufrings bufrings_conn ≡ some ring) × (length ring.bufs ≡ k)

-- Each of the `n` log buffers is free, or in a write that has not completed; the connections have a
-- ring of `k` buffers.
abbrev pub Kept : Env → ℕ → ℕ → World → Type 0
Kept env n k w = Owned n w.appctx.bufpool (outstanding env w.history) × HasConn k w.appctx

-- Why the server may exit, as the world shows that it exits in: the last call failed; it is
-- `getpeername` and gave a positive number; it is the wait, and its completion carries an error; it is
-- the test of a packet, which is malformed; or the pool of log buffers is empty.
pub data Stopped (env : Env) (w : World) : Type 0 where
  failed :
      (c : Call) (h : History)
      → has_status c ≡ true
      → w.history ≡ c ∷ h
      → is_negative (env.status (c ∷ h)) ≡ true
      → Stopped env w
  nameless :
      (fd : ℤ) (h : History)
      → w.history ≡ getpeername fd ∷ h
      → is_negative (neg (env.status (getpeername fd ∷ h))) ≡ true
      → Stopped env w
  refused :
      (h : History)
      → w.history ≡ wait_cqe ∷ h
      → is_negative (env.cqe (wait_cqe ∷ h)).res ≡ true
      → Stopped env w
  malformed :
      (addr : ℕ) (len : ℤ) (h : History)
      → w.history ≡ recvmsg_validate addr len ∷ h
      → env.valid (recvmsg_validate addr len ∷ h) ≡ false
      → Stopped env w
  exhausted : bufpool_pop w.appctx.bufpool ≡ some (none, w.appctx.bufpool) → Stopped env w

-- `io_uring_get_sqe` always finds a free entry. Of the completions that the kernel hands over, one
-- with OP_WRITE_FIXED names a buffer whose write is outstanding, and one with OP_RECVMSG names a
-- buffer below `k`. `getpeername` does not fail.
pub record Honest (env : Env) (k : ℕ) : Type 0 where
  pub named : (fd : ℤ) (h : History) → is_negative (env.status (getpeername fd ∷ h)) ≡ false
  pub room : (h : History) → (sqe : Sqe) × (env.sqe h ≡ some sqe)
  pub written :
      (h : History)
      → (userdata_decode (env.cqe (wait_cqe ∷ h)).user_data).op ≡ opcode_value op_write_fixed
      → times ((userdata_decode (env.cqe (wait_cqe ∷ h)).user_data).fd % 2 ^ 16) (outstanding env h)
        ≢ 0
  pub received :
      (h : History)
      → (userdata_decode (env.cqe (wait_cqe ∷ h)).user_data).op ≡ opcode_value op_recvmsg
      → (env.cqe (wait_cqe ∷ h)).flags / 2 ^ ioring_cqe_buffer_shift < k

conn_buffer-HasConn :
    (k : ℕ) (self : Appctx) (bid : ℕ)
    → HasConn k self
    → bid < k
    → (ring : Bufring) × (iov : Iovec) × (conn_buffer self bid ≡ some (ring, iov))
      × (get_elem? self.bufrings bufrings_conn ≡ some ring)
      × (get_elem? ring.bufs bid ≡ some iov)
unfolding conn_buffer
conn_buffer-HasConn k self bid (ring, e, size) h =
    let (iov, f) = get_elem?-some ring.bufs bid (omega arith) in
    (ring, iov, rw (e, conn_buffer) (rw (f, conn_buffer) refl), e, f)

pub HasConn-eq :
    (k : ℕ) (self other : Appctx)
    → other.bufrings ≡ self.bufrings
    → HasConn k self
    → HasConn k other
HasConn-eq k self other e (ring, f, size) =
    (ring, subst (λ bs. get_elem? bs bufrings_conn ≡ some ring) (sym e) f, size)

pub zero_status : (z : ℤ) → is_negative z ≡ false → is_negative (neg z) ≡ false → z ≡ pos 0
zero_status (pos zero) a b = refl
zero_status (pos (suc m)) a b = cc
zero_status (negsuc m) a b = cc

-- From one world to a later one, every buffer that is handed to a ring is one of its own.
abbrev pub Handed : Env → World → World → Type 0
Handed env w w' = AllOwn env w.appctx.bufrings w.history → AllOwn env w'.appctx.bufrings w'.history

module _ (env : Env) (n k : ℕ) (honest : Honest env k) where
  -- The world in which a round handles its completion, and the completion.
  abbrev pub awaited : World → World
  awaited w = record w { history = wait_cqe ∷ w.history }

  abbrev pub next_cqe : World → Cqe
  next_cqe w = env.cqe (wait_cqe ∷ w.history)

  -- Logging exits only for want of a buffer, since there is an entry.
  empty_pool :
      {A : Type 0} (w : World)
      → ((bufpool_pop w.appctx.bufpool ≡ some (none, w.appctx.bufpool)) × A)
        ⊎ (env.sqe w.history ≡ none)
      → Stopped env w
  empty_pool w (inl (e, _)) = exhausted e
  empty_pool w (inr e) = let (sqe, e') = honest.room w.history in cc

  accept-Kept :
      (w : World) (res : ℤ)
      → (next_cqe w).res ≡ res
      → Kept env n k (awaited w)
      → Ends
          (λ _ w'. Kept env n k w' × Handed env w w')
          (Stopped env)
          (appctx_handle_accept env (next_cqe w) (awaited w))
  unfolding appctx_handle_accept format_inet_addr_from_sockfd outstanding AllOwn
  accept-Kept w (negsuc m) e v = rw e (aborts (refused w.history refl (rw e refl)))
  accept-Kept w (pos fd) e v =
      let (sqe, free) = honest.room (get_sqe ∷ wait_cqe ∷ w.history) in
      let named = honest.named (pos fd) in
      elim (Bool-cases (is_negative (neg (env.status (watching env fd (awaited w) sqe))))) [
        | inl bad ↦ rw (e, free, bad) (aborts (nameless (pos fd) _ refl bad))
        | inr fine ↦
            Ends-weaken
              (appctx_handle_accept-Ends env fd (awaited w) n
                (outstanding env (wait_cqe ∷ w.history)) sqe (next_cqe w) v.0 e free
                (zero_status _ (named _) fine))
              (λ u w' l. (
                (rw l.calls l.owned, HasConn-eq k w.appctx w'.appctx l.same_rings v.1),
                λ own. rw (l.calls, l.same_rings) own,
              ))
              (λ w' q. empty_pool w' q)
      ]

  receive-Kept :
      (w : World) (res : ℤ)
      → (next_cqe w).res ≡ res
      → Kept env n k (awaited w)
      → (next_cqe w).flags / 2 ^ ioring_cqe_buffer_shift < k
      → Ends
          (λ _ w'. Kept env n k w' × Handed env w w')
          (Stopped env)
          (appctx_handle_recvmsg env (next_cqe w) (awaited w))
  unfolding appctx_handle_recvmsg outstanding AllOwn
  receive-Kept w (negsuc m) e v below = rw e (aborts (refused w.history refl (rw e refl)))
  receive-Kept w (pos len) e v below =
      let (ring, iov, found, listed, numbered) = conn_buffer-HasConn k w.appctx _ v.1 below in
      elim (Bool-cases
        (env.valid (recvmsg_validate iov.iov_base (pos len) ∷ wait_cqe ∷ w.history))) [
          | inl valid ↦
              Ends-weaken
                (appctx_handle_recvmsg-Ends env (next_cqe w) len ring iov (awaited w) n
                  (outstanding env (wait_cqe ∷ w.history)) v.0 e found valid honest.room)
                (λ u w' a. (
                  (
                    rw a.result (rw a.logged.calls a.logged.owned),
                    rw a.result (HasConn-eq k w.appctx a.before.appctx a.logged.same_rings v.1),
                  ),
                  λ own. rw a.result (
                      rw (a.logged.calls, a.logged.same_rings)
                        (
                          record {
                            place = bufrings_conn;
                            ring = ring;
                            iov = iov;
                            listed = listed;
                            same_ring = refl;
                            numbered = numbered;
                            address = refl;
                            size = refl;
                            masked = refl;
                          },
                          subst (λ R. AllOwn env R w.history) (sym a.logged.same_rings) own,
                        )),
                ))
                (λ w' q. empty_pool w' q)
          | inr bad ↦ rw (e, found, bad) (aborts (malformed iov.iov_base (pos len) _ refl bad))
        ]

  -- The completion of a write, and then any other.
  write-Kept :
      (w : World)
      → Kept env n k w
      → (userdata_decode (next_cqe w).user_data).op ≡ opcode_value op_write_fixed
      → Ends
          (λ _ w'. Kept env n k w' × Handed env w w')
          (Stopped env)
          (handle_completion env (next_cqe w) (awaited w))
  unfolding outstanding settled AllOwn
  write-Kept w v write =
      let (before, after, whole, rest) =
        removed-split _ (outstanding env w.history) (honest.written w.history write) in
      Ends-weaken
        (handle_completion-put env (awaited w) n before after (next_cqe w)
          (subst (Owned n w.appctx.bufpool) whole v.0) write)
        (λ u w' r. (
          (rw r.3 (rw write (rw rest r.0)), HasConn-eq k w.appctx w'.appctx r.1 v.1),
          λ own. rw (r.1, r.3) own,
        ))
        (λ w' q. absurd q)

  completion-Kept :
      (w : World)
      → Kept env n k w
      → Ends
          (λ _ w'. Kept env n k w' × Handed env w w')
          (Stopped env)
          (handle_completion env (next_cqe w) (awaited w))
  unfolding outstanding handle_completion AllOwn
  completion-Kept w v = elim (ℕ_discrete (userdata_decode (next_cqe w).user_data).op 5) [
    | yes write ↦ write-Kept w v write
    | no not_write ↦
        let same = settled-other (next_cqe w) (outstanding env w.history) not_write in
        let kept : Kept env n k (awaited w) = (rw same v.0, v.1) in
        elim (ℕ_discrete (userdata_decode (next_cqe w).user_data).op 2) [
          | yes accept ↦ rw accept (accept-Kept w _ refl kept)
          | no not_accept ↦ elim (ℕ_discrete (userdata_decode (next_cqe w).user_data).op 3) [
            | yes receive ↦
                rw receive (receive-Kept w _ refl kept (honest.received w.history receive))
            | no not_receive ↦
                rw
                  (handle_completion-other env (awaited w) (next_cqe w) not_write not_accept
                    not_receive)
                  (returns (kept, λ own. own))
          ]
        ]
  ]

  -- With an honest kernel, where each of the `n` log buffers is free or in a write that has not
  -- completed, and the connections have a ring of `k` buffers: one round of the loop never meets
  -- undefined behaviour, exits only for a reason that `Stopped` lists, and else leaves this so; and
  -- every buffer that it hands to a ring is one of the ring's own.
  pub event_round-Kept :
      (w : World)
      → Kept env n k w
      → Ends (λ _ w'. Kept env n k w' × Handed env w w') (Stopped env) (event_round env w)
  unfolding event_round outstanding AllOwn
  event_round-Kept w v = elim (Bool-cases (is_negative (env.status (awaited w).history))) [
    | inl bad ↦ rw bad (aborts (failed _ _ refl refl bad))
    | inr fine ↦ rw fine (
        Ends-bind (completion-Kept w v) λ u w' kept.
          elim (Bool-cases (is_negative (env.status (submit ∷ cqe_seen ∷ w'.history)))) [
            | inl bad ↦ rw bad (aborts (failed _ _ refl refl bad))
            | inr good ↦ rw good (returns kept)
          ])
  ]

  -- With an honest kernel, where each of the `n` log buffers is free or in a write that has not
  -- completed, and the connections have a ring of `k` buffers: however many rounds the loop runs, it
  -- never meets undefined behaviour, exits only for a reason that `Stopped` lists, and else leaves
  -- this so.
  pub run_event_loop-Kept :
      (rounds : ℕ) (w : World)
      → Kept env n k w
      → Ends (λ _ w'. Kept env n k w') (Stopped env) (run_event_loop env rounds w)
  unfolding run_event_loop
  run_event_loop-Kept zero w v = returns v
  run_event_loop-Kept (suc rounds) w v =
      Ends-bind (event_round-Kept w v) λ u w' (kept, handed). run_event_loop-Kept rounds w' kept

  pub run_event_loop-AllOwn :
      (rounds : ℕ) (w : World)
      → Kept env n k w
      → AllOwn env w.appctx.bufrings w.history
      → Ends
          (λ _ w'. AllOwn env w'.appctx.bufrings w'.history)
          (Stopped env)
          (run_event_loop env rounds w)
  unfolding run_event_loop
  run_event_loop-AllOwn zero w v own = returns own
  run_event_loop-AllOwn (suc rounds) w v own =
      Ends-bind (event_round-Kept w v)
        λ u w' (kept, handed). run_event_loop-AllOwn rounds w' kept (handed own)

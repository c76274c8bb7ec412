-- ===== src/Server/Start.antt =====
-- The start of cexe/main.c: from nothing to the state that the event loop keeps, and the whole program.
use iouring_http_server.Prelude.{
  true, false, ℕ, suc, ◌<◌, length, arith, ◌≡◌, refl, ◌∙◌, ap, [], ◌∷◌, Bool-cases, inl, inr, ◌⊎◌,
}
use iouring_http_server.Prelude.Int.{neg, is_negative}
use iouring_http_server.Pool.Removed.{length-of_times}
use iouring_http_server.Machine.{
  Text, Env, World, History, Call, has_status, assert_positive, assert_positive_call, M, ◌>>=◌,
  ◌>>◌, ask, submit, get_sqe, socket, setsockopt, bind, listen, ok, posix_memalign,
}
use iouring_http_server.Machine.Laws.{Ends, returns, aborts, Ends-bind, Ends-weaken, Ends-returns}
use iouring_http_server.Logging.{
  LogLevel, log_level_debug, log_level_info, log_level_warn, log_level_error, log_event,
}
use iouring_http_server.Logging.Format.{codes}
use iouring_http_server.Logging.Event.{log_event-Ends}
use iouring_http_server.Server.{max_connections, server_params, start, main}
use iouring_http_server.Server.Handover.{AllOwn}
use iouring_http_server.Server.InFlight.{outstanding}
use iouring_http_server.Server.Loop.{
  HasConn-eq, Kept, Honest, Stopped, run_event_loop-Kept, run_event_loop-AllOwn,
}
use iouring_http_server.Server.Setup.{
  StartFailed, failed, failed_twice, unaligned, HasMemory, HasRoom, Withholds,
  assert_positive_call-Ends, appctx_init-Ends,
}

-- The four lines that the start logs, and the submission.
abbrev pub greetings : Env → M (Unit {0})
greetings env = do
  log_event env log_level_debug (codes "Server starting 1...")
  log_event env log_level_info (codes "Server starting 2...")
  log_event env log_level_warn (codes "Server starting 3...")
  log_event env log_level_error (codes "Server starting 4...")
  res ← ask submit env.status
  assert_positive res

module _ (env : Env) (memory : HasMemory env) (room : HasRoom env) where
  -- What the loop keeps, with so many log lines in a write and only a ring's own buffers handed to it.
  abbrev Logs : ℕ → World → Type 0
  Logs m w =
      Kept env 16 16 w
      × (length (outstanding env w.history) ≡ m)
      × AllOwn env w.appctx.bufrings w.history

  log_event-Logs :
      (m : ℕ) (level : LogLevel) (text : Text) (w : World)
      → m < 16
      → Logs m w
      → Ends (λ _ w'. Logs (suc m) w') (StartFailed env) (log_event env level text w)
  unfolding outstanding AllOwn
  log_event-Logs m level text w few (v, size, own) =
      Ends-weaken (log_event-Ends env level text w 16 (outstanding env w.history) v.0)
        (λ u w' l. (
          (rw l.calls l.owned, HasConn-eq 16 w.appctx w'.appctx l.same_rings v.1),
          rw l.calls (ap suc size),
          rw (l.calls, l.same_rings) own,
        ))
        (λ w' q. elim q [
          | inl full ↦
              let all : length (outstanding env w.history) ≡ 16 = length-of_times 16 _ full.1 in
              absurd (omega arith)
          | inr none_left ↦ let (sqe, e) = room w'.history in cc
        ])

  call-Logs :
      (m : ℕ) (c : Call) (w : World)
      → has_status c ≡ true
      → outstanding env (c ∷ w.history) ≡ outstanding env w.history
      → Withholds env memory w (record w { history = c ∷ w.history })
      → Logs m w
      → Ends (λ _ w'. Logs m w') (StartFailed env) (assert_positive_call env.status c w)
  call-Logs m c w tested quiet withheld (v, size, own) =
      Ends-weaken (assert_positive_call-Ends env memory c w tested quiet withheld)
        (λ u w' ((same, writes), withheld').
          (rw same (rw writes v), rw writes size, rw same (withheld' w.appctx.bufrings own)))
        (λ w' q. q)

  greetings-Logs :
      (w : World) → Logs 0 w → Ends (λ _ w'. Logs 4 w') (StartFailed env) (greetings env w)
  unfolding assert_positive outstanding AllOwn
  greetings-Logs w v = Ends-bind (log_event-Logs 0 log_level_debug _ w (omega arith) v) λ _ w1 v1.
      Ends-bind (log_event-Logs 1 log_level_info _ w1 (omega arith) v1) λ _ w2 v2.
        Ends-bind (log_event-Logs 2 log_level_warn _ w2 (omega arith) v2) λ _ w3 v3.
          Ends-bind (log_event-Logs 3 log_level_error _ w3 (omega arith) v3) λ _ w4 v4.
            elim (Bool-cases (is_negative (env.status (submit ∷ w4.history)))) [
              | inl bad ↦ rw bad (aborts (failed _ _ refl refl bad))
              | inr fine ↦ rw fine (returns v4)
            ]

  -- What `main` does before the loop, from the first call of the program on, where `malloc` always
  -- gives memory and `io_uring_get_sqe` a free entry: it never meets undefined behaviour, it exits only
  -- for a reason that `StartFailed` lists, and else leaves each of the sixteen log buffers free or in
  -- a write that has not completed, four of them in a write, and a ring of sixteen buffers for the
  -- connections. Every buffer that it hands to a ring is one of the ring's own.
  pub start-Kept :
      (w : World)
      → w.history ≡ []
      → Ends
          (λ _ w'.
            Kept env 16 16 w'
            × (length (outstanding env w'.history) ≡ 4)
            × AllOwn env w'.appctx.bufrings w'.history)
          (StartFailed env)
          (start env w)
  unfolding start outstanding AllOwn
  start-Kept w fresh =
      Ends-bind (appctx_init-Ends env memory server_params w)
        λ self w1 (quiet, owned, conn, handed).
          let none_yet : outstanding env w1.history ≡ [] = quiet.1 ∙ ap (outstanding env) fresh in
          let begun : World = record w1 { appctx = self; history = socket ∷ w1.history } in
          let fd = env.status begun.history in
          let own : AllOwn env self.bufrings w.history = rw fresh tt in
          let v : Logs 0 begun = ((rw none_yet owned, conn), ap length none_yet, handed own) in
          elim (Bool-cases (is_negative fd)) [
            | inl bad ↦ rw bad (aborts (failed _ _ refl refl bad))
            | inr fine ↦ rw fine (
                Ends-bind (call-Logs 0 (setsockopt fd) begun refl refl (λ rings own. own) v)
                  λ _ w2 v2.
                    Ends-bind (call-Logs 0 (bind fd 3000) w2 refl refl (λ rings own. own) v2)
                      λ _ w3 v3.
                        Ends-bind
                          (call-Logs 0 (listen fd max_connections) w3 refl refl (λ rings own. own)
                            v3)
                          λ _ w4 v4.
                            let (sqe, e) = room (get_sqe ∷ w4.history) in
                            rw e (greetings-Logs _ v4))
          ]

  -- Where `malloc` always gives memory, `io_uring_get_sqe` a free entry, and no call fails, the start
  -- comes to its end: it returns, with the four lines that it logs in a write, and each of the other log buffers free.
  pub start-returns :
      (w : World)
      → w.history ≡ []
      → ((h : History) → is_negative (env.status h) ≡ false)
      → ((alignment size : ℕ) (h : History)
          → is_negative (neg (env.status (posix_memalign alignment size ∷ h))) ≡ false)
      → (w' : World) × (start env w ≡ ok tt w')
        × Kept env 16 16 w'
        × (length (outstanding env w'.history) ≡ 4)
  start-returns w fresh succeed aligned =
      let (u, w', e, logs) = Ends-returns (start-Kept w fresh) (λ w' q. elim q [
        | failed c h tested e bad ↦ cc (succeed (c ∷ h))
        | failed_twice c h tested e bad ↦ cc (succeed (c ∷ h))
        | unaligned alignment size h e bad ↦ cc (aligned alignment size h)
      ]) in
      (w', e, logs.0, logs.1)

module _ (env : Env) (memory : HasMemory env) (honest : Honest env 16) where
  -- The whole program, from its first call on, never meets undefined behaviour, however many rounds
  -- the loop runs, where `malloc` always gives memory and the kernel is honest. It exits only for a
  -- reason that `StartFailed` or `Stopped` lists; else, after those rounds, each of the sixteen log
  -- buffers is free or in a write that has not completed, and the connections have their ring of
  -- sixteen buffers.
  pub main-Kept :
      (rounds : ℕ) (w : World)
      → w.history ≡ []
      → Ends
          (λ _ w'. Kept env 16 16 w')
          (λ w'. StartFailed env w' ⊎ Stopped env w')
          (main env rounds w)
  unfolding main
  main-Kept rounds w fresh =
      Ends-bind
        (Ends-weaken (start-Kept env memory honest.room w fresh) (λ u w' v. v.0) (λ w' q. inl q))
        λ u w' v.
          Ends-weaken (run_event_loop-Kept env 16 16 honest rounds w' v) (λ u' w'' v'. v')
            (λ w'' q. inr q)

  -- Under the same conditions, every buffer that the program hands to a ring is one of the ring's own.
  pub main-AllOwn :
      (rounds : ℕ) (w : World)
      → w.history ≡ []
      → Ends
          (λ _ w'. AllOwn env w'.appctx.bufrings w'.history)
          (λ w'. StartFailed env w' ⊎ Stopped env w')
          (main env rounds w)
  unfolding main
  main-AllOwn rounds w fresh =
      Ends-bind
        (Ends-weaken (start-Kept env memory honest.room w fresh) (λ u w' v. v) (λ w' q. inl q))
        λ u w' v.
          Ends-weaken (run_event_loop-AllOwn env 16 16 honest rounds w' v.0 v.2) (λ u' w'' v'. v')
            (λ w'' q. inr q)

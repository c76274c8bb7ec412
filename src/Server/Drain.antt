-- ===== src/Server/Drain.antt =====
-- Progress of the event loop of cexe/main.c with a kernel that does nothing but complete the writes of
-- log lines.
use iouring_http_server.Prelude.{
  ℕ, zero, suc, ◌%◌, ◌^◌, ◌≡◌, ◌≢◌, refl, subst, ap, [], List, ◌∷◌, ◌++◌, length, length-append,
  arith, false,
}
use iouring_http_server.Prelude.Int.{is_negative}
use iouring_http_server.Userdata.{op_write_fixed, opcode_value, userdata_decode}
use iouring_http_server.Pool.Ownership.{Owned}
use iouring_http_server.Pool.Removed.{removed-split}
use iouring_http_server.Machine.{Env, World, History, ok, wait_cqe, submit, cqe_seen}
use iouring_http_server.Machine.Laws.{Ends, returns, Ends-bind, Ends-returns}
use iouring_http_server.Server.{event_round, run_event_loop}
use iouring_http_server.Server.InFlight.{outstanding, settled}
use iouring_http_server.Server.Buffers.{handle_completion-put}
use iouring_http_server.Server.Loop.{Kept, Honest, HasConn-eq}

-- While a write is outstanding, the next completion is that of a write.
abbrev pub Completes : Env → ℕ → ℕ → Type 0
Completes env n k =
    (w : World)
    → Kept env n k w
    → outstanding env w.history ≢ []
    → (userdata_decode (env.cqe (wait_cqe ∷ w.history)).user_data).op ≡ opcode_value op_write_fixed

length-zero : (xs : List ℕ) → length xs ≡ 0 → xs ≡ []
length-zero [] e = refl
length-zero (x ∷ xs) e = absurd (omega arith)

module _ (env : Env) (n k : ℕ) (honest : Honest env k)
    (succeed : (h : History) → is_negative (env.status h) ≡ false) where
  -- A round that takes the completion of a write ends one write, and does not exit.
  write_round :
      (w : World)
      → Kept env n k w
      → (userdata_decode (env.cqe (wait_cqe ∷ w.history)).user_data).op
        ≡ opcode_value op_write_fixed
      → Ends
          (λ _ w'.
            Kept env n k w'
            × (length (outstanding env w.history) ≡ suc (length (outstanding env w'.history))))
          (λ _. ⊥)
          (event_round env w)
  unfolding event_round outstanding settled
  write_round w v write =
      let (before, after, whole, rest) =
        removed-split _ (outstanding env w.history) (honest.written w.history write) in
      rw (succeed (wait_cqe ∷ w.history)) (
        Ends-bind
          (handle_completion-put env (record w { history = wait_cqe ∷ w.history }) n before after
            (env.cqe (wait_cqe ∷ w.history)) (subst (Owned n w.appctx.bufpool) whole v.0) write)
          λ u w' r.
            let left : outstanding env w'.history ≡ before ++ after = rw r.3 (rw write rest) in
            rw (succeed (submit ∷ cqe_seen ∷ w'.history)) (
              returns (
                (rw left r.0, HasConn-eq k w.appctx w'.appctx r.1 v.1),
                rw left (
                    omega (
                      arith,
                      ap length whole,
                      length-append before after,
                      length-append before (
                          (userdata_decode (env.cqe (wait_cqe ∷ w.history)).user_data).fd % 2 ^ 16
                          ∷ after),
                    )),
              )))

  drain_loop :
      (m : ℕ) (w : World)
      → Completes env n k
      → Kept env n k w
      → length (outstanding env w.history) ≡ m
      → Ends
          (λ _ w'. Kept env n k w' × (length (outstanding env w'.history) ≡ 0))
          (λ _. ⊥)
          (run_event_loop env m w)
  unfolding run_event_loop
  drain_loop zero w completes v size = returns (v, size)
  drain_loop (suc m) w completes v size =
      let some_left : outstanding env w.history ≢ [] = λ e. absurd (omega (arith, ap length e)) in
      Ends-bind (write_round w v (completes w v some_left))
        λ u w' (v', fewer). drain_loop m w' completes v' (omega arith)

  -- With an honest kernel, no failing call, and completions of writes alone while a write is
  -- outstanding: after as many rounds as there are writes outstanding the loop is running still, and
  -- each of the `n` log buffers is free.
  pub run_event_loop-drains :
      (w : World)
      → Completes env n k
      → Kept env n k w
      → (w' : World) × (run_event_loop env (length (outstanding env w.history)) w ≡ ok tt w')
        × Owned n w'.appctx.bufpool []
  run_event_loop-drains w completes v =
      let (u, w', e, (kept, none_left)) =
        Ends-returns (drain_loop _ w completes v refl) (λ w' q. q) in
      (w', e, subst (Owned n w'.appctx.bufpool) (length-zero _ none_left) kept.0)

-- ===== src/Server/Rounds.antt =====
-- Rules on the order of the calls of cexe/main.c, carried through the start and the rounds of the loop.
use iouring_http_server.Prelude.{
  ℕ, zero, suc, ◌≡◌, true, false, arith, ◌∷◌, ◌==◌, refl, Option-cases, inl, inr,
}
use iouring_http_server.Userdata.{userdata_decode}
use iouring_http_server.Pool.{bufpool_put}
use iouring_http_server.Machine.{
  History, Env, World, Cqe, wait_cqe, cqe_seen, submit, get_sqe, socket, setsockopt, bind, listen,
}
use iouring_http_server.Machine.Leaves.{
  Leaves, Leaves-if, Leaves-last_assertion, returned, exited, broken, Leaves-bind,
  Leaves-assert_positive, Leaves-assert_positive_call,
}
use iouring_http_server.Appctx.Orderly.{Rule, Recycles, Receives, Sends}
use iouring_http_server.Appctx.Keeps.{
  Holds, log_event-Holds, appctx_handle_accept-Holds, appctx_handle_recvmsg-Holds,
  appctx_init-Holds,
}
use iouring_http_server.Server.{
  max_connections, put_buffer, handle_completion, event_round, run_event_loop, start, main,
}
use iouring_http_server.Server.Start.{greetings}

-- How the handling of a completion leads from the rule `I` to the rule `K`: by one reception for a new
-- connection, by one answer to a packet, and by nothing for any other.
pub record CompletionRule (env : Env) (cqe : Cqe) (I K : History → Type 0) : Type 0 where
  pub before : Rule env I
  pub after : Rule env K
  pub recycling : Recycles I
  pub receiving : ((userdata_decode cqe.user_data).op == 2) ≡ true → Receives env cqe.res I K
  pub sending :
      ((userdata_decode cqe.user_data).op == 3) ≡ true
      → Sends env (userdata_decode cqe.user_data).fd I K
  pub passing :
      ((userdata_decode cqe.user_data).op == 2) ≡ false
      → ((userdata_decode cqe.user_data).op == 3) ≡ false
      → (h : History) → I h
      → K h

-- A rule `I` for the time between two rounds, and, for a round that begins after the calls `h`, a rule
-- `During h` until the completion is handled and a rule `After h` until it is marked as seen.
pub record RoundRule (env : Env) (I : History → Type 0) (During After : History → History → Type 0)
    : Type 0 where
  pub outside : Rule env I
  pub handling :
      (h : History) → I h → CompletionRule env (env.cqe (wait_cqe ∷ h)) (During h) (After h)
  pub waiting : (h : History) → I h → During h (wait_cqe ∷ h)
  pub seeing : (h h' : History) → I h → After h h' → I (cqe_seen ∷ h')

put_buffer-Holds :
    (I : History → Type 0) (bid : ℕ) (w : World) → I w.history → Leaves (Holds I) (put_buffer bid w)
unfolding put_buffer
put_buffer-Holds I bid w v = elim (Option-cases (bufpool_put w.appctx.bufpool bid)) [
  | inl e ↦ rw (e, put_buffer) broken
  | inr (pool, e) ↦ rw (e, put_buffer) (returned v)
]

module _ (env : Env) (cqe : Cqe) (I K : History → Type 0) (rule : CompletionRule env cqe I K) where
  open rule use {before, after, recycling, receiving, sending, passing}

  handle_completion-Holds :
      (w : World) → I w.history → Leaves (Holds K) (handle_completion env cqe w)
  unfolding handle_completion
  handle_completion-Holds w v =
      let op = (userdata_decode cqe.user_data).op in
      Leaves-if (op == 1) _ _ w (λ e. returned (passing (ground arith) (ground arith) w.history v))
        λ _.
          Leaves-if (op == 4) _ _ w
            (λ e. returned (passing (ground arith) (ground arith) w.history v))
            λ _.
              Leaves-if (op == 5) _ _ w
                (λ e. put_buffer-Holds K _ w (passing (ground arith) (ground arith) w.history v))
                λ _.
                  Leaves-if (op == 2) _ _ w
                    (λ e. appctx_handle_accept-Holds env I K before after cqe w (receiving e) v)
                    λ not_accept.
                      Leaves-if (op == 3) _ _ w
                        (λ e.
                          appctx_handle_recvmsg-Holds env I K before after cqe w recycling
                            (sending e) v)
                        λ not_recvmsg. returned (passing not_accept not_recvmsg w.history v)

module _ (env : Env) (I : History → Type 0) (rule : Rule env I) where
  greetings-Holds : (w : World) → I w.history → Leaves (Holds I) (greetings env w)
  greetings-Holds w v = Leaves-bind (log_event-Holds env I rule _ _ w v) λ _ w1 v1.
      Leaves-bind (log_event-Holds env I rule _ _ w1 v1) λ _ w2 v2.
        Leaves-bind (log_event-Holds env I rule _ _ w2 v2) λ _ w3 v3.
          Leaves-bind (log_event-Holds env I rule _ _ w3 v3) λ _ w4 v4.
            Leaves-last_assertion (env.status (submit ∷ w4.history)) _ (rule.quiet submit _ refl v4)

  -- The calls up to the one for the first entry.
  abbrev listening : History → History
  listening h =
      let fd = env.status (socket ∷ h) in
      listen fd max_connections ∷ bind fd 3000 ∷ setsockopt fd ∷ socket ∷ h

  pub start-Holds : (w : World) → I w.history → Leaves (Holds I) (start env w)
  unfolding start
  start-Holds w v = Leaves-bind (appctx_init-Holds env I rule _ _ 16 w v) λ self w1 v1.
      let fd = env.status (socket ∷ w1.history) in
      Leaves-assert_positive fd _ _ (
        Leaves-assert_positive_call env.status (setsockopt fd) _ _ (
          Leaves-assert_positive_call env.status (bind fd 3000) _ _ (
            Leaves-assert_positive_call env.status (listen fd max_connections) _ _
              (elim (Option-cases (env.sqe (get_sqe ∷ listening w1.history))) [
                | inl full ↦ rw full exited
                | inr (sqe, free) ↦ rw free (
                    greetings-Holds _ (
                      rule.accepting (listening w1.history) sqe fd _ free (
                        rule.quiet _ _ refl (
                          rule.quiet _ _ refl
                            (rule.quiet _ _ refl (rule.quiet _ w1.history refl v1))))))
              ]))))

module _ (env : Env) (I : History → Type 0) (During After : History → History → Type 0)
    (rule : RoundRule env I During After) where
  pub event_round-Holds : (w : World) → I w.history → Leaves (Holds I) (event_round env w)
  unfolding event_round
  event_round-Holds w v = Leaves-assert_positive (env.status (wait_cqe ∷ w.history)) _ _ (
      Leaves-bind
        (handle_completion-Holds env (env.cqe (wait_cqe ∷ w.history)) (During w.history)
          (After w.history) (rule.handling w.history v) _ (rule.waiting w.history v))
        λ u w1 v1.
          Leaves-last_assertion (env.status (submit ∷ cqe_seen ∷ w1.history)) _
            (rule.outside.quiet submit _ refl (rule.seeing w.history w1.history v v1)))

  pub run_event_loop-Holds :
      (rounds : ℕ) (w : World) → I w.history → Leaves (Holds I) (run_event_loop env rounds w)
  unfolding run_event_loop
  run_event_loop-Holds zero w v = returned v
  run_event_loop-Holds (suc rounds) w v =
      Leaves-bind (event_round-Holds w v) λ u w1 v1. run_event_loop-Holds rounds w1 v1

  pub main-Holds : (rounds : ℕ) (w : World) → I w.history → Leaves (Holds I) (main env rounds w)
  unfolding main
  main-Holds rounds w v =
      Leaves-bind (start-Holds env I rule.outside w v) λ u w1 v1. run_event_loop-Holds rounds w1 v1

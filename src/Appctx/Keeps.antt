-- ===== src/Appctx/Keeps.antt =====
-- Rules on the order of calls, carried through the functions of clib, whatever the outside answers.
use iouring_http_server.Prelude.{
  ℕ, ◌*◌, ◌%◌, ◌^◌, List, [], ◌∷◌, refl, Bool-cases, Option-cases, inl, inr, length,
}
use iouring_http_server.Prelude.Int.{ℤ, neg}
use iouring_http_server.Userdata.{userdata_decode}
use iouring_http_server.Pool.{bufpool_pop, bufpool_of, Iovec}
use iouring_http_server.Machine.{
  Text, History, Env, World, pure, Cqe, register_buffers, recvmsg_validate, BufringInitParams,
  UringParams, get_sqe, malloc, store_text, getpeername, Bufring,
}
use iouring_http_server.Machine.Leaves.{
  Leaves, returned, exited, broken, Leaves-bind, Leaves-assert_not_null, Leaves-deref,
  Leaves-assert_positive, Leaves-assert_positive_call, Leaves-store_through, Leaves-use_filled,
  Leaves-as_int,
}
use iouring_http_server.Logging.{
  LogLevel, log_level_debug, logging_bufsize, pop_buffer, buffer_of, log_event,
  format_inet_addr_from_sockfd,
}
use iouring_http_server.Logging.Format.{cut}
use iouring_http_server.Logging.Event.{event_line}
use iouring_http_server.Appctx.{
  bufring_init, bufpool_init, init_bufrings, appctx_init, appctx_handle_accept,
  appctx_handle_recvmsg, conn_buffer, message,
}
use iouring_http_server.Appctx.Rings.{add_loop-adds_all}
use iouring_http_server.Appctx.Receive.{recycled}
use iouring_http_server.Appctx.Orderly.{Rule, Recycles, Receives, Sends}

-- What a rule says of a run that returns.
abbrev pub Holds : (History → Type 0) → {A : Type 0} → A → World → Type 0
Holds I a w = I w.history

module _ (env : Env) (I : History → Type 0) (rule : Rule env I) where
  pop_buffer-Holds : (w : World) → I w.history → Leaves (Holds I) (pop_buffer w)
  unfolding pop_buffer
  pop_buffer-Holds w v = elim (Option-cases (bufpool_pop w.appctx.bufpool)) [
    | inl e ↦ rw (e, pop_buffer) broken
    | inr ((buffer, rest), e) ↦ rw (e, pop_buffer) (returned v)
  ]

  pub log_event-Holds :
      (level : LogLevel) (text : Text) (w : World)
      → I w.history
      → Leaves (Holds I) (log_event env level text w)
  unfolding log_event
  log_event-Holds level text w v = Leaves-bind (pop_buffer-Holds w v) λ regbuf w1 v1.
      Leaves-assert_not_null regbuf w1 _ λ buffer.
        Leaves-deref (buffer_of w1.appctx.bufpool buffer) w1 _ λ (place : ℕ × ℕ).
          let stored : History =
            store_text place.0 (cut logging_bufsize (event_line env level text w place.1))
            ∷ w1.history in
          elim (Option-cases (env.sqe (get_sqe ∷ stored))) [
            | inl full ↦ rw full exited
            | inr (sqe, free) ↦ rw free (
                returned (
                  rule.writing stored sqe 2 place.0 _ 0 place.1 _ free
                    (rule.quiet _ w1.history refl v1)))
          ]

  format_inet_addr-Holds :
      (fd : ℤ) (w : World) → I w.history → Leaves (Holds I) (format_inet_addr_from_sockfd env fd w)
  unfolding format_inet_addr_from_sockfd
  format_inet_addr-Holds fd w v =
      Leaves-assert_positive (neg (env.status (getpeername fd ∷ w.history))) _ _ (
        Leaves-use_filled (env.status (getpeername fd ∷ w.history)) _ _
          (returned (rule.quiet (getpeername fd) w.history refl v)))

  bufring_init-Holds :
      (params : BufringInitParams) (w : World)
      → I w.history
      → Leaves (Holds I) (bufring_init env params w)
  unfolding bufring_init
  bufring_init-Holds params w v = Leaves-as_int (params.entries * params.entry_size) w _ (
      Leaves-assert_positive _ _ _ (
        Leaves-assert_positive _ _ _ (
          Leaves-store_through _ params.entries _ _ (
            rw (add_loop-adds_all _ _ _ _ _ _ _) (
              returned (
                rule.filling _ _ _ _ _ _ (
                  rule.quiet _ _ refl (
                    rule.quiet _ _ refl
                      (rule.quiet _ _ refl (rule.quiet _ _ refl (rule.quiet _ _ refl v)))))))))))

  bufpool_init-Holds :
      (buf_size entries : ℕ) (w : World)
      → I w.history
      → Leaves (Holds I) (bufpool_init env buf_size entries w)
  unfolding bufpool_init
  bufpool_init-Holds buf_size entries w v =
      let pool =
        bufpool_of (env.address (malloc (entries * buf_size % 2 ^ 64) ∷ w.history)) buf_size
          entries in
      let blocks : History =
        malloc (entries * 24 % 2 ^ 64)
        ∷ malloc (entries * 16 % 2 ^ 64)
        ∷ malloc (entries * buf_size % 2 ^ 64)
        ∷ w.history in
      let allocated : World = record w { history = blocks } in
      let registered : World = record w {
        history = register_buffers pool.iovecs entries ∷ blocks;
      } in
      Leaves-store_through _ entries allocated _ (
        Leaves-store_through _ entries allocated _ (
          Leaves-assert_positive (env.status registered.history) registered (λ u. pure pool)
            (returned (
              rule.quiet _ _ refl
                (rule.quiet _ _ refl (rule.quiet _ _ refl (rule.quiet _ w.history refl v)))))))

  init_bufrings-Holds :
      (ps : List BufringInitParams) (w : World)
      → I w.history
      → Leaves (Holds I) (init_bufrings env ps w)
  unfolding init_bufrings
  init_bufrings-Holds [] w v = returned v
  init_bufrings-Holds (p ∷ ps) w v =
      Leaves-bind (bufring_init-Holds p w v)
        λ ring w1 v1. Leaves-bind (init_bufrings-Holds ps w1 v1) λ rings w2 v2. returned v2

  pub appctx_init-Holds :
      (uring_params : UringParams) (bufring_params : List BufringInitParams) (size : ℕ) (w : World)
      → I w.history
      → Leaves (Holds I) (appctx_init env uring_params bufring_params size w)
  unfolding appctx_init
  appctx_init-Holds uring_params bufring_params size w v =
      Leaves-assert_positive_call env.status _ w _ (
        Leaves-bind (bufpool_init-Holds _ size _ (rule.quiet _ w.history refl v)) λ pool w1 v1.
          Leaves-store_through _ (length bufring_params) _ _ (
            Leaves-bind (init_bufrings-Holds bufring_params _ (rule.quiet _ w1.history refl v1))
              λ rings w2 v2. returned v2))

module _ (env : Env) (I K : History → Type 0) (before : Rule env I) (after : Rule env K) where
  pub appctx_handle_accept-Holds :
      (cqe : Cqe) (w : World)
      → Receives env cqe.res I K
      → I w.history
      → Leaves (Holds K) (appctx_handle_accept env cqe w)
  unfolding appctx_handle_accept
  appctx_handle_accept-Holds cqe w receiving v =
      Leaves-assert_positive cqe.res w _ (elim (Option-cases (env.sqe (get_sqe ∷ w.history))) [
        | inl full ↦ rw full broken
        | inr (sqe, free) ↦ rw free (
            Leaves-bind
              (format_inet_addr-Holds env K after cqe.res _ (receiving w.history sqe _ _ _ free v))
              λ u w1 v1. log_event-Holds env K after _ _ w1 v1)
      ])

  pub appctx_handle_recvmsg-Holds :
      (cqe : Cqe) (w : World)
      → Recycles I
      → Sends env (userdata_decode cqe.user_data).fd I K
      → I w.history
      → Leaves (Holds K) (appctx_handle_recvmsg env cqe w)
  unfolding appctx_handle_recvmsg
  appctx_handle_recvmsg-Holds cqe w recycling sending v = Leaves-assert_positive cqe.res w _ (
      Leaves-deref (conn_buffer w.appctx _) w _ λ (place : Bufring × Iovec).
        let (ring, iov) = place in
        let validated : World = record w {
          history = recvmsg_validate iov.iov_base cqe.res ∷ w.history;
        } in
        elim (Bool-cases (env.valid validated.history)) [
          | inl valid ↦ rw valid (
              Leaves-bind
                (log_event-Holds env I before log_level_debug _ validated
                  (before.quiet _ w.history refl v))
                λ u w1 v1.
                  elim (Option-cases (env.sqe (recycled env cqe 0 ring iov w w1.history))) [
                    | inl full ↦ rw full broken
                    | inr (sqe, free) ↦ rw free (
                        returned (
                          sending _ sqe message (length message) _ free
                            (recycling w1.history _ _ _ _ _ _ v1)))
                  ])
          | inr bad ↦ rw bad exited
        ])

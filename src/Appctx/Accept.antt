-- ===== src/Appctx/Accept.antt =====
-- What `appctx_handle_accept` does.
use iouring_http_server.Prelude.{ℕ, ◌≡◌, some, List, ◌∷◌, ◌++◌}
use iouring_http_server.Prelude.Int.{pos}
use iouring_http_server.Userdata.{op_recvmsg, opcode_value, encode_userdata}
use iouring_http_server.Pool.Ownership.{Owned}
use iouring_http_server.Machine.{
  Text, Sqe, History, Env, World, Cqe, get_sqe, prep_recvmsg_multishot, or_flags, set_buf_group,
  set_data64, getpeername,
}
use iouring_http_server.Machine.Laws.{Ends}
use iouring_http_server.Logging.Format.{codes}
use iouring_http_server.Logging.{
  fmt_addrlen, format_inet_addr, format_inet_addr_from_sockfd, log_level_debug,
}
use iouring_http_server.Logging.Event.{Logged, NoBuffer, log_event-Ends}
use iouring_http_server.Appctx.{bufrings_conn, iosqe_buffer_select, appctx_handle_accept}

module _ (env : Env) (fd : ℕ) (w : World) where
  -- The calls that start the reception on the new connection, with the address asked for last.
  abbrev pub watching : Sqe → History
  watching sqe =
      let prepared =
        set_buf_group sqe bufrings_conn
        ∷ or_flags sqe iosqe_buffer_select
        ∷ prep_recvmsg_multishot sqe (pos fd)
        ∷ get_sqe
        ∷ w.history in
      getpeername (pos fd)
      ∷ set_data64 sqe (encode_userdata (env.padding prepared) fd (opcode_value op_recvmsg))
      ∷ prepared

  abbrev pub greeted : Sqe → World
  greeted sqe = record w {
    fmt_addr =
        format_inet_addr fmt_addrlen (env.peer_text (watching sqe)) (env.peer_port (watching sqe));
    history = watching sqe;
  }

  abbrev pub greeting : Sqe → Text
  greeting sqe = codes "New connection from " ++ (greeted sqe).fmt_addr

  -- With each log buffer free or held, a free entry in the ring, and a `getpeername` that
  -- succeeds, for a new connection: one reception is prepared, for its descriptor, from the
  -- buffers of the connection group, under a `user_data` that holds the descriptor and OP_RECVMSG;
  -- the peer's address is noted in `fmt_addr`, and a line with it is logged. The handler exits only
  -- where logging does.
  pub appctx_handle_accept-Ends :
      (n : ℕ) (held : List ℕ) (sqe : Sqe) (cqe : Cqe)
      → Owned n w.appctx.bufpool held
      → cqe.res ≡ pos fd
      → env.sqe (get_sqe ∷ w.history) ≡ some sqe
      → env.status (watching sqe) ≡ pos 0
      → Ends
          (Logged env log_level_debug (greeting sqe) (greeted sqe) n held)
          (NoBuffer env log_level_debug (greeting sqe) (greeted sqe) n held)
          (appctx_handle_accept env cqe w)
  unfolding appctx_handle_accept format_inet_addr_from_sockfd
  appctx_handle_accept-Ends n held sqe cqe v res free peer =
      rw res (rw free (rw peer (log_event-Ends env log_level_debug _ (greeted sqe) n held v)))

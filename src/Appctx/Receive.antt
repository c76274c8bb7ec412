-- ===== src/Appctx/Receive.antt =====
-- What `appctx_handle_recvmsg` does.
use iouring_http_server.Prelude.{ℕ, ◌/◌, ◌^◌, ◌≡◌, refl, some, List, ◌∷◌, true, length}
use iouring_http_server.Prelude.Int.{pos}
use iouring_http_server.Userdata.{op_sendmsg, opcode_value, encode_userdata, userdata_decode}
use iouring_http_server.Pool.{Iovec}
use iouring_http_server.Pool.Ownership.{Owned}
use iouring_http_server.Machine.{
  Text, Sqe, History, Env, World, Bufring, Cqe, get_sqe, recvmsg_validate, buf_ring_add,
  buf_ring_advance, prep_send_zc, set_data64,
}
use iouring_http_server.Machine.Laws.{Ends, returns, Ends-bind}
use iouring_http_server.Logging.{log_level_debug}
use iouring_http_server.Logging.Event.{Logged, NoBuffer, log_event-Ends}
use iouring_http_server.Appctx.{
  ioring_cqe_buffer_shift, message, packet_text, conn_buffer, appctx_handle_recvmsg,
}

module _ (env : Env) (cqe : Cqe) (msglen : ℕ) (ring : Bufring) (iov : Iovec) (w : World) where
  abbrev pub buffer_number : ℕ
  buffer_number = cqe.flags / 2 ^ ioring_cqe_buffer_shift

  abbrev pub validated : World
  validated = record w { history = recvmsg_validate iov.iov_base (pos msglen) ∷ w.history }

  abbrev pub packet : Text
  packet =
      packet_text w.fmt_addr buffer_number (pos msglen) (env.payload_length validated.history)
        (env.payload validated.history)

  -- The calls after the line is logged, up to the one for an entry.
  abbrev pub recycled : History → History
  recycled h =
      get_sqe
      ∷ buf_ring_advance ring.br 1
      ∷ buf_ring_add ring.br iov.iov_base iov.iov_len buffer_number
          (env.ring_mask ring.params.entries) buffer_number
      ∷ h

  abbrev pub answered : History → Sqe → History
  answered h sqe =
      let fd = (userdata_decode cqe.user_data).fd in
      let prepared = prep_send_zc sqe fd message (length message) ∷ recycled h in
      set_data64 sqe (encode_userdata (env.padding prepared) fd (opcode_value op_sendmsg))
      ∷ prepared

  -- How the world stands when the handler returns.
  pub record Answered (n : ℕ) (held : List ℕ) (u : Unit {0}) (w' : World) : Type 0 where
    pub before : World
    pub logged : Logged env log_level_debug packet validated n held u before
    pub sqe : Sqe
    pub result : w' ≡ record before { history = answered before.history sqe }

  -- With each log buffer free or held, a ring that always has a free entry, and a packet in a
  -- buffer of the connection ring whose header is valid: a line with the packet is logged; the
  -- buffer goes back to its ring, with its address, length and number, and one buffer is made
  -- visible; and the greeting is prepared for the descriptor in the completion's `user_data`, under
  -- a `user_data` with it and OP_SENDMSG. The handler exits only where logging does.
  pub appctx_handle_recvmsg-Ends :
      (n : ℕ) (held : List ℕ)
      → Owned n w.appctx.bufpool held
      → cqe.res ≡ pos msglen
      → conn_buffer w.appctx buffer_number ≡ some (ring, iov)
      → env.valid validated.history ≡ true
      → ((h : History) → (sqe : Sqe) × (env.sqe h ≡ some sqe))
      → Ends
          (Answered n held)
          (NoBuffer env log_level_debug packet validated n held)
          (appctx_handle_recvmsg env cqe w)
  unfolding appctx_handle_recvmsg
  appctx_handle_recvmsg-Ends n held v res found valid free = rw res (
      rw found (
        rw valid (
          Ends-bind (log_event-Ends env log_level_debug packet validated n held v) λ u w' logged.
            let (sqe, e) = free (recycled w'.history) in
            rw e (returns (record { before = w'; logged = logged; sqe = sqe; result = refl })))))

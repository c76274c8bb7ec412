-- ===== src/Server/Overrun.antt =====
-- What a long packet does to the log of clib/appctx.c and clib/logging.c.
use iouring_http_server.Prelude.{
  ℕ, ◌+◌, ◌%◌, ◌^◌, ◌<◌, ◌≤◌, ◌≡◌, refl, some, List, [], ◌∷◌, Bool, true, false, ◌||◌, ltb, arith,
  length, length-append, take,
}
use iouring_http_server.Prelude.Int.{pos}
use iouring_http_server.Pool.{Iovec}
use iouring_http_server.Pool.Ownership.{Owned}
use iouring_http_server.Machine.{Text, Sqe, History, Env, World, Bufring, Cqe, prep_write_fixed}
use iouring_http_server.Machine.Laws.{Ends, Ends-weaken}
use iouring_http_server.Logging.Format.{signed_decimal, length-decimal, decimal-pos}
use iouring_http_server.Logging.{log_level_debug, logging_bufsize}
use iouring_http_server.Logging.Event.{NoBuffer, event_line}
use iouring_http_server.Logging.Length.{line_overruns, length-line, length-log_level_str}
use iouring_http_server.Appctx.{packet_text, conn_buffer, appctx_handle_recvmsg}
use iouring_http_server.Appctx.Receive.{
  buffer_number, validated, packet, appctx_handle_recvmsg-Ends,
}
use iouring_http_server.Server.Buffers.{held_below}

-- Has the ring been asked to write more from a log buffer than it holds?
unfoldable pub overrun : History → Bool
overrun [] = false
overrun (prep_write_fixed sqe fd addr nbytes offset buf_index ∷ h) =
    ltb logging_bufsize nbytes || overrun h
overrun (_ ∷ h) = overrun h

length-packet_text :
    (from : Text) (bid msglen len : ℕ) (content : Text)
    → 39 + length (take len content) ≤ length (packet_text from bid (pos msglen) len content)
unfolding packet_text signed_decimal
length-packet_text from bid msglen len content =
    simp length-append (omega (arith, decimal-pos bid, decimal-pos msglen))

unwrapped : (b n : ℕ) → b < n → n < 2 ^ 32 → ltb b (n % 2 ^ 32) ≡ true
unwrapped b n h small = let same : n % 2 ^ 32 ≡ n = omega arith in rw same (ground arith)

module _ (env : Env) (cqe : Cqe) (msglen : ℕ) (ring : Bufring) (iov : Iovec) (w : World) where
  -- The bytes of the packet that its log line shows.
  abbrev pub content : Text
  content =
      let h = (validated env cqe msglen ring iov w).history in
      take (env.payload_length h) (env.payload h)

  -- With each of at most 2 ^ 16 log buffers free or held, a ring that always has a free entry, a
  -- packet in a buffer of the connection ring whose header is valid, a local time of 19 characters and
  -- less than a second of microseconds: where the packet has more than 172 bytes up to its first NUL,
  -- the handler exits only where logging does, and else it has asked for a write of more bytes from a
  -- log buffer than the buffer has.
  pub appctx_handle_recvmsg-overrun :
      (n : ℕ) (held : List ℕ)
      → n ≤ 2 ^ 16
      → Owned n w.appctx.bufpool held
      → cqe.res ≡ pos msglen
      → conn_buffer w.appctx (buffer_number env cqe msglen ring iov w) ≡ some (ring, iov)
      → env.valid (validated env cqe msglen ring iov w).history ≡ true
      → ((h : History) → (sqe : Sqe) × (env.sqe h ≡ some sqe))
      → length (env.local_time (validated env cqe msglen ring iov w).history) ≡ 19
      → env.tv_usec (validated env cqe msglen ring iov w).history < 10 ^ 6
      → 172 < length content
      → Ends
          (λ _ w'. overrun w'.history ≡ true)
          (NoBuffer env log_level_debug
            (packet env cqe msglen ring iov w)
            (validated env cqe msglen ring iov w)
            n
            held)
          (appctx_handle_recvmsg env cqe w)
  unfolding overrun
  appctx_handle_recvmsg-overrun n held small v res found valid free nineteen micros long =
      let before = validated env cqe msglen ring iov w in
      let text = packet env cqe msglen ring iov w in
      let h = before.history in
      Ends-weaken
        (appctx_handle_recvmsg-Ends env cqe msglen ring iov w n held v res found valid free)
        (λ u w' a.
          let bid = a.logged.bid in
          let line = event_line env log_level_debug text before bid in
          let below = held_below n a.before.appctx.bufpool [] held bid a.logged.owned in
          let whole : 211 < length text = omega (
            arith,
            length-packet_text w.fmt_addr (buffer_number env cqe msglen ring iov w) msglen
                (env.payload_length h) (env.payload h),
          ) in
          let over : logging_bufsize < length line =
            (line_overruns log_level_debug (env.local_time h) (env.tv_usec h) bid text nineteen
              micros whole).0 in
          let size =
            length-line log_level_debug (env.local_time h) (env.tv_usec h) bid text nineteen
              micros in
          let bounded : length line < 2 ^ 32 =
            omega
              (arith, length-decimal bid 4 (omega arith), length-log_level_str log_level_debug) in
          let asked : ltb logging_bufsize (length line % 2 ^ 32) ≡ true =
            unwrapped logging_bufsize (length line) over bounded in
          simp (a.result, a.logged.calls, asked) refl)
        (λ w' q. q)

-- ===== src/Logging.antt =====
-- clib/logging.h and clib/logging.c: formatting a peer's address, and writing a log line through the
-- ring from a buffer of the pool.
pub mod Format
pub mod Event
pub mod Length
use iouring_http_server.Prelude.{
  ℕ, ◌+◌, ◌-◌, ◌/◌, ◌%◌, ◌^◌, Option, none, some, List, [], ◌∷◌, ◌++◌, String, length, take,
  get_elem?, ltb, if◌then◌else◌,
}
use iouring_http_server.Prelude.Int.{ℤ, pos, neg}
use iouring_http_server.Userdata.{op_write_fixed, opcode_value, encode_userdata}
use iouring_http_server.Pool.{bufpool_pop, Freebuf, Iovec, Bufpool}
use iouring_http_server.Machine.{
  Text, Env, World, Appctx, Run, ok, exits, undefined, M, ◌>>=◌, ◌>>◌, pure, call, ask, observe,
  assert_positive, assert_not_null, use_filled, deref, getpeername, get_sqe, store_text,
  prep_write_fixed, set_data64,
}
use Format.{codes, decimal, decimal3, cut}

abbrev pub fmt_addrlen : ℕ
fmt_addrlen = 32

abbrev pub logging_bufsize : ℕ
logging_bufsize = 256

-- `enum log_level`.
pub data LogLevel : Type 0 where
  log_level_debug log_level_info log_level_warn log_level_error : LogLevel

unfoldable pub log_level_str : LogLevel → Text
log_level_str log_level_debug = codes "DEBUG"
log_level_str log_level_info = codes "INFO"
log_level_str log_level_warn = codes "WARN"
log_level_str log_level_error = codes "ERROR"

abbrev pub color_reset : Text
color_reset = 27 ∷ codes "[0m"

unfoldable pub log_level_color : LogLevel → Text
log_level_color log_level_debug = 27 ∷ codes "[34m"
log_level_color log_level_info = 27 ∷ codes "[92m"
log_level_color log_level_warn = 27 ∷ codes "[33m"
log_level_color log_level_error = 27 ∷ codes "[31m"

-- `inet_ntop` leaves the buffer, which was zeroed, empty where the text and its NUL do not fit.
unfoldable pub format_inet_addr : ℕ → Text → ℕ → Text
format_inet_addr buf_sz ip port =
    let shown = if ltb (length ip) buf_sz then ip else [] in
    shown ++ cut (buf_sz - length shown) (codes ":" ++ decimal port)

-- `strftime` into `scratch1`, which gives 0 where the text does not fit, and the milliseconds.
unfoldable pub timestamp : Text → ℕ → Text
timestamp local tv_usec =
    let shown = if ltb (length local) logging_bufsize then local else [] in
    shown ++ cut (logging_bufsize - length shown) (codes "." ++ decimal3 (tv_usec / 1000))

-- "%s [%d] %s[%s]%s %s\n"
unfoldable pub log_line : LogLevel → Text → ℕ → Text → Text
unfolding log_level_str log_level_color
log_line level scratch1 bid scratch2 =
    scratch1
    ++ codes " ["
    ++ decimal bid
    ++ codes "] "
    ++ log_level_color level
    ++ codes "["
    ++ log_level_str level
    ++ codes "]"
    ++ color_reset
    ++ codes " "
    ++ scratch2
    ++ 10 ∷ []

-- `bufpool_pop(&appctx->bufpool)`
unfoldable pub pop_buffer : M (Option ℕ)
pop_buffer w = elim (bufpool_pop w.appctx.bufpool) [
  | none ↦ undefined
  | some (buffer, rest) ↦ ok buffer (record w { appctx = record w.appctx { bufpool = rest } })
]

-- `regbuf->iov->iov_base` and `regbuf->bid`
unfoldable pub buffer_of : Bufpool → ℕ → Option (ℕ × ℕ)
buffer_of pool regbuf = elim (get_elem? pool.freelist_mem regbuf) [
  | none ↦ none
  | some freebuf ↦ elim (get_elem? pool.iovecs freebuf.iov) [
    | none ↦ none
    | some iov ↦ some (iov.iov_base, freebuf.bid)
  ]
]

module _ (env : Env) where
  unfoldable pub format_inet_addr_from_sockfd : ℤ → M (Unit {0})
  unfolding format_inet_addr assert_positive use_filled
  format_inet_addr_from_sockfd sockfd = do
    err ← ask (getpeername sockfd) env.status
    assert_positive (neg err)
    use_filled err
    ip ← observe env.peer_text
    port ← observe env.peer_port
    λ w. ok tt (record w { fmt_addr = format_inet_addr fmt_addrlen ip port })

  unfoldable pub log_event : LogLevel → Text → M (Unit {0})
  unfolding pop_buffer buffer_of assert_not_null deref
  log_event level message = do
    local ← observe env.local_time
    tv_usec ← observe env.tv_usec
    let scratch1 = timestamp local tv_usec
    let scratch2 = cut logging_bufsize message
    regbuf ← pop_buffer
    regbuf ← assert_not_null regbuf
    (log_buf, bid) ← λ w. deref (buffer_of w.appctx.bufpool regbuf) w
    let line = log_line level scratch1 bid scratch2
    call (store_text log_buf (cut logging_bufsize line))
    sqe ← ask get_sqe env.sqe
    sqe ← assert_not_null sqe
    call (prep_write_fixed sqe 2 log_buf (length line % 2 ^ 32) 0 bid)
    padding ← observe env.padding
    call (set_data64 sqe (encode_userdata padding bid (opcode_value op_write_fixed)))

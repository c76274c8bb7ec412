-- ===== src/Appctx.antt =====
-- clib/appctx.h and clib/appctx.c: setting the context up, and the handlers of two completions.
pub mod Accept
pub mod Rings
pub mod Receive
pub mod Orderly
pub mod Keeps
use iouring_http_server.Prelude.{
  ℕ, zero, suc, ◌+◌, ◌*◌, ◌/◌, ◌%◌, ◌^◌, Option, none, some, List, [], ◌∷◌, ◌++◌, Bool, true, false,
  length, get_elem?, take,
}
use iouring_http_server.Prelude.Int.{ℤ, to_ℕ, neg}
use iouring_http_server.Userdata.{
  op_recvmsg, op_sendmsg, opcode_value, encode_userdata, userdata_decode,
}
use iouring_http_server.Pool.{Iovec, Bufpool, bufpool_of}
use iouring_http_server.Machine.{
  Text, Env, World, Appctx, Bufring, BufringInitParams, UringParams, Cqe, Run, ok, M, ◌>>=◌, ◌>>◌,
  pure, call, ask, observe, assert_positive, assert_positive_call, assert_not_null, deref,
  store_through, as_int, malloc, posix_memalign, queue_init_params, register_buffers,
  register_buf_ring, buf_ring_init, buf_ring_add, buf_ring_advance, get_sqe, prep_recvmsg_multishot,
  prep_send_zc, or_flags, set_buf_group, set_data64, recvmsg_validate,
}
use iouring_http_server.Logging.Format.{codes, decimal, signed_decimal}
use iouring_http_server.Logging.{
  logging_bufsize, log_level_debug, format_inet_addr_from_sockfd, log_event,
}

abbrev pub bufrings_conn : ℕ
bufrings_conn = 0

-- `1U << IOSQE_BUFFER_SELECT_BIT`
abbrev pub iosqe_buffer_select : ℕ
iosqe_buffer_select = 2 ^ 5

abbrev pub ioring_cqe_buffer_shift : ℕ
ioring_cqe_buffer_shift = 16

-- `MESSAGE`, with `strlen(MESSAGE)` bytes.
abbrev pub message : Text
message = codes "Hello, World!" ++ 10 ∷ []

-- `bufs[i]` for the entries of a ring from `i` on, with `left` to go.
unfoldable pub ring_bufs : (base entry_size left i : ℕ) → List Iovec
ring_bufs base entry_size zero i = []
ring_bufs base entry_size (suc left) i =
    record { iov_base = base + i * entry_size; iov_len = entry_size }
    ∷ ring_bufs base entry_size left (i + 1)

-- The calls of the loop in `bufring_init`, for the buffers from number `i` on.
unfoldable pub add_loop : (br mask : ℕ) → List Iovec → ℕ → M (Unit {0})
add_loop br mask [] i = pure tt
add_loop br mask (v ∷ vs) i = do
  call (buf_ring_add br v.iov_base v.iov_len (i % 2 ^ 16) mask i)
  add_loop br mask vs (i + 1)

-- A packet's log message: "Packet from %s, bid: %d, len: %d, content: %.*s".
unfoldable pub packet_text : Text → ℕ → ℤ → ℕ → Text → Text
packet_text from bid msglen len content =
    codes "Packet from "
    ++ from
    ++ codes ", bid: "
    ++ decimal bid
    ++ codes ", len: "
    ++ signed_decimal msglen
    ++ codes ", content: "
    ++ take len content

-- `self->bufrings[BUFRINGS_CONN].bufs[bid]`, with the ring.
unfoldable pub conn_buffer : Appctx → ℕ → Option (Bufring × Iovec)
conn_buffer self bid = elim (get_elem? self.bufrings bufrings_conn) [
  | none ↦ none
  | some ring ↦ elim (get_elem? ring.bufs bid) [ none ↦ none | some iov ↦ some (ring, iov) ]
]

module _ (env : Env) where
  unfoldable pub bufring_init : BufringInitParams → M Bufring
  unfolding ring_bufs
  bufring_init params = do
    bytes ← as_int (params.entries * params.entry_size)
    base ← ask (malloc bytes) env.address
    bufs ← ask (malloc (params.entries * 16)) env.address
    res ← ask (posix_memalign 4096 (params.entries * 16)) env.status
    br ← observe env.address
    assert_positive (neg res)
    res ← ask (register_buf_ring br params.entries params.bgid) env.status
    assert_positive res
    call (buf_ring_init br)
    store_through bufs params.entries
    let vs = ring_bufs base params.entry_size params.entries 0
    add_loop br (env.ring_mask params.entries) vs 0
    call (buf_ring_advance br params.entries)
    pure (record { br = br; bufs = vs; params = params })

  unfoldable pub bufpool_init : (buf_size entries : ℕ) → M Bufpool
  unfolding bufpool_of assert_positive store_through
  bufpool_init buf_size entries = do
    buf ← ask (malloc (entries * buf_size % 2 ^ 64)) env.address
    iovecs ← ask (malloc (entries * 16 % 2 ^ 64)) env.address
    freebs ← ask (malloc (entries * 24 % 2 ^ 64)) env.address
    store_through iovecs entries
    store_through freebs entries
    let pool = bufpool_of buf buf_size entries
    res ← ask (register_buffers pool.iovecs entries) env.status
    assert_positive res
    pure pool

  unfoldable pub init_bufrings : List BufringInitParams → M (List Bufring)
  unfolding bufring_init
  init_bufrings [] = pure []
  init_bufrings (p ∷ ps) = do ring ← bufring_init p; rings ← init_bufrings ps; pure (ring ∷ rings)

  -- `bufring_params` has the `BUFRINGS` entries of the array.
  unfoldable pub appctx_init : UringParams → List BufringInitParams → ℕ → M Appctx
  unfolding bufpool_init init_bufrings assert_positive_call store_through
  appctx_init uring_params bufring_params bufpool_size = do
    assert_positive_call env.status (queue_init_params 16 uring_params)
    bufpool ← bufpool_init logging_bufsize bufpool_size
    bufrings ← ask (malloc (2 * 24)) env.address
    store_through bufrings (length bufring_params)
    rings ← init_bufrings bufring_params
    pure (record { bufpool = bufpool; bufrings = rings })

  unfoldable pub appctx_handle_accept : Cqe → M (Unit {0})
  unfolding assert_positive deref
  appctx_handle_accept cqe = do
    let clientfd = cqe.res
    assert_positive clientfd
    sqe ← ask get_sqe env.sqe
    sqe ← deref sqe
    call (prep_recvmsg_multishot sqe clientfd)
    call (or_flags sqe iosqe_buffer_select)
    call (set_buf_group sqe bufrings_conn)
    padding ← observe env.padding
    call (set_data64 sqe (encode_userdata padding (to_ℕ clientfd) (opcode_value op_recvmsg)))
    format_inet_addr_from_sockfd env clientfd
    λ w. log_event env log_level_debug (codes "New connection from " ++ w.fmt_addr) w

  unfoldable pub appctx_handle_recvmsg : Cqe → M (Unit {0})
  unfolding assert_positive assert_not_null deref conn_buffer packet_text
  appctx_handle_recvmsg cqe = do
    let ud = userdata_decode cqe.user_data
    let bid = cqe.flags / 2 ^ ioring_cqe_buffer_shift
    let msglen = cqe.res
    assert_positive msglen
    (ring, iov) ← λ w. deref (conn_buffer w.appctx bid) w
    valid ← ask (recvmsg_validate iov.iov_base msglen) env.valid
    assert_not_null (elim valid [ true ↦ some tt | false ↦ none ])
    content ← observe env.payload
    len ← observe env.payload_length
    λ w. log_event env log_level_debug (packet_text w.fmt_addr bid msglen len content) w
    call (buf_ring_add ring.br iov.iov_base iov.iov_len bid (env.ring_mask ring.params.entries) bid)
    call (buf_ring_advance ring.br 1)
    sqe ← ask get_sqe env.sqe
    sqe ← deref sqe
    call (prep_send_zc sqe ud.fd message (length message))
    padding ← observe env.padding
    call (set_data64 sqe (encode_userdata padding ud.fd (opcode_value op_sendmsg)))

-- ===== src/Server.antt =====
-- cexe/main.c: the event loop of the server, and its start.
pub mod Buffers
pub mod Drain
pub mod Faults
pub mod Handover
pub mod InFlight
pub mod Loop
pub mod Order
pub mod Overrun
pub mod Placement
pub mod Refusal
pub mod Rounds
pub mod Served
pub mod Setup
pub mod Start
pub mod Submissions
pub mod Visible
use Prim.Native.Nat.{bit_or}
use iouring_http_server.Prelude.{
  ℕ, zero, suc, ◌%◌, ◌^◌, none, some, List, [], ◌∷◌, ◌==◌, if◌then◌else◌,
}
use iouring_http_server.Prelude.Int.{ℤ, to_ℕ}
use iouring_http_server.Userdata.{
  Userdata, op_listen, op_accept, op_recvmsg, op_write, op_write_fixed, opcode_value,
  encode_userdata, userdata_decode,
}
use iouring_http_server.Pool.{bufpool_put}
use iouring_http_server.Machine.{
  Env, World, Appctx, BufringInitParams, UringParams, Cqe, Run, ok, undefined, M, ◌>>=◌, ◌>>◌, pure,
  call, ask, observe, assert_positive, assert_positive_call, assert_not_null, get_sqe,
  prep_multishot_accept, set_data64, submit, wait_cqe, cqe_seen, socket, setsockopt, bind, listen,
}
use iouring_http_server.Logging.Format.{codes}
use iouring_http_server.Logging.{
  log_level_debug, log_level_info, log_level_warn, log_level_error, log_event,
}
use iouring_http_server.Appctx.{appctx_init, appctx_handle_accept, appctx_handle_recvmsg}

abbrev pub max_connections : ℕ
max_connections = 5

abbrev pub ioring_setup_sqpoll : ℕ
ioring_setup_sqpoll = 2

abbrev pub ioring_setup_sq_aff : ℕ
ioring_setup_sq_aff = 4

-- `bufpool_put(&appctx->bufpool, bid)`
unfoldable pub put_buffer : ℕ → M (Unit {0})
put_buffer bid w = elim (bufpool_put w.appctx.bufpool bid) [
  | none ↦ undefined
  | some pool ↦ ok tt (record w { appctx = record w.appctx { bufpool = pool } })
]

abbrev pub server_params : UringParams
server_params = record {
  sq_thread_cpu = 0;
  sq_thread_idle = 5000;
  flags = bit_or ioring_setup_sqpoll ioring_setup_sq_aff;
}

abbrev pub bufrings_params : List BufringInitParams
bufrings_params =
    record { entries = 16; entry_size = 1024; bgid = 0 }
    ∷ record { entries = 16; entry_size = 512; bgid = 1 }
    ∷ []

module _ (env : Env) where
  -- The `switch` of the event loop.
  unfoldable pub handle_completion : Cqe → M (Unit {0})
  unfolding put_buffer
  handle_completion cqe =
      let ud = userdata_decode cqe.user_data in
      if ud.op == opcode_value op_listen
      then pure tt
      else if ud.op == opcode_value op_write
      then pure tt
      else if ud.op == opcode_value op_write_fixed
      then put_buffer (ud.fd % 2 ^ 16)
      else if ud.op == opcode_value op_accept
      then appctx_handle_accept env cqe
      else if ud.op == opcode_value op_recvmsg
      then appctx_handle_recvmsg env cqe
      else pure tt

  -- One round of the loop in `run_event_loop`.
  unfoldable pub event_round : M (Unit {0})
  unfolding handle_completion assert_positive
  event_round = do
    res ← ask wait_cqe env.status
    assert_positive res
    cqe ← observe env.cqe
    handle_completion cqe
    call cqe_seen
    res ← ask submit env.status
    assert_positive res

  -- The first `rounds` rounds of the endless loop.
  unfoldable pub run_event_loop : ℕ → M (Unit {0})
  unfolding event_round
  run_event_loop zero = pure tt
  run_event_loop (suc rounds) = do event_round; run_event_loop rounds

  -- `main` up to the event loop.
  unfoldable pub start : M (Unit {0})
  unfolding assert_positive assert_positive_call assert_not_null
  start = do
    appctx ← appctx_init env server_params bufrings_params 16
    λ w. ok tt (record w { appctx = appctx })
    socketfd ← ask socket env.status
    assert_positive socketfd
    assert_positive_call env.status (setsockopt socketfd)
    assert_positive_call env.status (bind socketfd 3000)
    assert_positive_call env.status (listen socketfd max_connections)
    sqe ← ask get_sqe env.sqe
    sqe ← assert_not_null sqe
    call (prep_multishot_accept sqe socketfd)
    padding ← observe env.padding
    call (set_data64 sqe (encode_userdata padding (to_ℕ socketfd) (opcode_value op_accept)))
    log_event env log_level_debug (codes "Server starting 1...")
    log_event env log_level_info (codes "Server starting 2...")
    log_event env log_level_warn (codes "Server starting 3...")
    log_event env log_level_error (codes "Server starting 4...")
    res ← ask submit env.status
    assert_positive res

  unfoldable pub main : ℕ → M (Unit {0})
  unfolding start run_event_loop
  main rounds = do start; run_event_loop rounds

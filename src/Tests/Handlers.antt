-- ===== src/Tests/Handlers.antt =====
-- The handlers, the log and the client at concrete inputs.
use iouring_http_server.Prelude.{
  ap, true, false, ◌↔◌, ◌⊎◌, ◌+◌, ◌*◌, ◌^◌, ◌≡◌, refl, none, some, [], ◌∷◌, ◌++◌, arith,
}
use iouring_http_server.Prelude.Int.{is_negative, pos, negsuc}
use iouring_http_server.Userdata.{encode_userdata}
use iouring_http_server.Pool.{Iovec, bufpool_of}
use iouring_http_server.Machine.{
  Sqe, get_sqe, wait_cqe, submit, cqe_seen, prep_read_fixed, Env, World, Cqe, undefined,
}
use iouring_http_server.Machine.Laws.{Ends}
use iouring_http_server.Logging.Format.{codes}
use iouring_http_server.Logging.{log_level_debug, log_level_info, log_event, buffer_of}
use iouring_http_server.Logging.Event.{Logged, NoBuffer, log_event-Ends}
use iouring_http_server.Appctx.{ring_bufs, conn_buffer, appctx_handle_accept, appctx_handle_recvmsg}
use iouring_http_server.Appctx.Accept.{watching, greeted, greeting, appctx_handle_accept-Ends}
use iouring_http_server.Appctx.Receive.{Answered, packet, validated, appctx_handle_recvmsg-Ends}
use iouring_http_server.Server.{handle_completion, event_round}
use iouring_http_server.Server.Faults.{event_round-undefined}
use iouring_http_server.Userdata.RoundTrip.{decode-encode}
use iouring_http_server.Server.Buffers.{Returned, handle_completion-write_fixed}
use iouring_http_server.Client.{read_and_print}
use iouring_http_server.Client.Reading.{is_slice, read_and_print-undefined}
use iouring_http_server.Tests.Kernel.{
  kernel, running, full_pool-Owned, conn_ring, one_taken, takes-full_pool, one_taken-Owned,
}

log_event-Ends_example :
    Ends
      (Logged kernel log_level_info (codes "ready") running 16 [])
      (NoBuffer kernel log_level_info (codes "ready") running 16 [])
      (log_event kernel log_level_info (codes "ready") running)
log_event-Ends_example =
    log_event-Ends kernel log_level_info (codes "ready") running 16 [] full_pool-Owned

-- A packet of 21 bytes for descriptor 7, in the buffer 2 of the ring.
abbrev pub packet_cqe : Cqe
packet_cqe = record { user_data = encode_userdata 0 7 3; res = pos 21; flags = 2 * 2 ^ 16 + 3 }

abbrev pub third_iov : Iovec
third_iov = record { iov_base = 65536 + 2 * 1024; iov_len = 1024 }

pub third_buffer : conn_buffer running.appctx 2 ≡ some (conn_ring, third_iov)
unfolding conn_buffer ring_bufs
third_buffer = refl

appctx_handle_recvmsg-Ends_example :
    Ends
      (Answered kernel packet_cqe 21 conn_ring third_iov running 16 [])
      (NoBuffer kernel log_level_debug
        (packet kernel packet_cqe 21 conn_ring third_iov running)
        (validated kernel packet_cqe 21 conn_ring third_iov running)
        16
        [])
      (appctx_handle_recvmsg kernel packet_cqe running)
appctx_handle_recvmsg-Ends_example =
    appctx_handle_recvmsg-Ends kernel packet_cqe 21 conn_ring third_iov running 16 []
      full_pool-Owned refl third_buffer refl (λ h. (7, refl))

-- A new connection with descriptor 7.
abbrev accept_cqe : Cqe
accept_cqe = record { user_data = encode_userdata 0 3 2; res = pos 7; flags = 2 }

appctx_handle_accept-Ends_example :
    Ends
      (Logged kernel log_level_debug
        (greeting kernel 7 running 7)
        (greeted kernel 7 running 7)
        16
        [])
      (NoBuffer kernel log_level_debug
        (greeting kernel 7 running 7)
        (greeted kernel 7 running 7)
        16
        [])
      (appctx_handle_accept kernel accept_cqe running)
appctx_handle_accept-Ends_example =
    appctx_handle_accept-Ends kernel 7 running 16 [] 7 accept_cqe full_pool-Owned refl refl refl

-- A kernel with no free entry that hands over the connection.
abbrev ring_is_full : Env
ring_is_full = record kernel { sqe = λ h. none; cqe = λ h. accept_cqe }

event_round-undefined_example : (event_round ring_is_full running ≡ undefined) ↔ (
    (ring_is_full.sqe (get_sqe ∷ wait_cqe ∷ []) ≡ none)
    ⊎ ((sqe : Sqe) × (ring_is_full.sqe (get_sqe ∷ wait_cqe ∷ []) ≡ some sqe)
        × (is_negative (
              ring_is_full.status
                (watching ring_is_full 7 (record running { history = wait_cqe ∷ [] }) sqe))
            ≡ true)))
event_round-undefined_example =
    event_round-undefined ring_is_full running 16 [] 7 full_pool-Owned refl
      (ap (λ u. u.op) (decode-encode 0 3 2)) refl

abbrev writing : World
writing = record running { appctx = record running.appctx { bufpool = one_taken } }

handle_completion-write_fixed_example :
    Ends
      (λ _ w'. Returned 16 ([] ++ []) writing w')
      (λ _. ⊥)
      (handle_completion kernel
        (record { user_data = encode_userdata 0 15 5; res = pos 60; flags = 0 })
        writing)
handle_completion-write_fixed_example =
    handle_completion-write_fixed kernel writing 16 [] [] 15 0
      (record { user_data = encode_userdata 0 15 5; res = pos 60; flags = 0 }) (omega arith)
      one_taken-Owned refl

last_buffer : buffer_of one_taken 15 ≡ some (7936, 15)
unfolding buffer_of bufpool_of
last_buffer = refl

abbrev interrupted : Env
interrupted = record kernel { cqe = λ h. record { user_data = 0; res = negsuc 3; flags = 0 } }

read_and_print-undefined_example : (read_and_print interrupted running ≡ undefined) ↔ (
    (is_negative
        (interrupted.status (wait_cqe ∷ submit ∷ prep_read_fixed 7 0 7936 256 0 15 ∷ get_sqe ∷ []))
      ≡ true)
    ⊎ (is_slice
          (interrupted.cqe
            (cqe_seen ∷ wait_cqe ∷ submit ∷ prep_read_fixed 7 0 7936 256 0 15 ∷ get_sqe ∷ [])).res
        ≡ false))
read_and_print-undefined_example =
    read_and_print-undefined interrupted running one_taken 7 15 7936 15 refl takes-full_pool
      last_buffer

-- ===== src/Tests/Protocols.antt =====
-- The order of the server's calls, a long packet, and the whole of the client, at concrete inputs.
use mathlib.Core.List.{replicate}
use iouring_http_server.Prelude.{
  ap, inr, ◌∷◌, ℕ, ◌+◌, ◌*◌, ◌^◌, ◌≡◌, refl, some, none, true, false, [], ◌⊎◌, arith, ◌==◌,
  if◌then◌else◌,
}
use iouring_http_server.Prelude.Int.{pos, negsuc}
use iouring_http_server.Machine.{exits, wait_cqe, Cqe, Env}
use iouring_http_server.Userdata.{encode_userdata}
use iouring_http_server.Machine.Laws.{Ends}
use iouring_http_server.Logging.{log_level_debug}
use iouring_http_server.Logging.Event.{NoBuffer}
use iouring_http_server.Appctx.{appctx_handle_recvmsg}
use iouring_http_server.Appctx.Receive.{buffer_number, validated, packet}
use iouring_http_server.Server.{start, event_round}
use iouring_http_server.Server.{main as server_main}
use iouring_http_server.Server.Loop.{Stopped}
use iouring_http_server.Server.Setup.{StartFailed}
use iouring_http_server.Userdata.RoundTrip.{decode-encode}
use iouring_http_server.Server.Refusal.{event_round-refused}
use iouring_http_server.Server.Submissions.{phase, no_entry, main-Rests}
use iouring_http_server.Server.Served.{receptions, connections, answers, requests, main-Served}
use iouring_http_server.Server.Handover.{AllOwn}
use iouring_http_server.Server.Visible.{hidden, main-AllVisible}
use iouring_http_server.Server.Placement.{placed, start-AllPlaced, appctx_handle_recvmsg-placed}
use iouring_http_server.Server.Overrun.{overrun, appctx_handle_recvmsg-overrun}
use iouring_http_server.Client.{main}
use iouring_http_server.Client.Whole.{Panics, Printed, main-Ends}
use iouring_http_server.Tests.Kernel.{
  kernel, kernel-HasMemory, kernel-Honest, nothing, running, conn_ring, full_pool-Owned,
}
use iouring_http_server.Tests.Handlers.{packet_cqe, third_iov, third_buffer}

main-Rests_example :
    Ends
      (λ _ w'. phase kernel w'.history ≡ some (false, no_entry))
      (λ w'. StartFailed kernel w' ⊎ Stopped kernel w')
      (server_main kernel 7 nothing)
main-Rests_example = main-Rests kernel kernel-HasMemory kernel-Honest 7 nothing refl

main-Served_example :
    Ends
      (λ _ w'.
        (receptions w'.history ≡ connections kernel w'.history)
        × (answers w'.history ≡ requests kernel w'.history))
      (λ w'. StartFailed kernel w' ⊎ Stopped kernel w')
      (server_main kernel 7 nothing)
main-Served_example = main-Served kernel kernel-HasMemory kernel-Honest 7 nothing refl

main-AllVisible_example :
    Ends
      (λ _ w'.
        AllOwn kernel w'.appctx.bufrings w'.history × ((br : ℕ) → hidden br w'.history ≡ some 0))
      (λ w'. StartFailed kernel w' ⊎ Stopped kernel w')
      (server_main kernel 7 nothing)
main-AllVisible_example = main-AllVisible kernel kernel-HasMemory kernel-Honest 7 nothing refl

start-AllPlaced_example :
    Ends
      (λ _ w'. (br : ℕ) → placed br w'.history ≡ some 0)
      (StartFailed kernel)
      (start kernel nothing)
start-AllPlaced_example = start-AllPlaced kernel kernel-HasMemory kernel-Honest.room nothing refl

appctx_handle_recvmsg-placed_example :
    Ends
      (λ _ w'. placed conn_ring.br w'.history ≡ (
        if buffer_number kernel packet_cqe 21 conn_ring third_iov running == 0
        then some 0
        else none))
      (NoBuffer kernel log_level_debug
        (packet kernel packet_cqe 21 conn_ring third_iov running)
        (validated kernel packet_cqe 21 conn_ring third_iov running)
        16
        [])
      (appctx_handle_recvmsg kernel packet_cqe running)
unfolding placed
appctx_handle_recvmsg-placed_example =
    appctx_handle_recvmsg-placed kernel packet_cqe 21 conn_ring third_iov running 16 []
      full_pool-Owned refl third_buffer refl (λ h. (7, refl)) refl

-- A packet of 200 bytes, after the 16 of its header.
abbrev long_cqe : Cqe
long_cqe = record { user_data = encode_userdata 0 7 3; res = pos 216; flags = 2 * 2 ^ 16 + 3 }

abbrev talkative : Env
talkative = record kernel { payload = λ h. replicate 200 65; payload_length = λ h. 200 }

appctx_handle_recvmsg-overrun_example :
    Ends
      (λ _ w'. overrun w'.history ≡ true)
      (NoBuffer talkative log_level_debug
        (packet talkative long_cqe 216 conn_ring third_iov running)
        (validated talkative long_cqe 216 conn_ring third_iov running)
        16
        [])
      (appctx_handle_recvmsg talkative long_cqe running)
appctx_handle_recvmsg-overrun_example =
    appctx_handle_recvmsg-overrun talkative long_cqe 216 conn_ring third_iov running 16 []
      (omega arith) full_pool-Owned refl third_buffer refl (λ h. (7, refl)) refl (omega arith)
      (omega arith)

-- A peer that resets its connection.
abbrev resetting : Env
resetting = record kernel {
  cqe = λ h. record { user_data = encode_userdata 0 7 3; res = negsuc 103; flags = 0 };
}

event_round-refused_example :
    event_round resetting running ≡ exits (record running { history = wait_cqe ∷ [] })
event_round-refused_example =
    event_round-refused resetting running refl (inr (ap (λ u. u.op) (decode-encode 0 7 3))) refl

-- Whoever types enters seven bytes.
abbrev typist : Env
typist = record kernel { cqe = λ h. record { user_data = 0; res = pos 7; flags = 0 } }

main-Ends_example :
    Ends
      (λ _ w'. Printed typist w')
      (λ w'. StartFailed typist w' ⊎ Panics typist w')
      (main typist nothing)
main-Ends_example =
    main-Ends typist kernel-HasMemory (λ h. (7, refl))
      (record { waits = λ h. refl; completes = λ h. (7, refl, omega arith) }) nothing

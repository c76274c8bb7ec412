-- ===== src/Tests/Runs.antt =====
-- The whole program, its start and its loop, on the concrete kernel.
use iouring_http_server.Prelude.{ℕ, ◌≡◌, Option, none, some, ◌∷◌, List, [], refl, ◌⊎◌, length}
use iouring_http_server.Machine.{World}
use iouring_http_server.Machine.{Run, ok, exits, undefined}
use iouring_http_server.Machine.{as_int}
use iouring_http_server.Machine.Laws.{Ends}
use iouring_http_server.Userdata.{userdata_decode}
use iouring_http_server.Pool.{bufpool_pop, bufpool_put}
use iouring_http_server.Logging.{log_event, format_inet_addr_from_sockfd}
use iouring_http_server.Appctx.{
  appctx_init, add_loop, appctx_handle_accept, appctx_handle_recvmsg, ring_bufs,
}
use iouring_http_server.Server.{start, run_event_loop, main}
use iouring_http_server.Server.InFlight.{outstanding}
use iouring_http_server.Server.Loop.{Kept, Stopped, run_event_loop-Kept}
use iouring_http_server.Server.Served.{requests, answers}
use iouring_http_server.Server.Setup.{StartFailed}
use iouring_http_server.Server.Start.{start-returns, main-Kept}
use iouring_http_server.Tests.Kernel.{
  awaits, arrival, writes, next_completion, kernel, kernel-Honest, kernel-HasMemory, running,
  running-Kept, nothing,
}

main-Kept_example :
    Ends
      (λ _ w'. Kept kernel 16 16 w')
      (λ w'. StartFailed kernel w' ⊎ Stopped kernel w')
      (main kernel 3 nothing)
main-Kept_example = main-Kept kernel kernel-HasMemory kernel-Honest 3 nothing refl

start-returns_example :
    (w' : World) × (start kernel nothing ≡ ok tt w')
    × Kept kernel 16 16 w'
    × (length (outstanding kernel w'.history) ≡ 4)
start-returns_example =
    start-returns kernel kernel-HasMemory kernel-Honest.room nothing refl (λ h. refl)
      (λ a s h. refl)

run_event_loop-Kept_example :
    Ends (λ _ w'. Kept kernel 16 16 w') (Stopped kernel) (run_event_loop kernel 3 running)
run_event_loop-Kept_example = run_event_loop-Kept kernel 16 16 kernel-Honest 3 running running-Kept

-- The buffers in a write once so many rounds have run, where the server has not exited.
in_flight : Run (Unit {0}) → Option (List ℕ)
in_flight (ok u w) = some (writes w.history)
in_flight (exits w) = none
in_flight undefined = none

-- The start logs four lines; two of their writes have completed.
two_rounds : in_flight (main kernel 2 nothing) ≡ some (14 ∷ 15 ∷ [])
unfolding in_flight main next_completion awaits arrival writes appctx_init as_int add_loop log_event
    bufpool_pop userdata_decode bufpool_put
two_rounds = refl

-- All four have completed, and the new connection of the fifth round has logged a line.
five_rounds : in_flight (main kernel 5 nothing) ≡ some (15 ∷ [])
unfolding in_flight main next_completion awaits arrival writes appctx_init as_int add_loop log_event
    bufpool_pop userdata_decode bufpool_put appctx_handle_accept format_inet_addr_from_sockfd
five_rounds = refl

-- Its line is written in the sixth round; in the seventh comes a packet, and its answer is prepared.
-- The descriptors of the packets, and of the answers.
served : Run (Unit {0}) → List ℕ × List ℕ
served (ok u w) = (requests kernel w.history, answers w.history)
served (exits w) = ([], [])
served undefined = ([], [])

seven_rounds : served (main kernel 7 nothing) ≡ (7 ∷ [], 7 ∷ [])
unfolding served main next_completion awaits arrival writes appctx_init as_int add_loop log_event
    bufpool_pop userdata_decode bufpool_put appctx_handle_accept format_inet_addr_from_sockfd
    appctx_handle_recvmsg requests answers ring_bufs
seven_rounds = refl

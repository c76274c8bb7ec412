-- ===== src/Tests/Drains.antt =====
-- A log line that is being written when the kernel has nothing else to hand over.
use iouring_http_server.Prelude.{
  some, ℕ, Bool, ◌^◌, ◌<◌, ◌≡◌, ◌≢◌, refl, subst, ap, ◌∙◌, List, [], ◌∷◌, arith, ltb, true,
}
use iouring_http_server.Userdata.{op_write_fixed, opcode_value, userdata_decode, encode_userdata}
use iouring_http_server.Prelude.Int.{pos}
use iouring_http_server.Pool.{Bufpool, bufpool_of, bufpool_pop}
use iouring_http_server.Pool.View.{free_view}
use iouring_http_server.Pool.Ownership.{Owned, init-Reach-Owned, here, next, takes}
use iouring_http_server.Machine.{Cqe, World, ok, prep_write_fixed}
use iouring_http_server.Appctx.{ring_bufs}
use iouring_http_server.Server.{run_event_loop}
use iouring_http_server.Server.InFlight.{outstanding}
use iouring_http_server.Server.Buffers.{held_below}
use iouring_http_server.Server.Loop.{Kept}
use iouring_http_server.Server.Order.{handle_all, handle_all-order}
use iouring_http_server.Server.Drain.{Completes, run_event_loop-drains}
use iouring_http_server.Tests.Kernel.{
  kernel, kernel-Honest, next_completion, completion, awaits, writes, outstanding-writes,
  decode-completion_small, running, conn_ring, full_pool, takes-full_pool, one_taken,
  one_taken-Owned,
}

completion-writes :
    (c : Bool) (xs : List ℕ)
    → ((x : ℕ) (rest : List ℕ) → xs ≡ x ∷ rest → x < 16)
    → xs ≢ []
    → (userdata_decode (completion c xs).user_data).op ≡ opcode_value op_write_fixed
completion-writes c [] small some_left = absurd (some_left refl)
completion-writes c (x ∷ xs) small some_left =
    let below : x < 16 = small x xs refl in
    let fits : ltb x (2 ^ 16) ≡ true = ground arith in
    ap (λ u. u.op) (decode-completion_small c x xs fits)

kernel-Completes : Completes kernel 16 16
unfolding next_completion awaits
kernel-Completes w v some_left =
    let same = outstanding-writes w.history in
    completion-writes (awaits w.history) (writes w.history)
      (λ x rest e.
        held_below 16 w.appctx.bufpool [] rest x (subst (Owned 16 w.appctx.bufpool) (same ∙ e) v.0))
      (λ e. some_left (same ∙ e))

-- The line in the last buffer is being written.
abbrev line_under_way : World
line_under_way = record running {
  appctx = record running.appctx { bufpool = one_taken };
  history = prep_write_fixed 7 2 7936 60 0 15 ∷ [];
}

line_under_way-Kept : Kept kernel 16 16 line_under_way
unfolding outstanding ring_bufs
line_under_way-Kept = (one_taken-Owned, (conn_ring, refl, refl))

run_event_loop-drains_example :
    (w' : World) × (run_event_loop kernel 1 line_under_way ≡ ok tt w')
    × Owned 16 w'.appctx.bufpool []
unfolding outstanding
run_event_loop-drains_example =
    run_event_loop-drains kernel 16 16 kernel-Honest (λ h. refl) line_under_way kernel-Completes
      line_under_way-Kept

-- Two lines are being written, and both writes complete.
abbrev two_taken : Bufpool
two_taken = record one_taken { freelist_head = some 13 }

takes-one_taken : bufpool_pop one_taken ≡ some (some 14, two_taken)
unfolding bufpool_pop bufpool_of
takes-one_taken = refl

two_taken-Owned : Owned 16 two_taken (14 ∷ 15 ∷ [])
two_taken-Owned = init-Reach-Owned 4096 256 16 two_taken (14 ∷ 15 ∷ []) (omega arith) (
    next (next here (takes full_pool one_taken [] 15 takes-full_pool))
      (takes one_taken two_taken (15 ∷ []) 14 takes-one_taken))

abbrev two_lines : World
two_lines = record running { appctx = record running.appctx { bufpool = two_taken } }

abbrev written : ℕ → Cqe
written bid = record { user_data = encode_userdata 0 bid 5; res = pos 60; flags = 0 }

handle_all-order_example :
    (u : World) × (v : World) × (handle_all kernel (written 14 ∷ written 15 ∷ []) two_lines
      ≡ ok tt u)
    × (handle_all kernel (written 15 ∷ written 14 ∷ []) two_lines ≡ ok tt v)
    × (free_view u.appctx.bufpool ≡ free_view v.appctx.bufpool)
    × (u.history ≡ [])
    × (v.history ≡ [])
unfolding encode_userdata userdata_decode
handle_all-order_example =
    handle_all-order kernel 16 [] (written 14 ∷ written 15 ∷ []) (written 15 ∷ written 14 ∷ [])
      two_lines (refl, (refl, tt)) (refl, (refl, tt)) (λ bid. omega arith) two_taken-Owned

-- ===== src/Server/Placement.antt =====
-- Where in a ring cexe/main.c puts the buffers that it hands over. The last argument of
-- `io_uring_buf_ring_add` counts from the tail that `io_uring_buf_ring_advance` moves: the first buffer
-- after an advance goes to offset 0, the next to offset 1, and so on.
use iouring_http_server.Prelude.{
  ==_refl, ℕ, zero, suc, Option, none, some, true, ◌∷◌, ◌≡◌, refl, [], ◌==◌, if◌then◌else◌, ◌∙◌,
  Bool-cases, inl, inr, List,
}
use iouring_http_server.Prelude.Int.{pos}
use iouring_http_server.Pool.{Iovec}
use iouring_http_server.Pool.Ownership.{Owned}
use iouring_http_server.Machine.{
  Sqe, Call, History, Env, World, Bufring, Cqe, buf_ring_add, buf_ring_advance,
}
use iouring_http_server.Machine.Laws.{Ends, Ends-weaken}
use iouring_http_server.Machine.Leaves.{Ends-Leaves}
use iouring_http_server.Logging.{log_level_debug}
use iouring_http_server.Logging.Event.{NoBuffer}
use iouring_http_server.Appctx.{conn_buffer, appctx_handle_recvmsg}
use iouring_http_server.Appctx.Rings.{adds}
use iouring_http_server.Appctx.Receive.{
  buffer_number, validated, packet, appctx_handle_recvmsg-Ends,
}
use iouring_http_server.Appctx.Orderly.{is_quiet, Rule}
use iouring_http_server.Server.{start}
use iouring_http_server.Server.Setup.{StartFailed, HasMemory, HasRoom}
use iouring_http_server.Server.Start.{start-Kept}
use iouring_http_server.Server.Rounds.{start-Holds}

abbrev pub show : Option ℕ → ℕ → Option ℕ
show none count = none
show (some k) count = if count == k then some 0 else none

abbrev place : Option ℕ → ℕ → Option ℕ
place none offset = none
place (some k) offset = if offset == k then some (suc k) else none

-- How many buffers a ring has been handed since it last made buffers visible, if each went to the offset
-- that was next, and each time as many were made visible as had been handed over.
unfoldable pub placed : (br : ℕ) → History → Option ℕ
placed br [] = some 0
placed br (buf_ring_add other addr len bid mask offset ∷ h) =
    let before = placed br h in if other == br then place before offset else before
placed br (buf_ring_advance other count ∷ h) =
    let before = placed br h in if other == br then show before count else before
placed br (_ ∷ h) = placed br h

abbrev pub AllPlaced : History → Type 0
AllPlaced h = (br : ℕ) → placed br h ≡ some 0

placed-quiet :
    (c : Call) (h : History) (br : ℕ) → is_quiet c ≡ true → placed br (c ∷ h) ≡ placed br h
unfolding placed
placed-quiet (buf_ring_add other addr len bid mask offset) h br q = cc
placed-quiet (buf_ring_advance other count) h br q = cc
placed-quiet _ h br q = refl

placed-adds :
    (other mask base entry_size n : ℕ) (h : History) (br : ℕ)
    → AllPlaced h
    → placed br (adds other mask base entry_size n h) ≡ (if other == br then some n else some 0)
unfolding placed
placed-adds other mask base entry_size zero h br v = elim (Bool-cases (other == br)) [
  | inl same ↦ rw (v br, same) refl
  | inr apart ↦ rw (v br, apart) refl
]
placed-adds other mask base entry_size (suc n) h br v =
    let before = placed-adds other mask base entry_size n h br v in
    elim (Bool-cases (other == br)) [
      | inl same ↦ simp (before, same, ==_refl n) refl
      | inr apart ↦ rw (before, apart) refl
    ]

rule-AllPlaced : (env : Env) → Rule env AllPlaced
unfolding placed
rule-AllPlaced env = record {
  quiet = λ c h q v br. placed-quiet c h br q ∙ v br;
  accepting = λ h sqe fd tag free v br. v br;
  writing = λ h sqe fd addr nbytes offset buf_index tag free v br. v br;
  filling = λ h other mask base entry_size entries v br. elim (Bool-cases (other == br)) [
    | inl same ↦
        rw (placed-adds other mask base entry_size entries h br v, same, ==_refl entries) refl
    | inr apart ↦ rw (placed-adds other mask base entry_size entries h br v, apart) refl
  ];
}

-- What `main` does before the loop, from the first call of the program on, where `malloc` always gives
-- memory and `io_uring_get_sqe` a free entry: it exits only for a reason that `StartFailed` lists, and
-- else has put each buffer of each ring to the offset that was next, and made all of them visible.
pub start-AllPlaced :
    (env : Env)
    → HasMemory env
    → HasRoom env
    → (w : World) → w.history ≡ []
    → Ends (λ _ w'. (br : ℕ) → placed br w'.history ≡ some 0) (StartFailed env) (start env w)
unfolding placed
start-AllPlaced env memory room w fresh =
    Ends-weaken
      (Ends-Leaves (start-Kept env memory room w fresh)
        (start-Holds env AllPlaced (rule-AllPlaced env) w (λ br. rw fresh refl)))
      (λ u w' both. both.1) (λ w' q. q)

-- With each log buffer free or held, a ring that always has a free entry, a packet in a buffer of the
-- connection ring whose header is valid, and a ring in which every buffer was put to its place: the
-- handler of the packet exits only where logging does; else it has put the buffer to the place that
-- was next just where the buffer's number is 0, since it gives that number as the offset.
pub appctx_handle_recvmsg-placed :
    (env : Env) (cqe : Cqe) (msglen : ℕ) (ring : Bufring) (iov : Iovec) (w : World) (n : ℕ)
    (held : List ℕ)
    → Owned n w.appctx.bufpool held
    → cqe.res ≡ pos msglen
    → conn_buffer w.appctx (buffer_number env cqe msglen ring iov w) ≡ some (ring, iov)
    → env.valid (validated env cqe msglen ring iov w).history ≡ true
    → ((h : History) → (sqe : Sqe) × (env.sqe h ≡ some sqe))
    → placed ring.br w.history ≡ some 0
    → Ends
        (λ _ w'.
          placed ring.br w'.history
          ≡ (if buffer_number env cqe msglen ring iov w == 0 then some 0 else none))
        (NoBuffer env log_level_debug
          (packet env cqe msglen ring iov w)
          (validated env cqe msglen ring iov w)
          n
          held)
        (appctx_handle_recvmsg env cqe w)
unfolding placed
appctx_handle_recvmsg-placed env cqe msglen ring iov w n held v res found valid free before =
    let number = buffer_number env cqe msglen ring iov w in
    Ends-weaken (appctx_handle_recvmsg-Ends env cqe msglen ring iov w n held v res found valid free)
      (λ u w' a. elim (Bool-cases (number == 0)) [
        | inl first ↦ simp (a.result, a.logged.calls, before, ==_refl ring.br, first) refl
        | inr later ↦ simp (a.result, a.logged.calls, before, ==_refl ring.br, later) refl
      ])
      (λ w' q. q)

-- ===== src/Server/Visible.antt =====
-- The buffers that cexe/main.c hands to the rings, against those that it makes visible.
use iouring_http_server.Prelude.{
  ==_refl, ℕ, zero, suc, Option, none, some, true, ◌∷◌, [], ◌==◌, ◌≡◌, refl, if◌then◌else◌, ◌⊎◌,
  ◌∙◌, Bool-cases, inl, inr,
}
use iouring_http_server.Machine.{
  Cqe, wait_cqe, Call, History, Env, World, buf_ring_add, buf_ring_advance,
}
use iouring_http_server.Machine.Laws.{Ends}
use iouring_http_server.Machine.Leaves.{Ends-Leaves}
use iouring_http_server.Appctx.Rings.{adds}
use iouring_http_server.Appctx.Orderly.{is_quiet, Rule}
use iouring_http_server.Server.{main}
use iouring_http_server.Server.Loop.{Honest, Stopped}
use iouring_http_server.Server.Handover.{AllOwn}
use iouring_http_server.Server.Placement.{show}
use iouring_http_server.Server.Setup.{StartFailed, HasMemory}
use iouring_http_server.Server.Start.{main-AllOwn}
use iouring_http_server.Server.Rounds.{CompletionRule, RoundRule, main-Holds}

abbrev hand_over : Option ℕ → Option ℕ
hand_over none = none
hand_over (some k) = some (suc k)

-- How many buffers a ring has been handed since it last made buffers visible, if each time it made as
-- many visible as it had been handed.
unfoldable pub hidden : (br : ℕ) → History → Option ℕ
hidden br [] = some 0
hidden br (buf_ring_add other addr len bid mask offset ∷ h) =
    let before = hidden br h in if other == br then hand_over before else before
hidden br (buf_ring_advance other count ∷ h) =
    let before = hidden br h in if other == br then show before count else before
hidden br (_ ∷ h) = hidden br h

-- No ring has a buffer that it does not show.
abbrev pub AllVisible : History → Type 0
AllVisible h = (br : ℕ) → hidden br h ≡ some 0

hidden-quiet :
    (c : Call) (h : History) (br : ℕ) → is_quiet c ≡ true → hidden br (c ∷ h) ≡ hidden br h
unfolding hidden
hidden-quiet (buf_ring_add other addr len bid mask offset) h br q = cc
hidden-quiet (buf_ring_advance other count) h br q = cc
hidden-quiet _ h br q = refl

hidden-adds :
    (other mask base entry_size n : ℕ) (h : History) (br : ℕ)
    → AllVisible h
    → hidden br (adds other mask base entry_size n h) ≡ (if other == br then some n else some 0)
unfolding hidden
hidden-adds other mask base entry_size zero h br v = elim (Bool-cases (other == br)) [
  | inl same ↦ rw (v br, same) refl
  | inr apart ↦ rw (v br, apart) refl
]
hidden-adds other mask base entry_size (suc n) h br v =
    let before = hidden-adds other mask base entry_size n h br v in
    elim (Bool-cases (other == br)) [
      | inl same ↦ rw (before, same) refl
      | inr apart ↦ rw (before, apart) refl
    ]

rule-AllVisible : (env : Env) → Rule env AllVisible
unfolding hidden
rule-AllVisible env = record {
  quiet = λ c h q v br. hidden-quiet c h br q ∙ v br;
  accepting = λ h sqe fd tag free v br. v br;
  writing = λ h sqe fd addr nbytes offset buf_index tag free v br. v br;
  filling = λ h other mask base entry_size entries v br. elim (Bool-cases (other == br)) [
    | inl same ↦
        rw (hidden-adds other mask base entry_size entries h br v, same, ==_refl entries) refl
    | inr apart ↦ rw (hidden-adds other mask base entry_size entries h br v, apart) refl
  ];
}

completion-AllVisible : (env : Env) (cqe : Cqe) → CompletionRule env cqe AllVisible AllVisible
unfolding hidden
completion-AllVisible env cqe = record {
  before = rule-AllVisible env;
  after = rule-AllVisible env;
  recycling = λ h other addr len bid mask offset v br. elim (Bool-cases (other == br)) [
    | inl same ↦ rw (v br, same) refl
    | inr apart ↦ rw (v br, apart) refl
  ];
  receiving = λ e h sqe flags group tag free v br. v br;
  sending = λ e h sqe text len tag free v br. v br;
  passing = λ not_accept not_recvmsg h v. v;
}

round-AllVisible :
    (env : Env) → RoundRule env AllVisible (λ _ h. AllVisible h) (λ _ h. AllVisible h)
unfolding hidden
round-AllVisible env = record {
  outside = rule-AllVisible env;
  handling = λ h v. completion-AllVisible env (env.cqe (wait_cqe ∷ h));
  waiting = λ h v br. v br;
  seeing = λ h h' v v' br. v' br;
}

-- The whole program, from its first call on, where `malloc` always gives memory and the kernel is
-- honest: however many rounds the loop runs, it exits only for a reason that `StartFailed` or `Stopped`
-- lists; else, after those rounds, every buffer that was handed to a ring is one of the ring's own,
-- with its own address, length and number and the ring's mask, and each time that a ring made buffers
-- visible, it made as many visible as it had been handed since the time before, and none is left over.
-- At which offset a buffer is handed over is left open.
pub main-AllVisible :
    (env : Env)
    → HasMemory env
    → Honest env 16
    → (rounds : ℕ) (w : World) → w.history ≡ []
    → Ends
        (λ _ w'.
          AllOwn env w'.appctx.bufrings w'.history × ((br : ℕ) → hidden br w'.history ≡ some 0))
        (λ w'. StartFailed env w' ⊎ Stopped env w')
        (main env rounds w)
unfolding hidden
main-AllVisible env memory honest rounds w fresh =
    Ends-Leaves (main-AllOwn env memory honest rounds w fresh) (
      main-Holds env AllVisible (λ _ h. AllVisible h) (λ _ h. AllVisible h) (round-AllVisible env)
        rounds w (λ br. rw fresh refl))

-- ===== src/Server/Submissions.antt =====
-- The entries of the submission queue and the completions that cexe/main.c takes, as a protocol.
use iouring_http_server.Prelude.{
  ==_refl, ℕ, Option, none, some, Bool, true, false, ◌∷◌, [], ◌==◌, ◌≡◌, refl, if◌then◌else◌, zero,
  suc, ◌⊎◌,
}
use iouring_http_server.Machine.{
  Cqe, Sqe, Call, History, Env, World, get_sqe, wait_cqe, cqe_seen, prep_multishot_accept,
  prep_recvmsg_multishot, prep_send_zc, prep_write_fixed, prep_read_fixed, or_flags, set_buf_group,
  set_data64,
}
use iouring_http_server.Machine.Laws.{Ends, Ends-weaken}
use iouring_http_server.Machine.Leaves.{Ends-Leaves}
use iouring_http_server.Appctx.Rings.{adds}
use iouring_http_server.Appctx.Orderly.{is_quiet, Rule}
use iouring_http_server.Server.{main}
use iouring_http_server.Server.Loop.{Honest, Stopped}
use iouring_http_server.Server.Setup.{StartFailed, HasMemory}
use iouring_http_server.Server.Start.{main-Kept}
use iouring_http_server.Server.Rounds.{CompletionRule, RoundRule, main-Holds}

-- The entry in hand: none; one that has not been prepared, which still holds what it was last used
-- for; or one that has.
pub data Entry : Type 0 where
  no_entry : Entry
  blank prepared : Sqe → Entry

-- Whether a completion is in hand, and the entry in hand.
abbrev pub Phase : Type 0
Phase = Bool × Entry

abbrev prepare : Sqe → Phase → Option Phase
prepare sqe (taken, blank mine) = if sqe == mine then some (taken, prepared mine) else none
prepare sqe (taken, _) = none

abbrev adjust : Sqe → Phase → Option Phase
adjust sqe (taken, prepared mine) = if sqe == mine then some (taken, prepared mine) else none
adjust sqe (taken, _) = none

abbrev finish : Sqe → Phase → Option Phase
finish sqe (taken, prepared mine) = if sqe == mine then some (taken, no_entry) else none
finish sqe (taken, _) = none

abbrev take_entry : Option Sqe → Phase → Option Phase
take_entry none (taken, no_entry) = some (taken, no_entry)
take_entry (some sqe) (taken, no_entry) = some (taken, blank sqe)
take_entry o (taken, _) = none

-- A completion is taken only when none is in hand, and marked as seen only when one is; an entry is
-- prepared first, then perhaps adjusted, then given its `user_data`, and nothing else is done in
-- between.
abbrev step : Env → Call → History → Phase → Option Phase
step env get_sqe h p = take_entry (env.sqe (get_sqe ∷ h)) p
step env (prep_multishot_accept sqe fd) h p = prepare sqe p
step env (prep_recvmsg_multishot sqe fd) h p = prepare sqe p
step env (prep_send_zc sqe fd text len) h p = prepare sqe p
step env (prep_write_fixed sqe fd addr nbytes offset buf_index) h p = prepare sqe p
step env (prep_read_fixed sqe fd addr nbytes offset buf_index) h p = prepare sqe p
step env (or_flags sqe flags) h p = adjust sqe p
step env (set_buf_group sqe group) h p = adjust sqe p
step env (set_data64 sqe tag) h p = finish sqe p
step env wait_cqe h (false, no_entry) = some (true, no_entry)
step env wait_cqe h p = none
step env cqe_seen h (true, no_entry) = some (false, no_entry)
step env cqe_seen h p = none
step env _ h (taken, no_entry) = some (taken, no_entry)
step env _ h p = none

abbrev step_from : Env → Call → History → Option Phase → Option Phase
step_from env c h none = none
step_from env c h (some p) = step env c h p

-- Where the calls so far have led, if each was in its place.
unfoldable pub phase : Env → History → Option Phase
phase env [] = some (false, no_entry)
phase env (c ∷ h) = step_from env c h (phase env h)

abbrev pub Rests : Env → Bool → History → Type 0
Rests env taken h = phase env h ≡ some (taken, no_entry)

module _ (env : Env) (taken : Bool) where
  step-quiet :
      (c : Call) (h : History)
      → is_quiet c ≡ true
      → step env c h (taken, no_entry) ≡ some (taken, no_entry)
  step-quiet get_sqe h q = cc
  step-quiet (prep_multishot_accept sqe fd) h q = cc
  step-quiet (prep_recvmsg_multishot sqe fd) h q = cc
  step-quiet (prep_send_zc sqe fd text len) h q = cc
  step-quiet (prep_write_fixed sqe fd addr nbytes offset buf_index) h q = cc
  step-quiet (prep_read_fixed sqe fd addr nbytes offset buf_index) h q = cc
  step-quiet (or_flags sqe flags) h q = cc
  step-quiet (set_buf_group sqe group) h q = cc
  step-quiet (set_data64 sqe tag) h q = cc
  step-quiet wait_cqe h q = cc
  step-quiet cqe_seen h q = cc
  step-quiet _ h q = refl

  adds-Rests :
      (br mask base entry_size n : ℕ) (h : History)
      → Rests env taken h
      → Rests env taken (adds br mask base entry_size n h)
  unfolding phase
  adds-Rests br mask base entry_size zero h v = v
  adds-Rests br mask base entry_size (suc n) h v =
      rw (adds-Rests br mask base entry_size n h v) refl

  rule-Rests : Rule env (Rests env taken)
  unfolding phase
  rule-Rests = record {
    quiet = λ c h q v. rw v (step-quiet c h q);
    accepting = λ h sqe fd tag free v. simp (v, free, ==_refl sqe) refl;
    writing = λ h sqe fd addr nbytes offset buf_index tag free v. simp (v, free, ==_refl sqe) refl;
    filling = λ h br mask base entry_size entries v.
        rw (adds-Rests br mask base entry_size entries h v) refl;
  }

completion-Rests :
    (env : Env) (cqe : Cqe) → CompletionRule env cqe (Rests env true) (Rests env true)
unfolding phase
completion-Rests env cqe = record {
  before = rule-Rests env true;
  after = rule-Rests env true;
  recycling = λ h br addr len bid mask offset v. rw v refl;
  receiving = λ e h sqe flags group tag free v. simp (v, free, ==_refl sqe) refl;
  sending = λ e h sqe text len tag free v. simp (v, free, ==_refl sqe) refl;
  passing = λ not_accept not_recvmsg h v. v;
}

round-Rests :
    (env : Env)
    → RoundRule env (Rests env false) (λ _ h. Rests env true h) (λ _ h. Rests env true h)
unfolding phase
round-Rests env = record {
  outside = rule-Rests env false;
  handling = λ h v. completion-Rests env (env.cqe (wait_cqe ∷ h));
  waiting = λ h v. rw v refl;
  seeing = λ h h' v v'. rw v' refl;
}

-- The whole program, from its first call on, where `malloc` always gives memory and the kernel is
-- honest: however many rounds the loop runs, it exits only for a reason that `StartFailed` or `Stopped`
-- lists; else, after those rounds, each of its calls was in its place: each completion that it took
-- was marked as seen before the next was taken, and each submission entry that it got was prepared
-- first and then given its `user_data`, before it asked for another, submitted or waited.
pub main-Rests :
    (env : Env)
    → HasMemory env
    → Honest env 16
    → (rounds : ℕ) (w : World) → w.history ≡ []
    → Ends
        (λ _ w'. phase env w'.history ≡ some (false, no_entry))
        (λ w'. StartFailed env w' ⊎ Stopped env w')
        (main env rounds w)
unfolding phase
main-Rests env memory honest rounds w fresh =
    Ends-weaken
      (Ends-Leaves (main-Kept env memory honest rounds w fresh) (
        main-Holds env (Rests env false) (λ _ h. Rests env true h) (λ _ h. Rests env true h)
          (round-Rests env) rounds w (rw fresh refl)))
      (λ u w' both. both.1) (λ w' q. q)

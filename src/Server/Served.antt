-- ===== src/Server/Served.antt =====
-- The receptions and answers of cexe/main.c, against the connections and packets that it is handed.
use iouring_http_server.Prelude.{
  ℕ, zero, suc, true, false, List, ◌∷◌, [], ◌==◌, ◌≡◌, refl, if◌then◌else◌, ◌⊎◌, ap, sym, arith,
  ◌∙◌,
}
use iouring_http_server.Prelude.Int.{ℤ}
use iouring_http_server.Userdata.{op_accept, op_recvmsg, opcode_value, userdata_decode}
use iouring_http_server.Machine.{
  Call, History, Env, World, wait_cqe, prep_recvmsg_multishot, prep_send_zc,
}
use iouring_http_server.Machine.Laws.{Ends, Ends-weaken}
use iouring_http_server.Machine.Leaves.{Ends-Leaves}
use iouring_http_server.Appctx.Rings.{adds}
use iouring_http_server.Appctx.Orderly.{is_quiet, Rule}
use iouring_http_server.Server.{main}
use iouring_http_server.Server.Loop.{Honest, Stopped}
use iouring_http_server.Server.Setup.{StartFailed, HasMemory}
use iouring_http_server.Server.Start.{main-Kept}
use iouring_http_server.Server.Rounds.{CompletionRule, RoundRule, main-Holds}

module _ (env : Env) where
  abbrev tag_of : History → ℕ
  tag_of h = (userdata_decode (env.cqe h).user_data).op

  -- The connections that the kernel has handed over, the latest first.
  unfoldable pub connections : History → List ℤ
  connections [] = []
  connections (wait_cqe ∷ h) =
      let before = connections h in
      if tag_of (wait_cqe ∷ h) == opcode_value op_accept
      then (env.cqe (wait_cqe ∷ h)).res ∷ before
      else before
  connections (_ ∷ h) = connections h

  -- The descriptors from which it has handed over packets.
  unfoldable pub requests : History → List ℕ
  requests [] = []
  requests (wait_cqe ∷ h) =
      let before = requests h in
      if tag_of (wait_cqe ∷ h) == opcode_value op_recvmsg
      then (userdata_decode (env.cqe (wait_cqe ∷ h)).user_data).fd ∷ before
      else before
  requests (_ ∷ h) = requests h

-- The descriptors on which receptions have been prepared, and to which answers have been.
unfoldable pub receptions : History → List ℤ
receptions [] = []
receptions (prep_recvmsg_multishot sqe fd ∷ h) = fd ∷ receptions h
receptions (_ ∷ h) = receptions h

unfoldable pub answers : History → List ℕ
answers [] = []
answers (prep_send_zc sqe fd text len ∷ h) = fd ∷ answers h
answers (_ ∷ h) = answers h

abbrev Ledger : Env → (C R : List ℤ) (Q A : List ℕ) → History → Type 0
Ledger env C R Q A h =
    (connections env h ≡ C) × (receptions h ≡ R) × (requests env h ≡ Q) × (answers h ≡ A)

module _ (env : Env) (C R : List ℤ) (Q A : List ℕ) where
  Ledger-quiet :
      (c : Call) (h : History)
      → is_quiet c ≡ true
      → Ledger env C R Q A h
      → Ledger env C R Q A (c ∷ h)
  unfolding connections receptions requests answers
  Ledger-quiet wait_cqe h q v = cc
  Ledger-quiet (prep_recvmsg_multishot sqe fd) h q v = cc
  Ledger-quiet (prep_send_zc sqe fd text len) h q v = cc
  Ledger-quiet _ h q v = v

  adds-Ledger :
      (br mask base entry_size n : ℕ) (h : History)
      → Ledger env C R Q A h
      → Ledger env C R Q A (adds br mask base entry_size n h)
  unfolding connections receptions requests answers
  adds-Ledger br mask base entry_size zero h v = v
  adds-Ledger br mask base entry_size (suc n) h v = adds-Ledger br mask base entry_size n h v

  rule-Ledger : Rule env (Ledger env C R Q A)
  unfolding connections receptions requests answers
  rule-Ledger = record {
    quiet = Ledger-quiet;
    accepting = λ h sqe fd tag free v. v;
    writing = λ h sqe fd addr nbytes offset buf_index tag free v. v;
    filling =
        λ h br mask base entry_size entries v. adds-Ledger br mask base entry_size entries h v;
  }

-- Each connection has its reception and each packet its answer, in their order.
abbrev pub Served : Env → History → Type 0
Served env h = (receptions h ≡ connections env h) × (answers h ≡ requests env h)

module _ (env : Env) where
  Ledger-Served : (C : List ℤ) (Q : List ℕ) (h : History) → Ledger env C C Q Q h → Served env h
  Ledger-Served C Q h (c, r, q, a) = (r ∙ sym c, a ∙ sym q)

  rule-Served : Rule env (Served env)
  unfolding connections receptions requests answers
  rule-Served = record {
    quiet = λ c h q (r, a). Ledger-Served _ _ (c ∷ h) (
        Ledger-quiet env (connections env h) (connections env h) (requests env h) (requests env h) c
          h q (refl, r, refl, a));
    accepting = λ h sqe fd tag free v. v;
    writing = λ h sqe fd addr nbytes offset buf_index tag free v. v;
    filling = λ h br mask base entry_size entries (r, a).
        Ledger-Served _ _ (adds br mask base entry_size entries h) (
          adds-Ledger env (connections env h) (connections env h) (requests env h) (requests env h)
            br mask base entry_size entries h (refl, r, refl, a));
  }

  -- While a completion is handled that was taken after `h`, and once it has been.
  abbrev During : History → History → Type 0
  During h =
      Ledger env (connections env (wait_cqe ∷ h)) (connections env h) (requests env (wait_cqe ∷ h))
        (requests env h)

  abbrev After : History → History → Type 0
  After h =
      Ledger env (connections env (wait_cqe ∷ h)) (connections env (wait_cqe ∷ h))
        (requests env (wait_cqe ∷ h)) (requests env (wait_cqe ∷ h))

  -- What the completion adds to the two lists of what is asked for.
  connections-wait :
      (h : History)
      → (tag_of env (wait_cqe ∷ h) == 2) ≡ true
      → connections env (wait_cqe ∷ h) ≡ (env.cqe (wait_cqe ∷ h)).res ∷ connections env h
  unfolding connections
  connections-wait h e = rw e refl

  connections-other :
      (h : History)
      → (tag_of env (wait_cqe ∷ h) == 2) ≡ false
      → connections env (wait_cqe ∷ h) ≡ connections env h
  unfolding connections
  connections-other h e = rw e refl

  requests-wait :
      (h : History)
      → (tag_of env (wait_cqe ∷ h) == 3) ≡ true
      → requests env (wait_cqe ∷ h)
        ≡ (userdata_decode (env.cqe (wait_cqe ∷ h)).user_data).fd ∷ requests env h
  unfolding requests
  requests-wait h e = rw e refl

  requests-other :
      (h : History)
      → (tag_of env (wait_cqe ∷ h) == 3) ≡ false
      → requests env (wait_cqe ∷ h) ≡ requests env h
  unfolding requests
  requests-other h e = rw e refl

  two_tags : (n : ℕ) → (n == 2) ≡ true → (n == 3) ≡ false
  two_tags n e = ground arith

  completion-Served :
      (h : History) → CompletionRule env (env.cqe (wait_cqe ∷ h)) (During h) (After h)
  unfolding connections receptions requests answers
  completion-Served h = record {
    before = rule-Ledger env _ _ _ _;
    after = rule-Ledger env _ _ _ _;
    recycling = λ h' br addr len bid mask offset v. v;
    receiving = λ e h' sqe flags group tag free (c, r, q, a). (
      c,
      ap (λ fds. (env.cqe (wait_cqe ∷ h)).res ∷ fds) r ∙ sym (connections-wait h e),
      q,
      a ∙ sym (requests-other h (two_tags _ e)),
    );
    sending = λ e h' sqe text len tag free (c, r, q, a). (
      c,
      r ∙ sym (connections-other h (ground arith)),
      q,
      ap (λ fds. (userdata_decode (env.cqe (wait_cqe ∷ h)).user_data).fd ∷ fds) a
          ∙ sym (requests-wait h e),
    );
    passing = λ not_accept not_recvmsg h' (c, r, q, a).
        (c, r ∙ sym (connections-other h not_accept), q, a ∙ sym (requests-other h not_recvmsg));
  }

  round-Served : RoundRule env (Served env) During After
  unfolding connections receptions requests answers
  round-Served = record {
    outside = rule-Served;
    handling = λ h v. completion-Served h;
    waiting = λ h (r, a). (refl, r, refl, a);
    seeing = λ h h' v v'. Ledger-Served _ _ h' v';
  }

-- The whole program, from its first call on, where `malloc` always gives memory and the kernel is
-- honest: however many rounds the loop runs, it exits only for a reason that `StartFailed` or `Stopped`
-- lists; else, after those rounds, it has prepared one reception for each connection that it was handed
-- and one answer for each packet, to the descriptor that the packet's `user_data` names, in the order
-- of the connections and of the packets, and no other.
pub main-Served :
    (env : Env)
    → HasMemory env
    → Honest env 16
    → (rounds : ℕ) (w : World) → w.history ≡ []
    → Ends
        (λ _ w'.
          (receptions w'.history ≡ connections env w'.history)
          × (answers w'.history ≡ requests env w'.history))
        (λ w'. StartFailed env w' ⊎ Stopped env w')
        (main env rounds w)
unfolding connections receptions requests answers
main-Served env memory honest rounds w fresh =
    Ends-weaken
      (Ends-Leaves (main-Kept env memory honest rounds w fresh) (
        main-Holds env (Served env) (During env) (After env) (round-Served env) rounds w
          (rw fresh (refl, refl))))
      (λ u w' both. both.1) (λ w' q. q)

-- ===== src/Server/Faults.antt =====
-- A new connection that cexe/main.c cannot handle.
use iouring_http_server.Prelude.{
  ℕ, ◌≡◌, ◌↔◌, ◌⊎◌, refl, none, some, true, false, List, ◌∷◌, inl, inr, Bool-cases, Option-cases,
}
use iouring_http_server.Prelude.Int.{ℤ, pos, negsuc, neg, is_negative}
use iouring_http_server.Userdata.{op_accept, opcode_value, userdata_decode}
use iouring_http_server.Pool.Ownership.{Owned}
use iouring_http_server.Machine.{Sqe, Env, World, undefined, get_sqe, wait_cqe, cqe_seen, submit}
use iouring_http_server.Machine.Laws.{Ends, returns, aborts, Ends-bind, Ends-weaken, Ends-defined}
use iouring_http_server.Logging.{format_inet_addr_from_sockfd}
use iouring_http_server.Appctx.{appctx_handle_accept}
use iouring_http_server.Appctx.Accept.{watching, appctx_handle_accept-Ends}
use iouring_http_server.Server.{handle_completion, event_round}
use iouring_http_server.Server.Loop.{zero_status}

neg_of_negative : (z : ℤ) → is_negative z ≡ true → is_negative (neg z) ≡ false
neg_of_negative (pos n) h = cc
neg_of_negative (negsuc n) h = refl

module _ (env : Env) (w : World) (n : ℕ) (held : List ℕ) (fd : ℕ)
    (owned : Owned n w.appctx.bufpool held)
    (waited : is_negative (env.status (wait_cqe ∷ w.history)) ≡ false)
    (accept : (userdata_decode (env.cqe (wait_cqe ∷ w.history)).user_data).op
      ≡ opcode_value op_accept)
    (res : (env.cqe (wait_cqe ∷ w.history)).res ≡ pos fd) where
  abbrev woken : World
  woken = record w { history = wait_cqe ∷ w.history }

  no_entry-undefined :
      env.sqe (get_sqe ∷ wait_cqe ∷ w.history) ≡ none → event_round env w ≡ undefined
  unfolding event_round handle_completion appctx_handle_accept
  no_entry-undefined full = rw (waited, accept) (rw res (rw full refl))

  no_name-undefined :
      (sqe : Sqe)
      → env.sqe (get_sqe ∷ wait_cqe ∷ w.history) ≡ some sqe
      → is_negative (env.status (watching env fd woken sqe)) ≡ true
      → event_round env w ≡ undefined
  unfolding event_round handle_completion appctx_handle_accept format_inet_addr_from_sockfd
  no_name-undefined sqe free bad =
      rw (waited, accept) (rw res (rw free (rw (neg_of_negative _ bad) (rw bad refl))))

  named-defined :
      (sqe : Sqe)
      → env.sqe (get_sqe ∷ wait_cqe ∷ w.history) ≡ some sqe
      → is_negative (env.status (watching env fd woken sqe)) ≡ false
      → Ends (λ _ _. Unit {0}) (λ _. Unit {0}) (event_round env w)
  unfolding event_round handle_completion appctx_handle_accept format_inet_addr_from_sockfd
  named-defined sqe free fine =
      elim (Bool-cases (is_negative (neg (env.status (watching env fd woken sqe))))) [
        | inl odd ↦ rw (waited, accept) (rw res (rw free (rw odd (aborts tt))))
        | inr even ↦
            rw (waited, accept)
              (Ends-bind
                (Ends-weaken
                  (appctx_handle_accept-Ends env fd woken n held sqe
                    (env.cqe (wait_cqe ∷ w.history)) owned res free (zero_status _ fine even))
                  (λ u w' l. tt) (λ w' q. tt))
                λ u w' l.
                  elim (Bool-cases (is_negative (env.status (submit ∷ cqe_seen ∷ w'.history)))) [
                    | inl bad ↦ rw bad (aborts tt)
                    | inr good ↦ rw good (returns tt)
                  ])
      ]

  -- With each log buffer free or held, when a wait that did not fail brings a new connection: the round
  -- meets undefined behaviour exactly where the ring has no free entry, whose NULL the handler uses, or
  -- `getpeername` fails, which the assertion on `-err` lets pass, so that an address is formatted that
  -- was never set.
  pub event_round-undefined : (event_round env w ≡ undefined) ↔ (
      (env.sqe (get_sqe ∷ wait_cqe ∷ w.history) ≡ none)
      ⊎ ((sqe : Sqe) × (env.sqe (get_sqe ∷ wait_cqe ∷ w.history) ≡ some sqe)
          × (is_negative (env.status (watching env fd woken sqe)) ≡ true)))
  event_round-undefined = (
    λ e. elim (Option-cases (env.sqe (get_sqe ∷ wait_cqe ∷ w.history))) [
      | inl full ↦ inl full
      | inr (sqe, free) ↦ elim (Bool-cases (is_negative (env.status (watching env fd woken sqe)))) [
        | inl bad ↦ inr (sqe, free, bad)
        | inr fine ↦ absurd (Ends-defined (named-defined sqe free fine) e)
      ]
    ],
    λ wrong. elim wrong [
      | inl full ↦ no_entry-undefined full
      | inr (sqe, free, bad) ↦ no_name-undefined sqe free bad
    ],
  )

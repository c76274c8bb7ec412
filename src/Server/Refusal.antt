-- ===== src/Server/Refusal.antt =====
-- What a completion with an error does to cexe/main.c.
use iouring_http_server.Prelude.{◌≡◌, refl, true, false, ◌⊎◌, inl, inr, ◌∷◌}
use iouring_http_server.Prelude.Int.{is_negative}
use iouring_http_server.Userdata.{op_accept, op_recvmsg, opcode_value, userdata_decode}
use iouring_http_server.Machine.{Env, World, exits, assert_positive, wait_cqe}
use iouring_http_server.Appctx.{appctx_handle_accept, appctx_handle_recvmsg}
use iouring_http_server.Server.{handle_completion, event_round}

-- When the completion of a wait that did not fail is tagged as a new connection or a packet and carries
-- an error, the round ends the whole server, in the world that the wait left: nothing is logged,
-- answered or marked as seen, whichever of the peers the error is about.
pub event_round-refused :
    (env : Env) (w : World)
    → is_negative (env.status (wait_cqe ∷ w.history)) ≡ false
    → ((userdata_decode (env.cqe (wait_cqe ∷ w.history)).user_data).op ≡ opcode_value op_accept)
      ⊎ ((userdata_decode (env.cqe (wait_cqe ∷ w.history)).user_data).op ≡ opcode_value op_recvmsg)
    → is_negative (env.cqe (wait_cqe ∷ w.history)).res ≡ true
    → event_round env w ≡ exits (record w { history = wait_cqe ∷ w.history })
unfolding event_round handle_completion appctx_handle_accept appctx_handle_recvmsg assert_positive
event_round-refused env w waited (inl accept) refused = simp (waited, accept, refused) refl
event_round-refused env w waited (inr receive) refused = simp (waited, receive, refused) refl

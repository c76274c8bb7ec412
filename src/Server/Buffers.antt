-- ===== src/Server/Buffers.antt =====
-- The log buffers over the event loop of cexe/main.c: what the completions do to them.
use iouring_http_server.Prelude.{ℕ, ◌%◌, ◌^◌, ◌<◌, ◌≤◌, ◌≡◌, ◌≢◌, refl, List, ◌∷◌, ◌++◌, arith}
use iouring_http_server.Userdata.{
  op_accept, op_recvmsg, op_write_fixed, opcode_value, encode_userdata, userdata_decode,
}
use iouring_http_server.Userdata.RoundTrip.{decode-encode}
use iouring_http_server.Pool.{Bufpool}
use iouring_http_server.Pool.Ownership.{Owned, put-Owned, times-append}
use iouring_http_server.Machine.{Env, World, Cqe, ok}
use iouring_http_server.Machine.Laws.{Ends, returns}
use iouring_http_server.Server.{put_buffer, handle_completion}

pub held_below :
    (n : ℕ) (p : Bufpool) (before after : List ℕ) (x : ℕ) → Owned n p (before ++ x ∷ after) → x < n
held_below n p before after x v =
    let split = times-append x before (x ∷ after) in ground (arith, v.once x)

-- The world after `put_buffer`.
abbrev pub Returned : ℕ → List ℕ → World → World → Type 0
Returned n held w w' =
    Owned n w'.appctx.bufpool held
    × (w'.appctx.bufrings ≡ w.appctx.bufrings)
    × (w'.fmt_addr ≡ w.fmt_addr)
    × (w'.history ≡ w.history)

-- A completion with OP_WRITE_FIXED gives back just the buffer that its `user_data` names.
pub handle_completion-put :
    (env : Env) (w : World) (n : ℕ) (before after : List ℕ) (cqe : Cqe)
    → Owned n w.appctx.bufpool (before ++ (userdata_decode cqe.user_data).fd % 2 ^ 16 ∷ after)
    → (userdata_decode cqe.user_data).op ≡ opcode_value op_write_fixed
    → Ends (λ _ w'. Returned n (before ++ after) w w') (λ _. ⊥) (handle_completion env cqe w)
unfolding handle_completion
handle_completion-put env w n before after cqe v op =
    let (q, e, owned) =
      put-Owned n w.appctx.bufpool before after ((userdata_decode cqe.user_data).fd % 2 ^ 16) v in
    rw op (rw (e, put_buffer) (returns (owned, refl, refl, refl)))

-- With at most 2 ^ 16 buffers, each free or held, the completion of a log line's write, recognised
-- by its `user_data`, gives back just the held buffer that the line was written from, and calls
-- nothing.
pub handle_completion-write_fixed :
    (env : Env) (w : World) (n : ℕ) (before after : List ℕ) (x padding : ℕ) (cqe : Cqe)
    → n ≤ 2 ^ 16
    → Owned n w.appctx.bufpool (before ++ x ∷ after)
    → cqe.user_data ≡ encode_userdata padding x (opcode_value op_write_fixed)
    → Ends (λ _ w'. Returned n (before ++ after) w w') (λ _. ⊥) (handle_completion env cqe w)
unfolding handle_completion
handle_completion-write_fixed env w n before after x padding cqe small v named =
    let below = held_below n w.appctx.bufpool before after x v in
    let (q, e, owned) = put-Owned n w.appctx.bufpool before after x v in
    let same : x % 2 ^ 16 % 2 ^ 16 ≡ x = omega arith in
    rw (named, decode-encode padding x 5)
      (rw same (rw (e, put_buffer) (returns (owned, refl, refl, refl))))

-- A completion whose tag is none of OP_WRITE_FIXED, OP_ACCEPT and OP_RECVMSG, the end of a send
-- included, changes nothing and calls nothing.
pub handle_completion-other :
    (env : Env) (w : World) (cqe : Cqe)
    → (userdata_decode cqe.user_data).op ≢ opcode_value op_write_fixed
    → (userdata_decode cqe.user_data).op ≢ opcode_value op_accept
    → (userdata_decode cqe.user_data).op ≢ opcode_value op_recvmsg
    → handle_completion env cqe w ≡ ok tt w
unfolding handle_completion
handle_completion-other env w cqe a b c = ground arith

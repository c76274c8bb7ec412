-- ===== src/Server/InFlight.antt =====
-- Which log buffers the kernel still writes from, read off the calls that the server has made.
use iouring_http_server.Prelude.{ℕ, ◌%◌, ◌^◌, ◌≡◌, ◌≢◌, List, [], ◌∷◌, ◌==◌, if◌then◌else◌, arith}
use iouring_http_server.Userdata.{op_write_fixed, opcode_value, userdata_decode}
use iouring_http_server.Pool.Removed.{removed}
use iouring_http_server.Machine.{Env, History, Cqe, prep_write_fixed, wait_cqe}

-- A completion whose `user_data` says OP_WRITE_FIXED ends the write of the buffer that it names.
unfoldable pub settled : Cqe → List ℕ → List ℕ
unfolding removed
settled cqe held =
    if (userdata_decode cqe.user_data).op == opcode_value op_write_fixed
    then removed ((userdata_decode cqe.user_data).fd % 2 ^ 16) held
    else held

-- The buffers in a write that was asked for, and whose completion has not been taken off the ring.
unfoldable pub outstanding : Env → History → List ℕ
unfolding settled
outstanding env [] = []
outstanding env (prep_write_fixed sqe fd addr nbytes offset buf_index ∷ h) =
    buf_index ∷ outstanding env h
outstanding env (wait_cqe ∷ h) = settled (env.cqe (wait_cqe ∷ h)) (outstanding env h)
outstanding env (_ ∷ h) = outstanding env h

pub settled-other :
    (cqe : Cqe) (held : List ℕ)
    → (userdata_decode cqe.user_data).op ≢ opcode_value op_write_fixed
    → settled cqe held ≡ held
unfolding settled
settled-other cqe held h = ground arith

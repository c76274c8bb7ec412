-- ===== src/Client.antt =====
-- rexe/src/main.rs: one read into a registered buffer.
pub mod Reading
pub mod Whole
use Prim.Native.Nat.{bit_or}
use iouring_http_server.Prelude.{
  ℕ, ◌+◌, none, some, List, [], ◌∷◌, ◌++◌, Bool, true, false, if◌then◌else◌, leb,
}
use iouring_http_server.Prelude.Int.{ℤ, pos, negsuc, is_negative}
use iouring_http_server.Machine.{
  Text, Env, World, UringParams, BufringInitParams, Run, ok, exits, undefined, M, ◌>>=◌, ◌>>◌, pure,
  call, ask, observe, deref, get_sqe, prep_read_fixed, println, submit, wait_cqe, cqe_seen,
}
use iouring_http_server.Logging.Format.{codes}
use iouring_http_server.Logging.{logging_bufsize, pop_buffer, buffer_of}
use iouring_http_server.Appctx.{appctx_init}
use iouring_http_server.Server.{ioring_setup_sqpoll, ioring_setup_sq_aff}

-- The fields that `main` sets; `..Default::default()` zeroes the others.
abbrev pub client_params : UringParams
client_params = record {
  sq_thread_cpu = 0;
  sq_thread_idle = 5000;
  flags = bit_or ioring_setup_sqpoll ioring_setup_sq_aff;
}

abbrev pub client_bufrings : List BufringInitParams
client_bufrings =
    record { entries = 16; entry_size = 1024; bgid = 0 }
    ∷ record { entries = 16; entry_size = 512; bgid = 1 }
    ∷ []

-- `res as usize` for `from_raw_parts`, which must stay within the `room` bytes of the buffer. A negative
-- number becomes a length that no slice may have.
unfoldable pub as_slice_len : (room : ℕ) → ℤ → M ℕ
as_slice_len room (pos n) w = if leb n room then ok n w else undefined
as_slice_len room (negsuc n) w = undefined

-- `println!`, which panics where standard output cannot be written.
unfoldable pub expect_printed : Bool → M (Unit {0})
expect_printed true w = ok tt w
expect_printed false w = exits w

-- `from_utf8(v).unwrap()`
unfoldable pub unwrap_utf8 : Bool → M (Unit {0})
unwrap_utf8 true w = ok tt w
unwrap_utf8 false w = exits w

module _ (env : Env) where
  -- The second `unsafe` block.
  unfoldable pub read_and_print : M (Unit {0})
  unfolding deref pop_buffer buffer_of as_slice_len unwrap_utf8 expect_printed
  read_and_print = do
    sqe ← ask get_sqe env.sqe
    regbuf ← pop_buffer
    regbuf ← deref regbuf
    (log_buf, bid) ← λ w. deref (buffer_of w.appctx.bufpool regbuf) w
    sqe ← deref sqe
    call (prep_read_fixed sqe 0 log_buf logging_bufsize 0 bid)
    call submit
    res ← ask wait_cqe env.status
    call cqe_seen
    cqe ← λ w. if is_negative res then undefined else ok (env.cqe w.history) w
    len ← as_slice_len logging_bufsize cqe.res
    v ← observe (λ h. env.memory h log_buf len)
    unwrap_utf8 (env.is_utf8 v)
    printed ← ask (println (codes "User entered: " ++ v)) env.can_print
    expect_printed printed

  unfoldable pub main : M (Unit {0})
  unfolding read_and_print
  main = do
    appctx ← appctx_init env client_params client_bufrings 16
    λ w. ok tt (record w { appctx = appctx })
    read_and_print

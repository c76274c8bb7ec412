-- ===== src/Machine.antt =====
-- What the C code shares with the world outside the repository: its calls of liburing and of the C
-- library, in order, and the results that these give. The results are a parameter, `Env`.
pub mod Laws
pub mod Leaves
use iouring_http_server.Prelude.{
  ℕ, zero, suc, ◌^◌, ltb, ◌==◌, Bool, true, false, Option, none, some, List, [], ◌∷◌, if◌then◌else◌,
}
use iouring_http_server.Prelude.Int.{ℤ, is_negative}
use iouring_http_server.Pool.{Iovec, Bufpool}

-- A text, as its bytes with no NUL.
abbrev pub Text : Type 0
Text = List ℕ

-- A submission queue entry, as `io_uring_get_sqe` names it.
abbrev pub Sqe : Type 0
Sqe = ℕ

-- `struct io_uring_params`, in the fields that the programs set.
pub record UringParams : Type 0 where
  pub sq_thread_cpu : ℕ
  pub sq_thread_idle : ℕ
  pub flags : ℕ

-- A call of a function from outside, or a store to memory that such a function handed out.
pub data Call : Type 0 where
  malloc : ℕ → Call
  posix_memalign : (alignment size : ℕ) → Call
  queue_init_params : ℕ → UringParams → Call
  register_buffers : List Iovec → ℕ → Call
  register_buf_ring : (ring_addr ring_entries bgid : ℕ) → Call
  buf_ring_init : ℕ → Call
  buf_ring_add : (br addr len bid mask offset : ℕ) → Call
  buf_ring_advance : (br count : ℕ) → Call
  get_sqe : Call
  prep_multishot_accept : Sqe → (fd : ℤ) → Call
  prep_recvmsg_multishot : Sqe → (fd : ℤ) → Call
  prep_send_zc : Sqe → (fd : ℕ) → Text → (len : ℕ) → Call
  prep_write_fixed : Sqe → (fd addr nbytes offset buf_index : ℕ) → Call
  prep_read_fixed : Sqe → (fd addr nbytes offset buf_index : ℕ) → Call
  println : Text → Call
  or_flags : Sqe → ℕ → Call
  set_buf_group : Sqe → ℕ → Call
  set_data64 : Sqe → ℕ → Call
  submit : Call
  wait_cqe : Call
  cqe_seen : Call
  recvmsg_validate : (addr : ℕ) → (len : ℤ) → Call
  getpeername : ℤ → Call
  store_text : (addr : ℕ) → Text → Call
  socket : Call
  setsockopt : ℤ → Call
  bind : ℤ → (port : ℕ) → Call
  listen : ℤ → (backlog : ℕ) → Call

-- The calls so far, the latest first.
abbrev pub History : Type 0
History = List Call

-- A call whose `int` result is tested against errors, as a negative number.
abbrev pub has_status : Call → Bool
has_status (queue_init_params entries params) = true
has_status (register_buffers iovecs count) = true
has_status (register_buf_ring ring_addr ring_entries bgid) = true
has_status submit = true
has_status wait_cqe = true
has_status socket = true
has_status (setsockopt fd) = true
has_status (bind fd port) = true
has_status (listen fd backlog) = true
has_status _ = false

-- `struct io_uring_cqe`.
pub record Cqe : Type 0 where
  pub user_data : ℕ
  pub res : ℤ
  pub flags : ℕ

-- What the outside answers. Each answer may depend on all the calls so far, the one that is being
-- answered included.
pub record Env : Type 0 where
  -- The `int` result of a call that has one.
  pub status : History → ℤ
  -- The address that `malloc` or `posix_memalign` gave, 0 for NULL.
  pub address : History → ℕ
  pub sqe : History → Option Sqe
  pub cqe : History → Cqe
  -- `io_uring_buf_ring_mask`.
  pub ring_mask : ℕ → ℕ
  -- `io_uring_recvmsg_validate` accepts the message, the bytes of `io_uring_recvmsg_payload` up to the
  -- first NUL, and `io_uring_recvmsg_payload_length`.
  pub valid : History → Bool
  pub payload : History → Text
  pub payload_length : History → ℕ
  -- The text of `inet_ntop`, the port after `ntohs`, the text of `strftime`, `tv_usec`.
  pub peer_text : History → Text
  pub peer_port : History → ℕ
  pub local_time : History → Text
  pub tv_usec : History → ℕ
  -- The bytes of memory from an address on, and `std::str::from_utf8`.
  pub memory : History → (addr len : ℕ) → Text
  pub is_utf8 : Text → Bool
  -- Can standard output be written?
  pub can_print : History → Bool
  -- The padding bytes of a `struct userdata`.
  pub padding : History → ℕ

-- `struct bufring_init_params_t` and `struct bufring_t`.
pub record BufringInitParams : Type 0 where
  pub entries : ℕ
  pub entry_size : ℕ
  pub bgid : ℕ

pub record Bufring : Type 0 where
  pub br : ℕ
  pub bufs : List Iovec
  pub params : BufringInitParams

-- `struct appctx_t`. The ring itself stands outside: its state is the history.
pub record Appctx : Type 0 where
  pub bufpool : Bufpool
  pub bufrings : List Bufring

-- The memory of the program: its context, the global `fmt_addr`, and the calls that it has made.
pub record World : Type 0 where
  pub appctx : Appctx
  pub fmt_addr : Text
  pub history : History

-- A run returns, or ends at a failed assertion, which raises SIGTRAP and exits, or meets undefined
-- behaviour.
pub data Run (A : Type 0) : Type 0 where
  ok : A → World → Run A
  exits : World → Run A
  undefined : Run A

abbrev pub M : Type 0 → Type 0
M A = World → Run A

abbrev pub pure : {A : Type 0} → A → M A
pure = ok

module _ {A B : Type 0} where
  abbrev pub and_then : Run A → (A → M B) → Run B
  and_then (ok a w) k = k a w
  and_then (exits w) k = exits w
  and_then undefined k = undefined

  infixl 5 ◌>>=◌ ◌>>◌
  abbrev pub ◌>>=◌ : M A → (A → M B) → M B
  m >>= k = λ w. and_then (m w) k

  abbrev pub ◌>>◌ : M A → M B → M B
  m >> n = m >>= λ _. n

-- A call with no result that is read.
abbrev pub call : Call → M (Unit {0})
call c w = ok tt (record w { history = c ∷ w.history })

-- A call with a result.
abbrev pub ask : {A : Type 0} → Call → (History → A) → M A
ask c answer w = ok (answer (c ∷ w.history)) (record w { history = c ∷ w.history })

-- A result that no call of its own is recorded for.
abbrev pub observe : {A : Type 0} → (History → A) → M A
observe answer w = ok (answer w.history) w

-- `ASSERT_POSITIVE(code)` lets every code pass that is not negative.
unfoldable pub assert_positive : ℤ → M (Unit {0})
assert_positive code w = if is_negative code then exits w else ok tt w

-- `ASSERT_POSITIVE(f(…))`: the macro names its argument again in the message, so a call that failed is
-- made once more before the exit.
unfoldable pub assert_positive_call : (History → ℤ) → Call → M (Unit {0})
unfolding assert_positive
assert_positive_call status c = do
  code ← ask c status
  λ w. if is_negative code then exits (record w { history = c ∷ w.history }) else ok tt w

unfoldable pub assert_not_null : {A : Type 0} → Option A → M A
assert_not_null none w = exits w
assert_not_null (some a) w = ok a w

-- The address is used that a call was to fill in: where the call failed, it was never set.
unfoldable pub use_filled : (err : ℤ) → M (Unit {0})
use_filled err w = if is_negative err then undefined else ok tt w

-- The program stores `count` elements through a pointer that it has not tested.
unfoldable pub store_through : (address count : ℕ) → M (Unit {0})
store_through address zero w = ok tt w
store_through address (suc count) w = if address == 0 then undefined else ok tt w

-- C's arithmetic on `int` that must not overflow.
unfoldable pub as_int : ℕ → M ℕ
as_int n w = if ltb n (2 ^ 31) then ok n w else undefined

-- A pointer that is used with no test.
unfoldable pub deref : {A : Type 0} → Option A → M A
deref none w = undefined
deref (some a) w = ok a w

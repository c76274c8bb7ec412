-- ===== src/Userdata.antt =====
-- clib/userdata.h and clib/userdata.c: the 64 bits that accompany each submission.
pub mod RoundTrip
use iouring_http_server.Prelude.{ℕ, ◌+◌, ◌*◌, ◌/◌, ◌%◌, ◌^◌}

-- `enum opcode`.
pub data Opcode : Type 0 where
  op_listen op_accept op_recvmsg op_write op_write_fixed op_sendmsg : Opcode

abbrev pub opcode_value : Opcode → ℕ
opcode_value op_listen = 1
opcode_value op_accept = 2
opcode_value op_recvmsg = 3
opcode_value op_write = 4
opcode_value op_write_fixed = 5
opcode_value op_sendmsg = 6

-- The structure in the union: a `uint32_t` and a `uint8_t`.
pub record Userdata : Type 0 where
  pub fd : ℕ
  pub op : ℕ

-- The union's `val`, little-endian. The three bytes behind `op` are padding, which C leaves open.
unfoldable pub userdata_val : Userdata → ℕ → ℕ
userdata_val ud padding = ud.fd % 2 ^ 32 + ud.op % 2 ^ 8 * 2 ^ 32 + padding % 2 ^ 24 * 2 ^ 40

-- What `encode_userdata` passes to `io_uring_sqe_set_data64`; the parameters `uint16_t fd` and
-- `uint8_t op` convert the arguments.
unfoldable pub encode_userdata : ℕ → ℕ → ℕ → ℕ
unfolding userdata_val
encode_userdata padding fd op = userdata_val (record { fd = fd % 2 ^ 16; op = op % 2 ^ 8 }) padding

-- Reads `cqe->user_data` through the union.
unfoldable pub userdata_decode : ℕ → Userdata
userdata_decode val = record { fd = val % 2 ^ 32; op = val / 2 ^ 32 % 2 ^ 8 }

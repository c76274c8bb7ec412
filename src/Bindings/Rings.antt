-- ===== src/Bindings/Rings.antt =====
-- rexe/src/bindings.rs: received messages and the rings in user space.
use iouring_http_server.Prelude.{[], ◌∷◌}
use iouring_http_server.Layout.{
  RustType, Binding, scalar, array, structure, repr_c, end, rust_usize, c_int, c_uint, pointer,
  size_is, align_is, offset_is, derived, zeroed, ◌∶◌, ◌▸◌,
}
use iouring_http_server.Bindings.Types.{u32, u64, u8}

abbrev pub io_uring_file_index_range : RustType
io_uring_file_index_range = structure repr_c ("off" ∶ u32 ▸ "len" ∶ u32 ▸ "resv" ∶ u64 ▸ end)

abbrev pub io_uring_file_index_range_binding : Binding
io_uring_file_index_range_binding = record {
  layout = io_uring_file_index_range;
  asserts =
      size_is 16 ∷ align_is 8 ∷ offset_is "off" 0 ∷ offset_is "len" 4 ∷ offset_is "resv" 8 ∷ [];
  default = derived;
}

abbrev pub io_uring_recvmsg_out : RustType
io_uring_recvmsg_out =
    structure repr_c
      ("namelen" ∶ u32 ▸ "controllen" ∶ u32 ▸ "payloadlen" ∶ u32 ▸ "flags" ∶ u32 ▸ end)

abbrev pub io_uring_recvmsg_out_binding : Binding
io_uring_recvmsg_out_binding = record {
  layout = io_uring_recvmsg_out;
  asserts =
      size_is 16
      ∷ align_is 4
      ∷ offset_is "namelen" 0
      ∷ offset_is "controllen" 4
      ∷ offset_is "payloadlen" 8
      ∷ offset_is "flags" 12
      ∷ [];
  default = derived;
}

abbrev pub io_uring_sq : RustType
io_uring_sq = structure repr_c (
    "khead" ∶ scalar pointer
    ▸ "ktail" ∶ scalar pointer
    ▸ "kring_mask" ∶ scalar pointer
    ▸ "kring_entries" ∶ scalar pointer
    ▸ "kflags" ∶ scalar pointer
    ▸ "kdropped" ∶ scalar pointer
    ▸ "array" ∶ scalar pointer
    ▸ "sqes" ∶ scalar pointer
    ▸ "sqe_head" ∶ scalar c_uint
    ▸ "sqe_tail" ∶ scalar c_uint
    ▸ "ring_sz" ∶ scalar rust_usize
    ▸ "ring_ptr" ∶ scalar pointer
    ▸ "ring_mask" ∶ scalar c_uint
    ▸ "ring_entries" ∶ scalar c_uint
    ▸ "pad" ∶ array (scalar c_uint) 2
    ▸ end)

abbrev pub io_uring_sq_binding : Binding
io_uring_sq_binding = record {
  layout = io_uring_sq;
  asserts =
      size_is 104
      ∷ align_is 8
      ∷ offset_is "khead" 0
      ∷ offset_is "ktail" 8
      ∷ offset_is "kring_mask" 16
      ∷ offset_is "kring_entries" 24
      ∷ offset_is "kflags" 32
      ∷ offset_is "kdropped" 40
      ∷ offset_is "array" 48
      ∷ offset_is "sqes" 56
      ∷ offset_is "sqe_head" 64
      ∷ offset_is "sqe_tail" 68
      ∷ offset_is "ring_sz" 72
      ∷ offset_is "ring_ptr" 80
      ∷ offset_is "ring_mask" 88
      ∷ offset_is "ring_entries" 92
      ∷ offset_is "pad" 96
      ∷ [];
  default = zeroed;
}

abbrev pub io_uring_cq : RustType
io_uring_cq = structure repr_c (
    "khead" ∶ scalar pointer
    ▸ "ktail" ∶ scalar pointer
    ▸ "kring_mask" ∶ scalar pointer
    ▸ "kring_entries" ∶ scalar pointer
    ▸ "kflags" ∶ scalar pointer
    ▸ "koverflow" ∶ scalar pointer
    ▸ "cqes" ∶ scalar pointer
    ▸ "ring_sz" ∶ scalar rust_usize
    ▸ "ring_ptr" ∶ scalar pointer
    ▸ "ring_mask" ∶ scalar c_uint
    ▸ "ring_entries" ∶ scalar c_uint
    ▸ "pad" ∶ array (scalar c_uint) 2
    ▸ end)

abbrev pub io_uring_cq_binding : Binding
io_uring_cq_binding = record {
  layout = io_uring_cq;
  asserts =
      size_is 88
      ∷ align_is 8
      ∷ offset_is "khead" 0
      ∷ offset_is "ktail" 8
      ∷ offset_is "kring_mask" 16
      ∷ offset_is "kring_entries" 24
      ∷ offset_is "kflags" 32
      ∷ offset_is "koverflow" 40
      ∷ offset_is "cqes" 48
      ∷ offset_is "ring_sz" 56
      ∷ offset_is "ring_ptr" 64
      ∷ offset_is "ring_mask" 72
      ∷ offset_is "ring_entries" 76
      ∷ offset_is "pad" 80
      ∷ [];
  default = zeroed;
}

abbrev pub io_uring : RustType
io_uring = structure repr_c (
    "sq" ∶ io_uring_sq
    ▸ "cq" ∶ io_uring_cq
    ▸ "flags" ∶ scalar c_uint
    ▸ "ring_fd" ∶ scalar c_int
    ▸ "features" ∶ scalar c_uint
    ▸ "enter_ring_fd" ∶ scalar c_int
    ▸ "int_flags" ∶ u8
    ▸ "pad" ∶ array u8 3
    ▸ "pad2" ∶ scalar c_uint
    ▸ end)

abbrev pub io_uring_binding : Binding
io_uring_binding = record {
  layout = io_uring;
  asserts =
      size_is 216
      ∷ align_is 8
      ∷ offset_is "sq" 0
      ∷ offset_is "cq" 104
      ∷ offset_is "flags" 192
      ∷ offset_is "ring_fd" 196
      ∷ offset_is "features" 200
      ∷ offset_is "enter_ring_fd" 204
      ∷ offset_is "int_flags" 208
      ∷ offset_is "pad" 209
      ∷ offset_is "pad2" 212
      ∷ [];
  default = zeroed;
}

-- ===== src/Bindings/SqeParts.antt =====
-- rexe/src/bindings.rs: the unions of a submission queue entry.
use iouring_http_server.Prelude.{[], ◌∷◌}
use iouring_http_server.Layout.{
  RustType, Binding, scalar, array, structure, union, repr_c, packed, end, rust_u64, size_is,
  align_is, offset_is, derived, zeroed, ◌∶◌, ◌▸◌,
}
use iouring_http_server.Bindings.Types.{bindgen_union_field, kernel_rwf_t, s32, u16, u32, u64, u8}

abbrev pub io_uring_sqe_bindgen_ty_1_bindgen_ty_1 : RustType
io_uring_sqe_bindgen_ty_1_bindgen_ty_1 = structure repr_c ("cmd_op" ∶ u32 ▸ "__pad1" ∶ u32 ▸ end)

abbrev pub io_uring_sqe_bindgen_ty_1_bindgen_ty_1_binding : Binding
io_uring_sqe_bindgen_ty_1_bindgen_ty_1_binding = record {
  layout = io_uring_sqe_bindgen_ty_1_bindgen_ty_1;
  asserts = size_is 8 ∷ align_is 4 ∷ offset_is "cmd_op" 0 ∷ offset_is "__pad1" 4 ∷ [];
  default = derived;
}

abbrev pub io_uring_sqe_bindgen_ty_1 : RustType
io_uring_sqe_bindgen_ty_1 = union repr_c (
    "off" ∶ u64 ▸ "addr2" ∶ u64 ▸ "__bindgen_anon_1" ∶ io_uring_sqe_bindgen_ty_1_bindgen_ty_1 ▸ end)

abbrev pub io_uring_sqe_bindgen_ty_1_binding : Binding
io_uring_sqe_bindgen_ty_1_binding = record {
  layout = io_uring_sqe_bindgen_ty_1;
  asserts = size_is 8 ∷ align_is 8 ∷ offset_is "off" 0 ∷ offset_is "addr2" 0 ∷ [];
  default = zeroed;
}

abbrev pub io_uring_sqe_bindgen_ty_2_bindgen_ty_1 : RustType
io_uring_sqe_bindgen_ty_2_bindgen_ty_1 = structure repr_c ("level" ∶ u32 ▸ "optname" ∶ u32 ▸ end)

abbrev pub io_uring_sqe_bindgen_ty_2_bindgen_ty_1_binding : Binding
io_uring_sqe_bindgen_ty_2_bindgen_ty_1_binding = record {
  layout = io_uring_sqe_bindgen_ty_2_bindgen_ty_1;
  asserts = size_is 8 ∷ align_is 4 ∷ offset_is "level" 0 ∷ offset_is "optname" 4 ∷ [];
  default = derived;
}

abbrev pub io_uring_sqe_bindgen_ty_2 : RustType
io_uring_sqe_bindgen_ty_2 = union repr_c (
    "addr" ∶ u64
    ▸ "splice_off_in" ∶ u64
    ▸ "__bindgen_anon_1" ∶ io_uring_sqe_bindgen_ty_2_bindgen_ty_1
    ▸ end)

abbrev pub io_uring_sqe_bindgen_ty_2_binding : Binding
io_uring_sqe_bindgen_ty_2_binding = record {
  layout = io_uring_sqe_bindgen_ty_2;
  asserts = size_is 8 ∷ align_is 8 ∷ offset_is "addr" 0 ∷ offset_is "splice_off_in" 0 ∷ [];
  default = zeroed;
}

abbrev pub io_uring_sqe_bindgen_ty_3 : RustType
io_uring_sqe_bindgen_ty_3 = union repr_c (
    "rw_flags" ∶ kernel_rwf_t
    ▸ "fsync_flags" ∶ u32
    ▸ "poll_events" ∶ u16
    ▸ "poll32_events" ∶ u32
    ▸ "sync_range_flags" ∶ u32
    ▸ "msg_flags" ∶ u32
    ▸ "timeout_flags" ∶ u32
    ▸ "accept_flags" ∶ u32
    ▸ "cancel_flags" ∶ u32
    ▸ "open_flags" ∶ u32
    ▸ "statx_flags" ∶ u32
    ▸ "fadvise_advice" ∶ u32
    ▸ "splice_flags" ∶ u32
    ▸ "rename_flags" ∶ u32
    ▸ "unlink_flags" ∶ u32
    ▸ "hardlink_flags" ∶ u32
    ▸ "xattr_flags" ∶ u32
    ▸ "msg_ring_flags" ∶ u32
    ▸ "uring_cmd_flags" ∶ u32
    ▸ "waitid_flags" ∶ u32
    ▸ "futex_flags" ∶ u32
    ▸ "install_fd_flags" ∶ u32
    ▸ "nop_flags" ∶ u32
    ▸ end)

abbrev pub io_uring_sqe_bindgen_ty_3_binding : Binding
io_uring_sqe_bindgen_ty_3_binding = record {
  layout = io_uring_sqe_bindgen_ty_3;
  asserts =
      size_is 4
      ∷ align_is 4
      ∷ offset_is "rw_flags" 0
      ∷ offset_is "fsync_flags" 0
      ∷ offset_is "poll_events" 0
      ∷ offset_is "poll32_events" 0
      ∷ offset_is "sync_range_flags" 0
      ∷ offset_is "msg_flags" 0
      ∷ offset_is "timeout_flags" 0
      ∷ offset_is "accept_flags" 0
      ∷ offset_is "cancel_flags" 0
      ∷ offset_is "open_flags" 0
      ∷ offset_is "statx_flags" 0
      ∷ offset_is "fadvise_advice" 0
      ∷ offset_is "splice_flags" 0
      ∷ offset_is "rename_flags" 0
      ∷ offset_is "unlink_flags" 0
      ∷ offset_is "hardlink_flags" 0
      ∷ offset_is "xattr_flags" 0
      ∷ offset_is "msg_ring_flags" 0
      ∷ offset_is "uring_cmd_flags" 0
      ∷ offset_is "waitid_flags" 0
      ∷ offset_is "futex_flags" 0
      ∷ offset_is "install_fd_flags" 0
      ∷ offset_is "nop_flags" 0
      ∷ [];
  default = zeroed;
}

abbrev pub io_uring_sqe_bindgen_ty_4 : RustType
io_uring_sqe_bindgen_ty_4 = union packed ("buf_index" ∶ u16 ▸ "buf_group" ∶ u16 ▸ end)

abbrev pub io_uring_sqe_bindgen_ty_4_binding : Binding
io_uring_sqe_bindgen_ty_4_binding = record {
  layout = io_uring_sqe_bindgen_ty_4;
  asserts = size_is 2 ∷ align_is 1 ∷ offset_is "buf_index" 0 ∷ offset_is "buf_group" 0 ∷ [];
  default = zeroed;
}

abbrev pub io_uring_sqe_bindgen_ty_5_bindgen_ty_1 : RustType
io_uring_sqe_bindgen_ty_5_bindgen_ty_1 =
    structure repr_c ("addr_len" ∶ u16 ▸ "__pad3" ∶ array u16 1 ▸ end)

abbrev pub io_uring_sqe_bindgen_ty_5_bindgen_ty_1_binding : Binding
io_uring_sqe_bindgen_ty_5_bindgen_ty_1_binding = record {
  layout = io_uring_sqe_bindgen_ty_5_bindgen_ty_1;
  asserts = size_is 4 ∷ align_is 2 ∷ offset_is "addr_len" 0 ∷ offset_is "__pad3" 2 ∷ [];
  default = derived;
}

abbrev pub io_uring_sqe_bindgen_ty_5 : RustType
io_uring_sqe_bindgen_ty_5 = union repr_c (
    "splice_fd_in" ∶ s32
    ▸ "file_index" ∶ u32
    ▸ "optlen" ∶ u32
    ▸ "__bindgen_anon_1" ∶ io_uring_sqe_bindgen_ty_5_bindgen_ty_1
    ▸ end)

abbrev pub io_uring_sqe_bindgen_ty_5_binding : Binding
io_uring_sqe_bindgen_ty_5_binding = record {
  layout = io_uring_sqe_bindgen_ty_5;
  asserts =
      size_is 4
      ∷ align_is 4
      ∷ offset_is "splice_fd_in" 0
      ∷ offset_is "file_index" 0
      ∷ offset_is "optlen" 0
      ∷ [];
  default = zeroed;
}

abbrev pub io_uring_sqe_bindgen_ty_6_bindgen_ty_1 : RustType
io_uring_sqe_bindgen_ty_6_bindgen_ty_1 =
    structure repr_c ("addr3" ∶ u64 ▸ "__pad2" ∶ array u64 1 ▸ end)

abbrev pub io_uring_sqe_bindgen_ty_6_bindgen_ty_1_binding : Binding
io_uring_sqe_bindgen_ty_6_bindgen_ty_1_binding = record {
  layout = io_uring_sqe_bindgen_ty_6_bindgen_ty_1;
  asserts = size_is 16 ∷ align_is 8 ∷ offset_is "addr3" 0 ∷ offset_is "__pad2" 8 ∷ [];
  default = derived;
}

abbrev pub io_uring_sqe_bindgen_ty_6 : RustType
io_uring_sqe_bindgen_ty_6 = structure repr_c (
    "__bindgen_anon_1" ∶ bindgen_union_field io_uring_sqe_bindgen_ty_6_bindgen_ty_1
    ▸ "optval" ∶ bindgen_union_field u64
    ▸ "cmd" ∶ bindgen_union_field (array u8 0)
    ▸ "bindgen_union_field" ∶ array (scalar rust_u64) 2
    ▸ end)

abbrev pub io_uring_sqe_bindgen_ty_6_binding : Binding
io_uring_sqe_bindgen_ty_6_binding = record {
  layout = io_uring_sqe_bindgen_ty_6;
  asserts = size_is 16 ∷ align_is 8 ∷ offset_is "optval" 0 ∷ offset_is "cmd" 0 ∷ [];
  default = zeroed;
}

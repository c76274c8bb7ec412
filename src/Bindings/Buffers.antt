-- ===== src/Bindings/Buffers.antt =====
-- rexe/src/bindings.rs: provided buffers and the arguments about waiting.
use iouring_http_server.Prelude.{[], ◌∷◌}
use iouring_http_server.Layout.{
  RustType, Binding, scalar, array, structure, repr_c, end, rust_u64, size_is, align_is, offset_is,
  derived, zeroed, ◌∶◌, ◌▸◌,
}
use iouring_http_server.Bindings.Restrict.{io_uring_buf}
use iouring_http_server.Bindings.Time.{kernel_timespec}
use iouring_http_server.Bindings.Types.{bindgen_union_field, s32, u16, u32, u64, u8}

abbrev pub io_uring_buf_ring_bindgen_ty_1_bindgen_ty_1 : RustType
io_uring_buf_ring_bindgen_ty_1_bindgen_ty_1 =
    structure repr_c ("resv1" ∶ u64 ▸ "resv2" ∶ u32 ▸ "resv3" ∶ u16 ▸ "tail" ∶ u16 ▸ end)

abbrev pub io_uring_buf_ring_bindgen_ty_1_bindgen_ty_1_binding : Binding
io_uring_buf_ring_bindgen_ty_1_bindgen_ty_1_binding = record {
  layout = io_uring_buf_ring_bindgen_ty_1_bindgen_ty_1;
  asserts =
      size_is 16
      ∷ align_is 8
      ∷ offset_is "resv1" 0
      ∷ offset_is "resv2" 8
      ∷ offset_is "resv3" 12
      ∷ offset_is "tail" 14
      ∷ [];
  default = derived;
}

abbrev pub io_uring_buf_ring_bindgen_ty_1 : RustType
io_uring_buf_ring_bindgen_ty_1 = structure repr_c (
    "__bindgen_anon_1" ∶ bindgen_union_field io_uring_buf_ring_bindgen_ty_1_bindgen_ty_1
    ▸ "bufs" ∶ bindgen_union_field (array io_uring_buf 0)
    ▸ "bindgen_union_field" ∶ array (scalar rust_u64) 2
    ▸ end)

abbrev pub io_uring_buf_ring_bindgen_ty_1_binding : Binding
io_uring_buf_ring_bindgen_ty_1_binding = record {
  layout = io_uring_buf_ring_bindgen_ty_1;
  asserts = size_is 16 ∷ align_is 8 ∷ offset_is "bufs" 0 ∷ [];
  default = zeroed;
}

abbrev pub io_uring_buf_ring : RustType
io_uring_buf_ring = structure repr_c ("__bindgen_anon_1" ∶ io_uring_buf_ring_bindgen_ty_1 ▸ end)

abbrev pub io_uring_buf_ring_binding : Binding
io_uring_buf_ring_binding = record {
  layout = io_uring_buf_ring;
  asserts = size_is 16 ∷ align_is 8 ∷ [];
  default = zeroed;
}

abbrev pub io_uring_buf_reg : RustType
io_uring_buf_reg = structure repr_c (
    "ring_addr" ∶ u64
    ▸ "ring_entries" ∶ u32
    ▸ "bgid" ∶ u16
    ▸ "flags" ∶ u16
    ▸ "resv" ∶ array u64 3
    ▸ end)

abbrev pub io_uring_buf_reg_binding : Binding
io_uring_buf_reg_binding = record {
  layout = io_uring_buf_reg;
  asserts =
      size_is 40
      ∷ align_is 8
      ∷ offset_is "ring_addr" 0
      ∷ offset_is "ring_entries" 8
      ∷ offset_is "bgid" 12
      ∷ offset_is "flags" 14
      ∷ offset_is "resv" 16
      ∷ [];
  default = derived;
}

abbrev pub io_uring_buf_status : RustType
io_uring_buf_status =
    structure repr_c ("buf_group" ∶ u32 ▸ "head" ∶ u32 ▸ "resv" ∶ array u32 8 ▸ end)

abbrev pub io_uring_buf_status_binding : Binding
io_uring_buf_status_binding = record {
  layout = io_uring_buf_status;
  asserts =
      size_is 40
      ∷ align_is 4
      ∷ offset_is "buf_group" 0
      ∷ offset_is "head" 4
      ∷ offset_is "resv" 8
      ∷ [];
  default = derived;
}

abbrev pub io_uring_napi : RustType
io_uring_napi =
    structure repr_c
      ("busy_poll_to" ∶ u32 ▸ "prefer_busy_poll" ∶ u8 ▸ "pad" ∶ array u8 3 ▸ "resv" ∶ u64 ▸ end)

abbrev pub io_uring_napi_binding : Binding
io_uring_napi_binding = record {
  layout = io_uring_napi;
  asserts =
      size_is 16
      ∷ align_is 8
      ∷ offset_is "busy_poll_to" 0
      ∷ offset_is "prefer_busy_poll" 4
      ∷ offset_is "pad" 5
      ∷ offset_is "resv" 8
      ∷ [];
  default = derived;
}

abbrev pub io_uring_cqwait_reg_arg : RustType
io_uring_cqwait_reg_arg = structure repr_c (
    "flags" ∶ u32
    ▸ "struct_size" ∶ u32
    ▸ "nr_entries" ∶ u32
    ▸ "pad" ∶ u32
    ▸ "user_addr" ∶ u64
    ▸ "pad2" ∶ array u64 3
    ▸ end)

abbrev pub io_uring_cqwait_reg_arg_binding : Binding
io_uring_cqwait_reg_arg_binding = record {
  layout = io_uring_cqwait_reg_arg;
  asserts =
      size_is 48
      ∷ align_is 8
      ∷ offset_is "flags" 0
      ∷ offset_is "struct_size" 4
      ∷ offset_is "nr_entries" 8
      ∷ offset_is "pad" 12
      ∷ offset_is "user_addr" 16
      ∷ offset_is "pad2" 24
      ∷ [];
  default = derived;
}

abbrev pub io_uring_reg_wait : RustType
io_uring_reg_wait = structure repr_c (
    "ts" ∶ kernel_timespec
    ▸ "min_wait_usec" ∶ u32
    ▸ "flags" ∶ u32
    ▸ "sigmask" ∶ u64
    ▸ "sigmask_sz" ∶ u32
    ▸ "pad" ∶ array u32 3
    ▸ "pad2" ∶ array u64 2
    ▸ end)

abbrev pub io_uring_reg_wait_binding : Binding
io_uring_reg_wait_binding = record {
  layout = io_uring_reg_wait;
  asserts =
      size_is 64
      ∷ align_is 8
      ∷ offset_is "ts" 0
      ∷ offset_is "min_wait_usec" 16
      ∷ offset_is "flags" 20
      ∷ offset_is "sigmask" 24
      ∷ offset_is "sigmask_sz" 32
      ∷ offset_is "pad" 36
      ∷ offset_is "pad2" 48
      ∷ [];
  default = derived;
}

abbrev pub io_uring_getevents_arg : RustType
io_uring_getevents_arg =
    structure repr_c
      ("sigmask" ∶ u64 ▸ "sigmask_sz" ∶ u32 ▸ "min_wait_usec" ∶ u32 ▸ "ts" ∶ u64 ▸ end)

abbrev pub io_uring_getevents_arg_binding : Binding
io_uring_getevents_arg_binding = record {
  layout = io_uring_getevents_arg;
  asserts =
      size_is 24
      ∷ align_is 8
      ∷ offset_is "sigmask" 0
      ∷ offset_is "sigmask_sz" 8
      ∷ offset_is "min_wait_usec" 12
      ∷ offset_is "ts" 16
      ∷ [];
  default = derived;
}

abbrev pub io_uring_sync_cancel_reg : RustType
io_uring_sync_cancel_reg = structure repr_c (
    "addr" ∶ u64
    ▸ "fd" ∶ s32
    ▸ "flags" ∶ u32
    ▸ "timeout" ∶ kernel_timespec
    ▸ "opcode" ∶ u8
    ▸ "pad" ∶ array u8 7
    ▸ "pad2" ∶ array u64 3
    ▸ end)

abbrev pub io_uring_sync_cancel_reg_binding : Binding
io_uring_sync_cancel_reg_binding = record {
  layout = io_uring_sync_cancel_reg;
  asserts =
      size_is 64
      ∷ align_is 8
      ∷ offset_is "addr" 0
      ∷ offset_is "fd" 8
      ∷ offset_is "flags" 12
      ∷ offset_is "timeout" 16
      ∷ offset_is "opcode" 32
      ∷ offset_is "pad" 33
      ∷ offset_is "pad2" 40
      ∷ [];
  default = derived;
}

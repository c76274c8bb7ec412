-- ===== src/Bindings/Restrict.antt =====
-- rexe/src/bindings.rs: the arguments of io_uring_register: probes, restrictions, clones.
use iouring_http_server.Prelude.{[], ◌∷◌}
use iouring_http_server.Layout.{
  RustType, Binding, array, structure, union, repr_c, end, size_is, align_is, offset_is, derived,
  zeroed, ◌∶◌, ◌▸◌,
}
use iouring_http_server.Bindings.Register.{io_uring_probe_op}
use iouring_http_server.Bindings.Types.{incomplete_array_field, u16, u32, u64, u8}

abbrev pub io_uring_probe : RustType
io_uring_probe = structure repr_c (
    "last_op" ∶ u8
    ▸ "ops_len" ∶ u8
    ▸ "resv" ∶ u16
    ▸ "resv2" ∶ array u32 3
    ▸ "ops" ∶ incomplete_array_field io_uring_probe_op
    ▸ end)

abbrev pub io_uring_probe_binding : Binding
io_uring_probe_binding = record {
  layout = io_uring_probe;
  asserts =
      size_is 16
      ∷ align_is 4
      ∷ offset_is "last_op" 0
      ∷ offset_is "ops_len" 1
      ∷ offset_is "resv" 2
      ∷ offset_is "resv2" 4
      ∷ offset_is "ops" 16
      ∷ [];
  default = derived;
}

abbrev pub io_uring_restriction_bindgen_ty_1 : RustType
io_uring_restriction_bindgen_ty_1 =
    union repr_c ("register_op" ∶ u8 ▸ "sqe_op" ∶ u8 ▸ "sqe_flags" ∶ u8 ▸ end)

abbrev pub io_uring_restriction_bindgen_ty_1_binding : Binding
io_uring_restriction_bindgen_ty_1_binding = record {
  layout = io_uring_restriction_bindgen_ty_1;
  asserts =
      size_is 1
      ∷ align_is 1
      ∷ offset_is "register_op" 0
      ∷ offset_is "sqe_op" 0
      ∷ offset_is "sqe_flags" 0
      ∷ [];
  default = zeroed;
}

abbrev pub io_uring_restriction : RustType
io_uring_restriction = structure repr_c (
    "opcode" ∶ u16
    ▸ "__bindgen_anon_1" ∶ io_uring_restriction_bindgen_ty_1
    ▸ "resv" ∶ u8
    ▸ "resv2" ∶ array u32 3
    ▸ end)

abbrev pub io_uring_restriction_binding : Binding
io_uring_restriction_binding = record {
  layout = io_uring_restriction;
  asserts =
      size_is 16
      ∷ align_is 4
      ∷ offset_is "opcode" 0
      ∷ offset_is "resv" 3
      ∷ offset_is "resv2" 4
      ∷ [];
  default = zeroed;
}

abbrev pub io_uring_clock_register : RustType
io_uring_clock_register = structure repr_c ("clockid" ∶ u32 ▸ "__resv" ∶ array u32 3 ▸ end)

abbrev pub io_uring_clock_register_binding : Binding
io_uring_clock_register_binding = record {
  layout = io_uring_clock_register;
  asserts = size_is 16 ∷ align_is 4 ∷ offset_is "clockid" 0 ∷ offset_is "__resv" 4 ∷ [];
  default = derived;
}

abbrev pub io_uring_clone_buffers : RustType
io_uring_clone_buffers = structure repr_c (
    "src_fd" ∶ u32
    ▸ "flags" ∶ u32
    ▸ "src_off" ∶ u32
    ▸ "dst_off" ∶ u32
    ▸ "nr" ∶ u32
    ▸ "pad" ∶ array u32 3
    ▸ end)

abbrev pub io_uring_clone_buffers_binding : Binding
io_uring_clone_buffers_binding = record {
  layout = io_uring_clone_buffers;
  asserts =
      size_is 32
      ∷ align_is 4
      ∷ offset_is "src_fd" 0
      ∷ offset_is "flags" 4
      ∷ offset_is "src_off" 8
      ∷ offset_is "dst_off" 12
      ∷ offset_is "nr" 16
      ∷ offset_is "pad" 20
      ∷ [];
  default = derived;
}

abbrev pub io_uring_buf : RustType
io_uring_buf = structure repr_c ("addr" ∶ u64 ▸ "len" ∶ u32 ▸ "bid" ∶ u16 ▸ "resv" ∶ u16 ▸ end)

abbrev pub io_uring_buf_binding : Binding
io_uring_buf_binding = record {
  layout = io_uring_buf;
  asserts =
      size_is 16
      ∷ align_is 8
      ∷ offset_is "addr" 0
      ∷ offset_is "len" 8
      ∷ offset_is "bid" 12
      ∷ offset_is "resv" 14
      ∷ [];
  default = derived;
}

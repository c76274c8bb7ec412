-- ===== src/Bindings/Sqe.antt =====
-- rexe/src/bindings.rs: submission and completion queue entries.
use iouring_http_server.Prelude.{[], ◌∷◌}
use iouring_http_server.Layout.{
  RustType, Binding, structure, repr_c, end, size_is, align_is, offset_is, derived, zeroed, ◌∶◌,
  ◌▸◌,
}
use iouring_http_server.Bindings.SqeParts.{
  io_uring_sqe_bindgen_ty_1, io_uring_sqe_bindgen_ty_2, io_uring_sqe_bindgen_ty_3,
  io_uring_sqe_bindgen_ty_4, io_uring_sqe_bindgen_ty_5, io_uring_sqe_bindgen_ty_6,
}
use iouring_http_server.Bindings.Types.{incomplete_array_field, s32, u16, u32, u64, u8}

abbrev pub io_uring_sqe : RustType
io_uring_sqe = structure repr_c (
    "opcode" ∶ u8
    ▸ "flags" ∶ u8
    ▸ "ioprio" ∶ u16
    ▸ "fd" ∶ s32
    ▸ "__bindgen_anon_1" ∶ io_uring_sqe_bindgen_ty_1
    ▸ "__bindgen_anon_2" ∶ io_uring_sqe_bindgen_ty_2
    ▸ "len" ∶ u32
    ▸ "__bindgen_anon_3" ∶ io_uring_sqe_bindgen_ty_3
    ▸ "user_data" ∶ u64
    ▸ "__bindgen_anon_4" ∶ io_uring_sqe_bindgen_ty_4
    ▸ "personality" ∶ u16
    ▸ "__bindgen_anon_5" ∶ io_uring_sqe_bindgen_ty_5
    ▸ "__bindgen_anon_6" ∶ io_uring_sqe_bindgen_ty_6
    ▸ end)

abbrev pub io_uring_sqe_binding : Binding
io_uring_sqe_binding = record {
  layout = io_uring_sqe;
  asserts =
      size_is 64
      ∷ align_is 8
      ∷ offset_is "opcode" 0
      ∷ offset_is "flags" 1
      ∷ offset_is "ioprio" 2
      ∷ offset_is "fd" 4
      ∷ offset_is "len" 24
      ∷ offset_is "user_data" 32
      ∷ offset_is "personality" 42
      ∷ [];
  default = zeroed;
}

abbrev pub io_uring_cqe : RustType
io_uring_cqe =
    structure repr_c (
      "user_data" ∶ u64
      ▸ "res" ∶ s32
      ▸ "flags" ∶ u32
      ▸ "big_cqe" ∶ incomplete_array_field u64
      ▸ end)

abbrev pub io_uring_cqe_binding : Binding
io_uring_cqe_binding = record {
  layout = io_uring_cqe;
  asserts =
      size_is 16
      ∷ align_is 8
      ∷ offset_is "user_data" 0
      ∷ offset_is "res" 8
      ∷ offset_is "flags" 12
      ∷ offset_is "big_cqe" 16
      ∷ [];
  default = derived;
}

-- ===== src/Bindings/Params.antt =====
-- rexe/src/bindings.rs: the set-up parameters and the ring offsets.
use iouring_http_server.Prelude.{[], ◌∷◌}
use iouring_http_server.Layout.{
  RustType, Binding, array, structure, repr_c, end, size_is, align_is, offset_is, derived, ◌∶◌, ◌▸◌,
}
use iouring_http_server.Bindings.Types.{u32, u64}

abbrev pub io_sqring_offsets : RustType
io_sqring_offsets = structure repr_c (
    "head" ∶ u32
    ▸ "tail" ∶ u32
    ▸ "ring_mask" ∶ u32
    ▸ "ring_entries" ∶ u32
    ▸ "flags" ∶ u32
    ▸ "dropped" ∶ u32
    ▸ "array" ∶ u32
    ▸ "resv1" ∶ u32
    ▸ "user_addr" ∶ u64
    ▸ end)

abbrev pub io_sqring_offsets_binding : Binding
io_sqring_offsets_binding = record {
  layout = io_sqring_offsets;
  asserts =
      size_is 40
      ∷ align_is 8
      ∷ offset_is "head" 0
      ∷ offset_is "tail" 4
      ∷ offset_is "ring_mask" 8
      ∷ offset_is "ring_entries" 12
      ∷ offset_is "flags" 16
      ∷ offset_is "dropped" 20
      ∷ offset_is "array" 24
      ∷ offset_is "resv1" 28
      ∷ offset_is "user_addr" 32
      ∷ [];
  default = derived;
}

abbrev pub io_cqring_offsets : RustType
io_cqring_offsets = structure repr_c (
    "head" ∶ u32
    ▸ "tail" ∶ u32
    ▸ "ring_mask" ∶ u32
    ▸ "ring_entries" ∶ u32
    ▸ "overflow" ∶ u32
    ▸ "cqes" ∶ u32
    ▸ "flags" ∶ u32
    ▸ "resv1" ∶ u32
    ▸ "user_addr" ∶ u64
    ▸ end)

abbrev pub io_cqring_offsets_binding : Binding
io_cqring_offsets_binding = record {
  layout = io_cqring_offsets;
  asserts =
      size_is 40
      ∷ align_is 8
      ∷ offset_is "head" 0
      ∷ offset_is "tail" 4
      ∷ offset_is "ring_mask" 8
      ∷ offset_is "ring_entries" 12
      ∷ offset_is "overflow" 16
      ∷ offset_is "cqes" 20
      ∷ offset_is "flags" 24
      ∷ offset_is "resv1" 28
      ∷ offset_is "user_addr" 32
      ∷ [];
  default = derived;
}

abbrev pub io_uring_params : RustType
io_uring_params = structure repr_c (
    "sq_entries" ∶ u32
    ▸ "cq_entries" ∶ u32
    ▸ "flags" ∶ u32
    ▸ "sq_thread_cpu" ∶ u32
    ▸ "sq_thread_idle" ∶ u32
    ▸ "features" ∶ u32
    ▸ "wq_fd" ∶ u32
    ▸ "resv" ∶ array u32 3
    ▸ "sq_off" ∶ io_sqring_offsets
    ▸ "cq_off" ∶ io_cqring_offsets
    ▸ end)

abbrev pub io_uring_params_binding : Binding
io_uring_params_binding = record {
  layout = io_uring_params;
  asserts =
      size_is 120
      ∷ align_is 8
      ∷ offset_is "sq_entries" 0
      ∷ offset_is "cq_entries" 4
      ∷ offset_is "flags" 8
      ∷ offset_is "sq_thread_cpu" 12
      ∷ offset_is "sq_thread_idle" 16
      ∷ offset_is "features" 20
      ∷ offset_is "wq_fd" 24
      ∷ offset_is "resv" 28
      ∷ offset_is "sq_off" 40
      ∷ offset_is "cq_off" 80
      ∷ [];
  default = derived;
}

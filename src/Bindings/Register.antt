-- ===== src/Bindings/Register.antt =====
-- rexe/src/bindings.rs: the arguments of io_uring_register, first part.
use iouring_http_server.Prelude.{[], ◌∷◌}
use iouring_http_server.Layout.{
  RustType, Binding, array, structure, repr_c, end, size_is, align_is, offset_is, derived, ◌∶◌, ◌▸◌,
}
use iouring_http_server.Bindings.Types.{u16, u32, u64, u8}

abbrev pub io_uring_files_update : RustType
io_uring_files_update = structure repr_c ("offset" ∶ u32 ▸ "resv" ∶ u32 ▸ "fds" ∶ u64 ▸ end)

abbrev pub io_uring_files_update_binding : Binding
io_uring_files_update_binding = record {
  layout = io_uring_files_update;
  asserts =
      size_is 16 ∷ align_is 8 ∷ offset_is "offset" 0 ∷ offset_is "resv" 4 ∷ offset_is "fds" 8 ∷ [];
  default = derived;
}

abbrev pub io_uring_region_desc : RustType
io_uring_region_desc = structure repr_c (
    "user_addr" ∶ u64
    ▸ "size" ∶ u64
    ▸ "flags" ∶ u32
    ▸ "id" ∶ u32
    ▸ "mmap_offset" ∶ u64
    ▸ "__resv" ∶ array u64 4
    ▸ end)

abbrev pub io_uring_region_desc_binding : Binding
io_uring_region_desc_binding = record {
  layout = io_uring_region_desc;
  asserts =
      size_is 64
      ∷ align_is 8
      ∷ offset_is "user_addr" 0
      ∷ offset_is "size" 8
      ∷ offset_is "flags" 16
      ∷ offset_is "id" 20
      ∷ offset_is "mmap_offset" 24
      ∷ offset_is "__resv" 32
      ∷ [];
  default = derived;
}

abbrev pub io_uring_mem_region_reg : RustType
io_uring_mem_region_reg =
    structure repr_c ("region_uptr" ∶ u64 ▸ "flags" ∶ u64 ▸ "__resv" ∶ array u64 2 ▸ end)

abbrev pub io_uring_mem_region_reg_binding : Binding
io_uring_mem_region_reg_binding = record {
  layout = io_uring_mem_region_reg;
  asserts =
      size_is 32
      ∷ align_is 8
      ∷ offset_is "region_uptr" 0
      ∷ offset_is "flags" 8
      ∷ offset_is "__resv" 16
      ∷ [];
  default = derived;
}

abbrev pub io_uring_rsrc_register : RustType
io_uring_rsrc_register =
    structure repr_c
      ("nr" ∶ u32 ▸ "flags" ∶ u32 ▸ "resv2" ∶ u64 ▸ "data" ∶ u64 ▸ "tags" ∶ u64 ▸ end)

abbrev pub io_uring_rsrc_register_binding : Binding
io_uring_rsrc_register_binding = record {
  layout = io_uring_rsrc_register;
  asserts =
      size_is 32
      ∷ align_is 8
      ∷ offset_is "nr" 0
      ∷ offset_is "flags" 4
      ∷ offset_is "resv2" 8
      ∷ offset_is "data" 16
      ∷ offset_is "tags" 24
      ∷ [];
  default = derived;
}

abbrev pub io_uring_rsrc_update : RustType
io_uring_rsrc_update = structure repr_c ("offset" ∶ u32 ▸ "resv" ∶ u32 ▸ "data" ∶ u64 ▸ end)

abbrev pub io_uring_rsrc_update_binding : Binding
io_uring_rsrc_update_binding = record {
  layout = io_uring_rsrc_update;
  asserts =
      size_is 16 ∷ align_is 8 ∷ offset_is "offset" 0 ∷ offset_is "resv" 4 ∷ offset_is "data" 8 ∷ [];
  default = derived;
}

abbrev pub io_uring_rsrc_update2 : RustType
io_uring_rsrc_update2 =
    structure repr_c (
      "offset" ∶ u32
      ▸ "resv" ∶ u32
      ▸ "data" ∶ u64
      ▸ "tags" ∶ u64
      ▸ "nr" ∶ u32
      ▸ "resv2" ∶ u32
      ▸ end)

abbrev pub io_uring_rsrc_update2_binding : Binding
io_uring_rsrc_update2_binding = record {
  layout = io_uring_rsrc_update2;
  asserts =
      size_is 32
      ∷ align_is 8
      ∷ offset_is "offset" 0
      ∷ offset_is "resv" 4
      ∷ offset_is "data" 8
      ∷ offset_is "tags" 16
      ∷ offset_is "nr" 24
      ∷ offset_is "resv2" 28
      ∷ [];
  default = derived;
}

abbrev pub io_uring_probe_op : RustType
io_uring_probe_op = structure repr_c ("op" ∶ u8 ▸ "resv" ∶ u8 ▸ "flags" ∶ u16 ▸ "resv2" ∶ u32 ▸ end)

abbrev pub io_uring_probe_op_binding : Binding
io_uring_probe_op_binding = record {
  layout = io_uring_probe_op;
  asserts =
      size_is 8
      ∷ align_is 4
      ∷ offset_is "op" 0
      ∷ offset_is "resv" 1
      ∷ offset_is "flags" 2
      ∷ offset_is "resv2" 4
      ∷ [];
  default = derived;
}

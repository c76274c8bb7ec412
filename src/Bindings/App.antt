-- ===== src/Bindings/App.antt =====
-- rexe/src/bindings.rs: the types of clib.
use iouring_http_server.Prelude.{[], ◌∷◌}
use iouring_http_server.Layout.{
  RustType, Binding, scalar, structure, union, repr_c, end, rust_u8, rust_u16, rust_u32, rust_u64,
  pointer, size_is, align_is, offset_is, derived, zeroed, ◌∶◌, ◌▸◌,
}
use iouring_http_server.Bindings.Rings.{io_uring}

abbrev pub bufring_init_params_t : RustType
bufring_init_params_t =
    structure repr_c (
      "entries" ∶ scalar rust_u16 ▸ "entry_size" ∶ scalar rust_u16 ▸ "bgid" ∶ scalar rust_u16 ▸ end)

abbrev pub bufring_init_params_t_binding : Binding
bufring_init_params_t_binding = record {
  layout = bufring_init_params_t;
  asserts =
      size_is 6
      ∷ align_is 2
      ∷ offset_is "entries" 0
      ∷ offset_is "entry_size" 2
      ∷ offset_is "bgid" 4
      ∷ [];
  default = derived;
}

abbrev pub bufring_t : RustType
bufring_t =
    structure repr_c
      ("br" ∶ scalar pointer ▸ "bufs" ∶ scalar pointer ▸ "params" ∶ bufring_init_params_t ▸ end)

abbrev pub bufring_t_binding : Binding
bufring_t_binding = record {
  layout = bufring_t;
  asserts =
      size_is 24 ∷ align_is 8 ∷ offset_is "br" 0 ∷ offset_is "bufs" 8 ∷ offset_is "params" 16 ∷ [];
  default = zeroed;
}

abbrev pub bufpool_t : RustType
bufpool_t = structure repr_c (
    "buf" ∶ scalar pointer
    ▸ "iovecs" ∶ scalar pointer
    ▸ "freelist_mem" ∶ scalar pointer
    ▸ "freelist_head" ∶ scalar pointer
    ▸ end)

abbrev pub bufpool_t_binding : Binding
bufpool_t_binding = record {
  layout = bufpool_t;
  asserts =
      size_is 32
      ∷ align_is 8
      ∷ offset_is "buf" 0
      ∷ offset_is "iovecs" 8
      ∷ offset_is "freelist_mem" 16
      ∷ offset_is "freelist_head" 24
      ∷ [];
  default = zeroed;
}

abbrev pub bufpool_freebuf_t : RustType
bufpool_freebuf_t =
    structure repr_c
      ("bid" ∶ scalar rust_u16 ▸ "iov" ∶ scalar pointer ▸ "next" ∶ scalar pointer ▸ end)

abbrev pub bufpool_freebuf_t_binding : Binding
bufpool_freebuf_t_binding = record {
  layout = bufpool_freebuf_t;
  asserts =
      size_is 24 ∷ align_is 8 ∷ offset_is "bid" 0 ∷ offset_is "iov" 8 ∷ offset_is "next" 16 ∷ [];
  default = zeroed;
}

abbrev pub appctx_t : RustType
appctx_t =
    structure repr_c
      ("uring" ∶ io_uring ▸ "bufpool" ∶ bufpool_t ▸ "bufrings" ∶ scalar pointer ▸ end)

abbrev pub appctx_t_binding : Binding
appctx_t_binding = record {
  layout = appctx_t;
  asserts =
      size_is 256
      ∷ align_is 8
      ∷ offset_is "uring" 0
      ∷ offset_is "bufpool" 216
      ∷ offset_is "bufrings" 248
      ∷ [];
  default = zeroed;
}

abbrev pub userdata_bindgen_ty_1_bindgen_ty_1 : RustType
userdata_bindgen_ty_1_bindgen_ty_1 =
    structure repr_c ("fd" ∶ scalar rust_u32 ▸ "op" ∶ scalar rust_u8 ▸ end)

abbrev pub userdata_bindgen_ty_1_bindgen_ty_1_binding : Binding
userdata_bindgen_ty_1_bindgen_ty_1_binding = record {
  layout = userdata_bindgen_ty_1_bindgen_ty_1;
  asserts = size_is 8 ∷ align_is 4 ∷ offset_is "fd" 0 ∷ offset_is "op" 4 ∷ [];
  default = derived;
}

abbrev pub userdata_bindgen_ty_1 : RustType
userdata_bindgen_ty_1 =
    union repr_c
      ("__bindgen_anon_1" ∶ userdata_bindgen_ty_1_bindgen_ty_1 ▸ "val" ∶ scalar rust_u64 ▸ end)

abbrev pub userdata_bindgen_ty_1_binding : Binding
userdata_bindgen_ty_1_binding = record {
  layout = userdata_bindgen_ty_1;
  asserts = size_is 8 ∷ align_is 8 ∷ offset_is "val" 0 ∷ [];
  default = zeroed;
}

abbrev pub userdata : RustType
userdata = structure repr_c ("__bindgen_anon_1" ∶ userdata_bindgen_ty_1 ▸ end)

abbrev pub userdata_binding : Binding
userdata_binding = record {
  layout = userdata;
  asserts = size_is 8 ∷ align_is 8 ∷ [];
  default = zeroed;
}

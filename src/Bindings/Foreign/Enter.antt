-- ===== src/Bindings/Foreign/Enter.antt =====
-- Functions of liburing that rexe/src/bindings.rs declares: buffer rings, and the system calls themselves.
use iouring_http_server.Prelude.{List, [], ◌∷◌}
use iouring_http_server.Layout.{rust_u16, rust_usize, c_int, c_uint}
use iouring_http_server.Bindings.Table.{BindingName}
use iouring_http_server.Bindings.Foreign.{function, Function, void, prim, named, const_ptr, mut_ptr}

abbrev pub enter_functions : List Function
enter_functions =
    function "io_uring_register_buf_ring"
      (("ring", mut_ptr (named BindingName.io_uring))
        ∷ ("reg", mut_ptr (named BindingName.io_uring_buf_reg))
        ∷ ("flags", prim c_uint)
        ∷ [])
      (prim c_int)
    ∷ function "io_uring_unregister_buf_ring"
        (("ring", mut_ptr (named BindingName.io_uring)) ∷ ("bgid", prim c_int) ∷ []) (prim c_int)
    ∷ function "io_uring_buf_ring_head"
        (("ring", mut_ptr (named BindingName.io_uring))
          ∷ ("buf_group", prim c_int)
          ∷ ("head", mut_ptr (prim rust_u16))
          ∷ [])
        (prim c_int)
    ∷ function "io_uring_register_sync_cancel"
        (("ring", mut_ptr (named BindingName.io_uring))
          ∷ ("reg", mut_ptr (named BindingName.io_uring_sync_cancel_reg))
          ∷ [])
        (prim c_int)
    ∷ function "io_uring_register_file_alloc_range"
        (("ring", mut_ptr (named BindingName.io_uring))
          ∷ ("off", prim c_uint)
          ∷ ("len", prim c_uint)
          ∷ [])
        (prim c_int)
    ∷ function "io_uring_register_napi"
        (("ring", mut_ptr (named BindingName.io_uring))
          ∷ ("napi", mut_ptr (named BindingName.io_uring_napi))
          ∷ [])
        (prim c_int)
    ∷ function "io_uring_unregister_napi"
        (("ring", mut_ptr (named BindingName.io_uring))
          ∷ ("napi", mut_ptr (named BindingName.io_uring_napi))
          ∷ [])
        (prim c_int)
    ∷ function "io_uring_register_clock"
        (("ring", mut_ptr (named BindingName.io_uring))
          ∷ ("arg", mut_ptr (named BindingName.io_uring_clock_register))
          ∷ [])
        (prim c_int)
    ∷ function "io_uring_get_events" (("ring", mut_ptr (named BindingName.io_uring)) ∷ [])
        (prim c_int)
    ∷ function "io_uring_submit_and_get_events"
        (("ring", mut_ptr (named BindingName.io_uring)) ∷ []) (prim c_int)
    ∷ function "io_uring_enter"
        (("fd", prim c_uint)
          ∷ ("to_submit", prim c_uint)
          ∷ ("min_complete", prim c_uint)
          ∷ ("flags", prim c_uint)
          ∷ ("sig", mut_ptr (named BindingName.sigset_t))
          ∷ [])
        (prim c_int)
    ∷ function "io_uring_enter2"
        (("fd", prim c_uint)
          ∷ ("to_submit", prim c_uint)
          ∷ ("min_complete", prim c_uint)
          ∷ ("flags", prim c_uint)
          ∷ ("sig", mut_ptr (named BindingName.sigset_t))
          ∷ ("sz", prim rust_usize)
          ∷ [])
        (prim c_int)
    ∷ function "io_uring_setup"
        (("entries", prim c_uint) ∷ ("p", mut_ptr (named BindingName.io_uring_params)) ∷ [])
        (prim c_int)
    ∷ function "io_uring_register"
        (("fd", prim c_uint)
          ∷ ("opcode", prim c_uint)
          ∷ ("arg", const_ptr void)
          ∷ ("nr_args", prim c_uint)
          ∷ [])
        (prim c_int)
    ∷ function "io_uring_register_region"
        (("ring", mut_ptr (named BindingName.io_uring))
          ∷ ("reg", mut_ptr (named BindingName.io_uring_mem_region_reg))
          ∷ [])
        (prim c_int)
    ∷ function "io_uring_setup_buf_ring"
        (("ring", mut_ptr (named BindingName.io_uring))
          ∷ ("nentries", prim c_uint)
          ∷ ("bgid", prim c_int)
          ∷ ("flags", prim c_uint)
          ∷ ("err", mut_ptr (prim c_int))
          ∷ [])
        (mut_ptr (named BindingName.io_uring_buf_ring))
    ∷ function "io_uring_free_buf_ring"
        (("ring", mut_ptr (named BindingName.io_uring))
          ∷ ("br", mut_ptr (named BindingName.io_uring_buf_ring))
          ∷ ("nentries", prim c_uint)
          ∷ ("bgid", prim c_int)
          ∷ [])
        (prim c_int)
    ∷ []

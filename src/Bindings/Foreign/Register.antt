-- ===== src/Bindings/Foreign/Register.antt =====
-- Functions of liburing that rexe/src/bindings.rs declares: registering buffers, files and events.
use iouring_http_server.Prelude.{List, [], ◌∷◌}
use iouring_http_server.Layout.{c_int, c_uint, c_ulonglong}
use iouring_http_server.Bindings.Table.{BindingName}
use iouring_http_server.Bindings.Foreign.{function, Function, prim, named, const_ptr, mut_ptr}

abbrev pub register_functions : List Function
register_functions =
    function "io_uring_register_buffers"
      (("ring", mut_ptr (named BindingName.io_uring))
        ∷ ("iovecs", const_ptr (named BindingName.iovec))
        ∷ ("nr_iovecs", prim c_uint)
        ∷ [])
      (prim c_int)
    ∷ function "io_uring_register_buffers_tags"
        (("ring", mut_ptr (named BindingName.io_uring))
          ∷ ("iovecs", const_ptr (named BindingName.iovec))
          ∷ ("tags", const_ptr (prim c_ulonglong))
          ∷ ("nr", prim c_uint)
          ∷ [])
        (prim c_int)
    ∷ function "io_uring_register_buffers_sparse"
        (("ring", mut_ptr (named BindingName.io_uring)) ∷ ("nr", prim c_uint) ∷ []) (prim c_int)
    ∷ function "io_uring_register_buffers_update_tag"
        (("ring", mut_ptr (named BindingName.io_uring))
          ∷ ("off", prim c_uint)
          ∷ ("iovecs", const_ptr (named BindingName.iovec))
          ∷ ("tags", const_ptr (prim c_ulonglong))
          ∷ ("nr", prim c_uint)
          ∷ [])
        (prim c_int)
    ∷ function "io_uring_unregister_buffers" (("ring", mut_ptr (named BindingName.io_uring)) ∷ [])
        (prim c_int)
    ∷ function "io_uring_register_files"
        (("ring", mut_ptr (named BindingName.io_uring))
          ∷ ("files", const_ptr (prim c_int))
          ∷ ("nr_files", prim c_uint)
          ∷ [])
        (prim c_int)
    ∷ function "io_uring_register_files_tags"
        (("ring", mut_ptr (named BindingName.io_uring))
          ∷ ("files", const_ptr (prim c_int))
          ∷ ("tags", const_ptr (prim c_ulonglong))
          ∷ ("nr", prim c_uint)
          ∷ [])
        (prim c_int)
    ∷ function "io_uring_register_files_sparse"
        (("ring", mut_ptr (named BindingName.io_uring)) ∷ ("nr", prim c_uint) ∷ []) (prim c_int)
    ∷ function "io_uring_register_files_update_tag"
        (("ring", mut_ptr (named BindingName.io_uring))
          ∷ ("off", prim c_uint)
          ∷ ("files", const_ptr (prim c_int))
          ∷ ("tags", const_ptr (prim c_ulonglong))
          ∷ ("nr_files", prim c_uint)
          ∷ [])
        (prim c_int)
    ∷ function "io_uring_unregister_files" (("ring", mut_ptr (named BindingName.io_uring)) ∷ [])
        (prim c_int)
    ∷ function "io_uring_register_files_update"
        (("ring", mut_ptr (named BindingName.io_uring))
          ∷ ("off", prim c_uint)
          ∷ ("files", const_ptr (prim c_int))
          ∷ ("nr_files", prim c_uint)
          ∷ [])
        (prim c_int)
    ∷ function "io_uring_register_eventfd"
        (("ring", mut_ptr (named BindingName.io_uring)) ∷ ("fd", prim c_int) ∷ []) (prim c_int)
    ∷ function "io_uring_register_eventfd_async"
        (("ring", mut_ptr (named BindingName.io_uring)) ∷ ("fd", prim c_int) ∷ []) (prim c_int)
    ∷ function "io_uring_unregister_eventfd" (("ring", mut_ptr (named BindingName.io_uring)) ∷ [])
        (prim c_int)
    ∷ function "io_uring_register_probe"
        (("ring", mut_ptr (named BindingName.io_uring))
          ∷ ("p", mut_ptr (named BindingName.io_uring_probe))
          ∷ ("nr", prim c_uint)
          ∷ [])
        (prim c_int)
    ∷ function "io_uring_register_personality" (("ring", mut_ptr (named BindingName.io_uring)) ∷ [])
        (prim c_int)
    ∷ function "io_uring_unregister_personality"
        (("ring", mut_ptr (named BindingName.io_uring)) ∷ ("id", prim c_int) ∷ []) (prim c_int)
    ∷ function "io_uring_register_restrictions"
        (("ring", mut_ptr (named BindingName.io_uring))
          ∷ ("res", mut_ptr (named BindingName.io_uring_restriction))
          ∷ ("nr_res", prim c_uint)
          ∷ [])
        (prim c_int)
    ∷ function "io_uring_enable_rings" (("ring", mut_ptr (named BindingName.io_uring)) ∷ [])
        (prim c_int)
    ∷ function "io_uring_unregister_iowq_aff" (("ring", mut_ptr (named BindingName.io_uring)) ∷ [])
        (prim c_int)
    ∷ function "io_uring_register_iowq_max_workers"
        (("ring", mut_ptr (named BindingName.io_uring)) ∷ ("values", mut_ptr (prim c_uint)) ∷ [])
        (prim c_int)
    ∷ function "io_uring_register_ring_fd" (("ring", mut_ptr (named BindingName.io_uring)) ∷ [])
        (prim c_int)
    ∷ function "io_uring_unregister_ring_fd" (("ring", mut_ptr (named BindingName.io_uring)) ∷ [])
        (prim c_int)
    ∷ function "io_uring_close_ring_fd" (("ring", mut_ptr (named BindingName.io_uring)) ∷ [])
        (prim c_int)
    ∷ []

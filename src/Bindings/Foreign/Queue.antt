-- ===== src/Bindings/Foreign/Queue.antt =====
-- Functions of liburing that rexe/src/bindings.rs declares: setting a ring up, submitting and waiting.
use iouring_http_server.Prelude.{List, [], ◌∷◌}
use iouring_http_server.Layout.{rust_usize, c_int, c_uint}
use iouring_http_server.Bindings.Table.{BindingName}
use iouring_http_server.Bindings.Foreign.{function, Function, void, prim, named, const_ptr, mut_ptr}

abbrev pub queue_functions : List Function
queue_functions =
    function "io_uring_get_probe_ring" (("ring", mut_ptr (named BindingName.io_uring)) ∷ [])
      (mut_ptr (named BindingName.io_uring_probe))
    ∷ function "io_uring_get_probe" ([]) (mut_ptr (named BindingName.io_uring_probe))
    ∷ function "io_uring_free_probe" (("probe", mut_ptr (named BindingName.io_uring_probe)) ∷ [])
        void
    ∷ function "io_uring_opcode_supported"
        (("p", const_ptr (named BindingName.io_uring_probe)) ∷ ("op", prim c_int) ∷ []) (prim c_int)
    ∷ function "io_uring_queue_init_mem"
        (("entries", prim c_uint)
          ∷ ("ring", mut_ptr (named BindingName.io_uring))
          ∷ ("p", mut_ptr (named BindingName.io_uring_params))
          ∷ ("buf", mut_ptr void)
          ∷ ("buf_size", prim rust_usize)
          ∷ [])
        (prim c_int)
    ∷ function "io_uring_queue_init_params"
        (("entries", prim c_uint)
          ∷ ("ring", mut_ptr (named BindingName.io_uring))
          ∷ ("p", mut_ptr (named BindingName.io_uring_params))
          ∷ [])
        (prim c_int)
    ∷ function "io_uring_queue_init"
        (("entries", prim c_uint)
          ∷ ("ring", mut_ptr (named BindingName.io_uring))
          ∷ ("flags", prim c_uint)
          ∷ [])
        (prim c_int)
    ∷ function "io_uring_queue_mmap"
        (("fd", prim c_int)
          ∷ ("p", mut_ptr (named BindingName.io_uring_params))
          ∷ ("ring", mut_ptr (named BindingName.io_uring))
          ∷ [])
        (prim c_int)
    ∷ function "io_uring_ring_dontfork" (("ring", mut_ptr (named BindingName.io_uring)) ∷ [])
        (prim c_int)
    ∷ function "io_uring_queue_exit" (("ring", mut_ptr (named BindingName.io_uring)) ∷ []) void
    ∷ function "io_uring_peek_batch_cqe"
        (("ring", mut_ptr (named BindingName.io_uring))
          ∷ ("cqes", mut_ptr (mut_ptr (named BindingName.io_uring_cqe)))
          ∷ ("count", prim c_uint)
          ∷ [])
        (prim c_uint)
    ∷ function "io_uring_wait_cqes"
        (("ring", mut_ptr (named BindingName.io_uring))
          ∷ ("cqe_ptr", mut_ptr (mut_ptr (named BindingName.io_uring_cqe)))
          ∷ ("wait_nr", prim c_uint)
          ∷ ("ts", mut_ptr (named BindingName.kernel_timespec))
          ∷ ("sigmask", mut_ptr (named BindingName.sigset_t))
          ∷ [])
        (prim c_int)
    ∷ function "io_uring_wait_cqes_min_timeout"
        (("ring", mut_ptr (named BindingName.io_uring))
          ∷ ("cqe_ptr", mut_ptr (mut_ptr (named BindingName.io_uring_cqe)))
          ∷ ("wait_nr", prim c_uint)
          ∷ ("ts", mut_ptr (named BindingName.kernel_timespec))
          ∷ ("min_ts_usec", prim c_uint)
          ∷ ("sigmask", mut_ptr (named BindingName.sigset_t))
          ∷ [])
        (prim c_int)
    ∷ function "io_uring_wait_cqe_timeout"
        (("ring", mut_ptr (named BindingName.io_uring))
          ∷ ("cqe_ptr", mut_ptr (mut_ptr (named BindingName.io_uring_cqe)))
          ∷ ("ts", mut_ptr (named BindingName.kernel_timespec))
          ∷ [])
        (prim c_int)
    ∷ function "io_uring_submit" (("ring", mut_ptr (named BindingName.io_uring)) ∷ []) (prim c_int)
    ∷ function "io_uring_submit_and_wait"
        (("ring", mut_ptr (named BindingName.io_uring)) ∷ ("wait_nr", prim c_uint) ∷ [])
        (prim c_int)
    ∷ function "io_uring_submit_and_wait_timeout"
        (("ring", mut_ptr (named BindingName.io_uring))
          ∷ ("cqe_ptr", mut_ptr (mut_ptr (named BindingName.io_uring_cqe)))
          ∷ ("wait_nr", prim c_uint)
          ∷ ("ts", mut_ptr (named BindingName.kernel_timespec))
          ∷ ("sigmask", mut_ptr (named BindingName.sigset_t))
          ∷ [])
        (prim c_int)
    ∷ function "io_uring_submit_and_wait_min_timeout"
        (("ring", mut_ptr (named BindingName.io_uring))
          ∷ ("cqe_ptr", mut_ptr (mut_ptr (named BindingName.io_uring_cqe)))
          ∷ ("wait_nr", prim c_uint)
          ∷ ("ts", mut_ptr (named BindingName.kernel_timespec))
          ∷ ("min_wait", prim c_uint)
          ∷ ("sigmask", mut_ptr (named BindingName.sigset_t))
          ∷ [])
        (prim c_int)
    ∷ function "io_uring_submit_and_wait_reg"
        (("ring", mut_ptr (named BindingName.io_uring))
          ∷ ("cqe_ptr", mut_ptr (mut_ptr (named BindingName.io_uring_cqe)))
          ∷ ("wait_nr", prim c_uint)
          ∷ ("reg_index", prim c_int)
          ∷ [])
        (prim c_int)
    ∷ function "io_uring_register_wait_reg"
        (("ring", mut_ptr (named BindingName.io_uring))
          ∷ ("reg", mut_ptr (named BindingName.io_uring_reg_wait))
          ∷ ("nr", prim c_int)
          ∷ [])
        (prim c_int)
    ∷ function "io_uring_resize_rings"
        (("ring", mut_ptr (named BindingName.io_uring))
          ∷ ("p", mut_ptr (named BindingName.io_uring_params))
          ∷ [])
        (prim c_int)
    ∷ function "io_uring_clone_buffers_offset"
        (("dst", mut_ptr (named BindingName.io_uring))
          ∷ ("src", mut_ptr (named BindingName.io_uring))
          ∷ ("dst_off", prim c_uint)
          ∷ ("src_off", prim c_uint)
          ∷ ("nr", prim c_uint)
          ∷ ("flags", prim c_uint)
          ∷ [])
        (prim c_int)
    ∷ function "io_uring_clone_buffers"
        (("dst", mut_ptr (named BindingName.io_uring))
          ∷ ("src", mut_ptr (named BindingName.io_uring))
          ∷ [])
        (prim c_int)
    ∷ []

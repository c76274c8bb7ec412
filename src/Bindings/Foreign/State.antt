-- ===== src/Bindings/Foreign/State.antt =====
-- Functions of liburing that rexe/src/bindings.rs declares: the state of the queues and of buffer rings.
use iouring_http_server.Prelude.{List, [], ◌∷◌}
use iouring_http_server.Layout.{rust_u32, rust_u64, rust_isize, rust_bool, c_ushort, c_int, c_uint}
use iouring_http_server.Bindings.Table.{BindingName}
use iouring_http_server.Bindings.Foreign.{
  function, Function, void, prim, named, opaque, const_ptr, mut_ptr, futex_waitv,
}

abbrev pub state_functions : List Function
state_functions =
    function "io_uring_prep_futex_waitv"
      (("sqe", mut_ptr (named BindingName.io_uring_sqe))
        ∷ ("futex", mut_ptr (opaque futex_waitv))
        ∷ ("nr_futex", prim rust_u32)
        ∷ ("flags", prim c_uint)
        ∷ [])
      void
    ∷ function "io_uring_prep_fixed_fd_install"
        (("sqe", mut_ptr (named BindingName.io_uring_sqe))
          ∷ ("fd", prim c_int)
          ∷ ("flags", prim c_uint)
          ∷ [])
        void
    ∷ function "io_uring_prep_cmd_discard"
        (("sqe", mut_ptr (named BindingName.io_uring_sqe))
          ∷ ("fd", prim c_int)
          ∷ ("offset", prim rust_u64)
          ∷ ("nbytes", prim rust_u64)
          ∷ [])
        void
    ∷ function "io_uring_sq_ready" (("ring", const_ptr (named BindingName.io_uring)) ∷ [])
        (prim c_uint)
    ∷ function "io_uring_sq_space_left" (("ring", const_ptr (named BindingName.io_uring)) ∷ [])
        (prim c_uint)
    ∷ function "io_uring_sqring_wait" (("ring", mut_ptr (named BindingName.io_uring)) ∷ [])
        (prim c_int)
    ∷ function "io_uring_cq_ready" (("ring", const_ptr (named BindingName.io_uring)) ∷ [])
        (prim c_uint)
    ∷ function "io_uring_cq_has_overflow" (("ring", const_ptr (named BindingName.io_uring)) ∷ [])
        (prim rust_bool)
    ∷ function "io_uring_cq_eventfd_enabled" (("ring", const_ptr (named BindingName.io_uring)) ∷ [])
        (prim rust_bool)
    ∷ function "io_uring_cq_eventfd_toggle"
        (("ring", mut_ptr (named BindingName.io_uring)) ∷ ("enabled", prim rust_bool) ∷ [])
        (prim c_int)
    ∷ function "io_uring_wait_cqe_nr"
        (("ring", mut_ptr (named BindingName.io_uring))
          ∷ ("cqe_ptr", mut_ptr (mut_ptr (named BindingName.io_uring_cqe)))
          ∷ ("wait_nr", prim c_uint)
          ∷ [])
        (prim c_int)
    ∷ function "io_uring_peek_cqe"
        (("ring", mut_ptr (named BindingName.io_uring))
          ∷ ("cqe_ptr", mut_ptr (mut_ptr (named BindingName.io_uring_cqe)))
          ∷ [])
        (prim c_int)
    ∷ function "io_uring_wait_cqe"
        (("ring", mut_ptr (named BindingName.io_uring))
          ∷ ("cqe_ptr", mut_ptr (mut_ptr (named BindingName.io_uring_cqe)))
          ∷ [])
        (prim c_int)
    ∷ function "io_uring_buf_ring_mask" (("ring_entries", prim c_uint) ∷ []) (prim c_int)
    ∷ function "io_uring_buf_ring_init" (("br", mut_ptr (named BindingName.io_uring_buf_ring)) ∷ [])
        void
    ∷ function "io_uring_buf_ring_add"
        (("br", mut_ptr (named BindingName.io_uring_buf_ring))
          ∷ ("addr", mut_ptr void)
          ∷ ("len", prim c_uint)
          ∷ ("bid", prim c_ushort)
          ∷ ("mask", prim c_int)
          ∷ ("buf_offset", prim c_int)
          ∷ [])
        void
    ∷ function "io_uring_buf_ring_advance"
        (("br", mut_ptr (named BindingName.io_uring_buf_ring)) ∷ ("count", prim c_int) ∷ []) void
    ∷ function "io_uring_buf_ring_cq_advance"
        (("ring", mut_ptr (named BindingName.io_uring))
          ∷ ("br", mut_ptr (named BindingName.io_uring_buf_ring))
          ∷ ("count", prim c_int)
          ∷ [])
        void
    ∷ function "io_uring_buf_ring_available"
        (("ring", mut_ptr (named BindingName.io_uring))
          ∷ ("br", mut_ptr (named BindingName.io_uring_buf_ring))
          ∷ ("bgid", prim c_ushort)
          ∷ [])
        (prim c_int)
    ∷ function "io_uring_get_sqe" (("ring", mut_ptr (named BindingName.io_uring)) ∷ [])
        (mut_ptr (named BindingName.io_uring_sqe))
    ∷ function "io_uring_mlock_size" (("entries", prim c_uint) ∷ ("flags", prim c_uint) ∷ [])
        (prim rust_isize)
    ∷ function "io_uring_mlock_size_params"
        (("entries", prim c_uint) ∷ ("p", mut_ptr (named BindingName.io_uring_params)) ∷ [])
        (prim rust_isize)
    ∷ function "io_uring_major_version" ([]) (prim c_int)
    ∷ function "io_uring_minor_version" ([]) (prim c_int)
    ∷ function "io_uring_check_version" (("major", prim c_int) ∷ ("minor", prim c_int) ∷ [])
        (prim rust_bool)
    ∷ []

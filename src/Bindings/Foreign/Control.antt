-- ===== src/Bindings/Foreign/Control.antt =====
-- Functions of liburing that rexe/src/bindings.rs declares: messages between rings, attributes, sockets and futexes.
use iouring_http_server.Prelude.{List, [], ◌∷◌}
use iouring_http_server.Layout.{rust_u32, rust_u64, c_char, c_int, c_uint, c_ulonglong}
use iouring_http_server.Bindings.Table.{BindingName}
use iouring_http_server.Bindings.Foreign.{function, Function, void, prim, named, const_ptr, mut_ptr}

abbrev pub control_functions : List Function
control_functions =
    function "io_uring_prep_msg_ring_cqe_flags"
      (("sqe", mut_ptr (named BindingName.io_uring_sqe))
        ∷ ("fd", prim c_int)
        ∷ ("len", prim c_uint)
        ∷ ("data", prim c_ulonglong)
        ∷ ("flags", prim c_uint)
        ∷ ("cqe_flags", prim c_uint)
        ∷ [])
      void
    ∷ function "io_uring_prep_msg_ring"
        (("sqe", mut_ptr (named BindingName.io_uring_sqe))
          ∷ ("fd", prim c_int)
          ∷ ("len", prim c_uint)
          ∷ ("data", prim c_ulonglong)
          ∷ ("flags", prim c_uint)
          ∷ [])
        void
    ∷ function "io_uring_prep_msg_ring_fd"
        (("sqe", mut_ptr (named BindingName.io_uring_sqe))
          ∷ ("fd", prim c_int)
          ∷ ("source_fd", prim c_int)
          ∷ ("target_fd", prim c_int)
          ∷ ("data", prim c_ulonglong)
          ∷ ("flags", prim c_uint)
          ∷ [])
        void
    ∷ function "io_uring_prep_msg_ring_fd_alloc"
        (("sqe", mut_ptr (named BindingName.io_uring_sqe))
          ∷ ("fd", prim c_int)
          ∷ ("source_fd", prim c_int)
          ∷ ("data", prim c_ulonglong)
          ∷ ("flags", prim c_uint)
          ∷ [])
        void
    ∷ function "io_uring_prep_getxattr"
        (("sqe", mut_ptr (named BindingName.io_uring_sqe))
          ∷ ("name", const_ptr (prim c_char))
          ∷ ("value", mut_ptr (prim c_char))
          ∷ ("path", const_ptr (prim c_char))
          ∷ ("len", prim c_uint)
          ∷ [])
        void
    ∷ function "io_uring_prep_setxattr"
        (("sqe", mut_ptr (named BindingName.io_uring_sqe))
          ∷ ("name", const_ptr (prim c_char))
          ∷ ("value", const_ptr (prim c_char))
          ∷ ("path", const_ptr (prim c_char))
          ∷ ("flags", prim c_int)
          ∷ ("len", prim c_uint)
          ∷ [])
        void
    ∷ function "io_uring_prep_fgetxattr"
        (("sqe", mut_ptr (named BindingName.io_uring_sqe))
          ∷ ("fd", prim c_int)
          ∷ ("name", const_ptr (prim c_char))
          ∷ ("value", mut_ptr (prim c_char))
          ∷ ("len", prim c_uint)
          ∷ [])
        void
    ∷ function "io_uring_prep_fsetxattr"
        (("sqe", mut_ptr (named BindingName.io_uring_sqe))
          ∷ ("fd", prim c_int)
          ∷ ("name", const_ptr (prim c_char))
          ∷ ("value", const_ptr (prim c_char))
          ∷ ("flags", prim c_int)
          ∷ ("len", prim c_uint)
          ∷ [])
        void
    ∷ function "io_uring_prep_socket"
        (("sqe", mut_ptr (named BindingName.io_uring_sqe))
          ∷ ("domain", prim c_int)
          ∷ ("type_", prim c_int)
          ∷ ("protocol", prim c_int)
          ∷ ("flags", prim c_uint)
          ∷ [])
        void
    ∷ function "io_uring_prep_socket_direct"
        (("sqe", mut_ptr (named BindingName.io_uring_sqe))
          ∷ ("domain", prim c_int)
          ∷ ("type_", prim c_int)
          ∷ ("protocol", prim c_int)
          ∷ ("file_index", prim c_uint)
          ∷ ("flags", prim c_uint)
          ∷ [])
        void
    ∷ function "io_uring_prep_socket_direct_alloc"
        (("sqe", mut_ptr (named BindingName.io_uring_sqe))
          ∷ ("domain", prim c_int)
          ∷ ("type_", prim c_int)
          ∷ ("protocol", prim c_int)
          ∷ ("flags", prim c_uint)
          ∷ [])
        void
    ∷ function "io_uring_prep_cmd_sock"
        (("sqe", mut_ptr (named BindingName.io_uring_sqe))
          ∷ ("cmd_op", prim c_int)
          ∷ ("fd", prim c_int)
          ∷ ("level", prim c_int)
          ∷ ("optname", prim c_int)
          ∷ ("optval", mut_ptr void)
          ∷ ("optlen", prim c_int)
          ∷ [])
        void
    ∷ function "io_uring_prep_waitid"
        (("sqe", mut_ptr (named BindingName.io_uring_sqe))
          ∷ ("idtype", prim c_uint)
          ∷ ("id", prim c_uint)
          ∷ ("infop", mut_ptr (named BindingName.siginfo_t))
          ∷ ("options", prim c_int)
          ∷ ("flags", prim c_uint)
          ∷ [])
        void
    ∷ function "io_uring_prep_futex_wake"
        (("sqe", mut_ptr (named BindingName.io_uring_sqe))
          ∷ ("futex", mut_ptr (prim rust_u32))
          ∷ ("val", prim rust_u64)
          ∷ ("mask", prim rust_u64)
          ∷ ("futex_flags", prim rust_u32)
          ∷ ("flags", prim c_uint)
          ∷ [])
        void
    ∷ function "io_uring_prep_futex_wait"
        (("sqe", mut_ptr (named BindingName.io_uring_sqe))
          ∷ ("futex", mut_ptr (prim rust_u32))
          ∷ ("val", prim rust_u64)
          ∷ ("mask", prim rust_u64)
          ∷ ("futex_flags", prim rust_u32)
          ∷ ("flags", prim c_uint)
          ∷ [])
        void
    ∷ []

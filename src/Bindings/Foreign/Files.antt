-- ===== src/Bindings/Foreign/Files.antt =====
-- Functions of liburing that rexe/src/bindings.rs declares: preparing cancellations, connections and files.
use iouring_http_server.Prelude.{List, [], ◌∷◌}
use iouring_http_server.Layout.{c_char, c_int, c_uint, c_ulonglong}
use iouring_http_server.Bindings.Table.{BindingName}
use iouring_http_server.Bindings.Foreign.{function, Function, void, prim, named, const_ptr, mut_ptr}

abbrev pub file_functions : List Function
file_functions =
    function "io_uring_prep_cancel64"
      (("sqe", mut_ptr (named BindingName.io_uring_sqe))
        ∷ ("user_data", prim c_ulonglong)
        ∷ ("flags", prim c_int)
        ∷ [])
      void
    ∷ function "io_uring_prep_cancel"
        (("sqe", mut_ptr (named BindingName.io_uring_sqe))
          ∷ ("user_data", mut_ptr void)
          ∷ ("flags", prim c_int)
          ∷ [])
        void
    ∷ function "io_uring_prep_cancel_fd"
        (("sqe", mut_ptr (named BindingName.io_uring_sqe))
          ∷ ("fd", prim c_int)
          ∷ ("flags", prim c_uint)
          ∷ [])
        void
    ∷ function "io_uring_prep_link_timeout"
        (("sqe", mut_ptr (named BindingName.io_uring_sqe))
          ∷ ("ts", mut_ptr (named BindingName.kernel_timespec))
          ∷ ("flags", prim c_uint)
          ∷ [])
        void
    ∷ function "io_uring_prep_connect"
        (("sqe", mut_ptr (named BindingName.io_uring_sqe))
          ∷ ("fd", prim c_int)
          ∷ ("addr", const_ptr (named BindingName.sockaddr))
          ∷ ("addrlen", prim c_uint)
          ∷ [])
        void
    ∷ function "io_uring_prep_bind"
        (("sqe", mut_ptr (named BindingName.io_uring_sqe))
          ∷ ("fd", prim c_int)
          ∷ ("addr", mut_ptr (named BindingName.sockaddr))
          ∷ ("addrlen", prim c_uint)
          ∷ [])
        void
    ∷ function "io_uring_prep_listen"
        (("sqe", mut_ptr (named BindingName.io_uring_sqe))
          ∷ ("fd", prim c_int)
          ∷ ("backlog", prim c_int)
          ∷ [])
        void
    ∷ function "io_uring_prep_files_update"
        (("sqe", mut_ptr (named BindingName.io_uring_sqe))
          ∷ ("fds", mut_ptr (prim c_int))
          ∷ ("nr_fds", prim c_uint)
          ∷ ("offset", prim c_int)
          ∷ [])
        void
    ∷ function "io_uring_prep_fallocate"
        (("sqe", mut_ptr (named BindingName.io_uring_sqe))
          ∷ ("fd", prim c_int)
          ∷ ("mode", prim c_int)
          ∷ ("offset", prim c_ulonglong)
          ∷ ("len", prim c_ulonglong)
          ∷ [])
        void
    ∷ function "io_uring_prep_openat"
        (("sqe", mut_ptr (named BindingName.io_uring_sqe))
          ∷ ("dfd", prim c_int)
          ∷ ("path", const_ptr (prim c_char))
          ∷ ("flags", prim c_int)
          ∷ ("mode", prim c_uint)
          ∷ [])
        void
    ∷ function "io_uring_prep_openat_direct"
        (("sqe", mut_ptr (named BindingName.io_uring_sqe))
          ∷ ("dfd", prim c_int)
          ∷ ("path", const_ptr (prim c_char))
          ∷ ("flags", prim c_int)
          ∷ ("mode", prim c_uint)
          ∷ ("file_index", prim c_uint)
          ∷ [])
        void
    ∷ function "io_uring_prep_open"
        (("sqe", mut_ptr (named BindingName.io_uring_sqe))
          ∷ ("path", const_ptr (prim c_char))
          ∷ ("flags", prim c_int)
          ∷ ("mode", prim c_uint)
          ∷ [])
        void
    ∷ function "io_uring_prep_open_direct"
        (("sqe", mut_ptr (named BindingName.io_uring_sqe))
          ∷ ("path", const_ptr (prim c_char))
          ∷ ("flags", prim c_int)
          ∷ ("mode", prim c_uint)
          ∷ ("file_index", prim c_uint)
          ∷ [])
        void
    ∷ function "io_uring_prep_close"
        (("sqe", mut_ptr (named BindingName.io_uring_sqe)) ∷ ("fd", prim c_int) ∷ []) void
    ∷ function "io_uring_prep_close_direct"
        (("sqe", mut_ptr (named BindingName.io_uring_sqe)) ∷ ("file_index", prim c_uint) ∷ []) void
    ∷ function "io_uring_prep_read"
        (("sqe", mut_ptr (named BindingName.io_uring_sqe))
          ∷ ("fd", prim c_int)
          ∷ ("buf", mut_ptr void)
          ∷ ("nbytes", prim c_uint)
          ∷ ("offset", prim c_ulonglong)
          ∷ [])
        void
    ∷ function "io_uring_prep_read_multishot"
        (("sqe", mut_ptr (named BindingName.io_uring_sqe))
          ∷ ("fd", prim c_int)
          ∷ ("nbytes", prim c_uint)
          ∷ ("offset", prim c_ulonglong)
          ∷ ("buf_group", prim c_int)
          ∷ [])
        void
    ∷ function "io_uring_prep_write"
        (("sqe", mut_ptr (named BindingName.io_uring_sqe))
          ∷ ("fd", prim c_int)
          ∷ ("buf", const_ptr void)
          ∷ ("nbytes", prim c_uint)
          ∷ ("offset", prim c_ulonglong)
          ∷ [])
        void
    ∷ []

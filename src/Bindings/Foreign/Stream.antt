-- ===== src/Bindings/Foreign/Stream.antt =====
-- Functions of liburing that rexe/src/bindings.rs declares: preparing messages, polls, timeouts and accepts.
use iouring_http_server.Prelude.{List, [], ◌∷◌}
use iouring_http_server.Layout.{c_int, c_uint, c_ulonglong}
use iouring_http_server.Bindings.Table.{BindingName}
use iouring_http_server.Bindings.Foreign.{function, Function, void, prim, named, const_ptr, mut_ptr}

abbrev pub stream_functions : List Function
stream_functions =
    function "io_uring_prep_recvmsg"
      (("sqe", mut_ptr (named BindingName.io_uring_sqe))
        ∷ ("fd", prim c_int)
        ∷ ("msg", mut_ptr (named BindingName.msghdr))
        ∷ ("flags", prim c_uint)
        ∷ [])
      void
    ∷ function "io_uring_prep_recvmsg_multishot"
        (("sqe", mut_ptr (named BindingName.io_uring_sqe))
          ∷ ("fd", prim c_int)
          ∷ ("msg", mut_ptr (named BindingName.msghdr))
          ∷ ("flags", prim c_uint)
          ∷ [])
        void
    ∷ function "io_uring_prep_sendmsg"
        (("sqe", mut_ptr (named BindingName.io_uring_sqe))
          ∷ ("fd", prim c_int)
          ∷ ("msg", const_ptr (named BindingName.msghdr))
          ∷ ("flags", prim c_uint)
          ∷ [])
        void
    ∷ function "io_uring_prep_poll_add"
        (("sqe", mut_ptr (named BindingName.io_uring_sqe))
          ∷ ("fd", prim c_int)
          ∷ ("poll_mask", prim c_uint)
          ∷ [])
        void
    ∷ function "io_uring_prep_poll_multishot"
        (("sqe", mut_ptr (named BindingName.io_uring_sqe))
          ∷ ("fd", prim c_int)
          ∷ ("poll_mask", prim c_uint)
          ∷ [])
        void
    ∷ function "io_uring_prep_poll_remove"
        (("sqe", mut_ptr (named BindingName.io_uring_sqe)) ∷ ("user_data", prim c_ulonglong) ∷ [])
        void
    ∷ function "io_uring_prep_poll_update"
        (("sqe", mut_ptr (named BindingName.io_uring_sqe))
          ∷ ("old_user_data", prim c_ulonglong)
          ∷ ("new_user_data", prim c_ulonglong)
          ∷ ("poll_mask", prim c_uint)
          ∷ ("flags", prim c_uint)
          ∷ [])
        void
    ∷ function "io_uring_prep_fsync"
        (("sqe", mut_ptr (named BindingName.io_uring_sqe))
          ∷ ("fd", prim c_int)
          ∷ ("fsync_flags", prim c_uint)
          ∷ [])
        void
    ∷ function "io_uring_prep_nop" (("sqe", mut_ptr (named BindingName.io_uring_sqe)) ∷ []) void
    ∷ function "io_uring_prep_timeout"
        (("sqe", mut_ptr (named BindingName.io_uring_sqe))
          ∷ ("ts", mut_ptr (named BindingName.kernel_timespec))
          ∷ ("count", prim c_uint)
          ∷ ("flags", prim c_uint)
          ∷ [])
        void
    ∷ function "io_uring_prep_timeout_remove"
        (("sqe", mut_ptr (named BindingName.io_uring_sqe))
          ∷ ("user_data", prim c_ulonglong)
          ∷ ("flags", prim c_uint)
          ∷ [])
        void
    ∷ function "io_uring_prep_timeout_update"
        (("sqe", mut_ptr (named BindingName.io_uring_sqe))
          ∷ ("ts", mut_ptr (named BindingName.kernel_timespec))
          ∷ ("user_data", prim c_ulonglong)
          ∷ ("flags", prim c_uint)
          ∷ [])
        void
    ∷ function "io_uring_prep_accept"
        (("sqe", mut_ptr (named BindingName.io_uring_sqe))
          ∷ ("fd", prim c_int)
          ∷ ("addr", mut_ptr (named BindingName.sockaddr))
          ∷ ("addrlen", mut_ptr (prim c_uint))
          ∷ ("flags", prim c_int)
          ∷ [])
        void
    ∷ function "io_uring_prep_accept_direct"
        (("sqe", mut_ptr (named BindingName.io_uring_sqe))
          ∷ ("fd", prim c_int)
          ∷ ("addr", mut_ptr (named BindingName.sockaddr))
          ∷ ("addrlen", mut_ptr (prim c_uint))
          ∷ ("flags", prim c_int)
          ∷ ("file_index", prim c_uint)
          ∷ [])
        void
    ∷ function "io_uring_prep_multishot_accept"
        (("sqe", mut_ptr (named BindingName.io_uring_sqe))
          ∷ ("fd", prim c_int)
          ∷ ("addr", mut_ptr (named BindingName.sockaddr))
          ∷ ("addrlen", mut_ptr (prim c_uint))
          ∷ ("flags", prim c_int)
          ∷ [])
        void
    ∷ function "io_uring_prep_multishot_accept_direct"
        (("sqe", mut_ptr (named BindingName.io_uring_sqe))
          ∷ ("fd", prim c_int)
          ∷ ("addr", mut_ptr (named BindingName.sockaddr))
          ∷ ("addrlen", mut_ptr (prim c_uint))
          ∷ ("flags", prim c_int)
          ∷ [])
        void
    ∷ []

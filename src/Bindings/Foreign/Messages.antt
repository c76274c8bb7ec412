-- ===== src/Bindings/Foreign/Messages.antt =====
-- Functions of liburing that rexe/src/bindings.rs declares: received messages, and opening files.
use iouring_http_server.Prelude.{List, [], ◌∷◌}
use iouring_http_server.Layout.{rust_usize, c_char, c_int, c_uint}
use iouring_http_server.Bindings.Table.{BindingName}
use iouring_http_server.Bindings.Foreign.{function, Function, void, prim, named, const_ptr, mut_ptr}

abbrev pub message_functions : List Function
message_functions =
    function "io_uring_prep_sendmsg_zc"
      (("sqe", mut_ptr (named BindingName.io_uring_sqe))
        ∷ ("fd", prim c_int)
        ∷ ("msg", const_ptr (named BindingName.msghdr))
        ∷ ("flags", prim c_uint)
        ∷ [])
      void
    ∷ function "io_uring_prep_recv"
        (("sqe", mut_ptr (named BindingName.io_uring_sqe))
          ∷ ("sockfd", prim c_int)
          ∷ ("buf", mut_ptr void)
          ∷ ("len", prim rust_usize)
          ∷ ("flags", prim c_int)
          ∷ [])
        void
    ∷ function "io_uring_prep_recv_multishot"
        (("sqe", mut_ptr (named BindingName.io_uring_sqe))
          ∷ ("sockfd", prim c_int)
          ∷ ("buf", mut_ptr void)
          ∷ ("len", prim rust_usize)
          ∷ ("flags", prim c_int)
          ∷ [])
        void
    ∷ function "io_uring_recvmsg_validate"
        (("buf", mut_ptr void)
          ∷ ("buf_len", prim c_int)
          ∷ ("msgh", mut_ptr (named BindingName.msghdr))
          ∷ [])
        (mut_ptr (named BindingName.io_uring_recvmsg_out))
    ∷ function "io_uring_recvmsg_name"
        (("o", mut_ptr (named BindingName.io_uring_recvmsg_out)) ∷ []) (mut_ptr void)
    ∷ function "io_uring_recvmsg_cmsg_firsthdr"
        (("o", mut_ptr (named BindingName.io_uring_recvmsg_out))
          ∷ ("msgh", mut_ptr (named BindingName.msghdr))
          ∷ [])
        (mut_ptr (named BindingName.cmsghdr))
    ∷ function "io_uring_recvmsg_cmsg_nexthdr"
        (("o", mut_ptr (named BindingName.io_uring_recvmsg_out))
          ∷ ("msgh", mut_ptr (named BindingName.msghdr))
          ∷ ("cmsg", mut_ptr (named BindingName.cmsghdr))
          ∷ [])
        (mut_ptr (named BindingName.cmsghdr))
    ∷ function "io_uring_recvmsg_payload"
        (("o", mut_ptr (named BindingName.io_uring_recvmsg_out))
          ∷ ("msgh", mut_ptr (named BindingName.msghdr))
          ∷ [])
        (mut_ptr void)
    ∷ function "io_uring_recvmsg_payload_length"
        (("o", mut_ptr (named BindingName.io_uring_recvmsg_out))
          ∷ ("buf_len", prim c_int)
          ∷ ("msgh", mut_ptr (named BindingName.msghdr))
          ∷ [])
        (prim c_uint)
    ∷ function "io_uring_prep_openat2"
        (("sqe", mut_ptr (named BindingName.io_uring_sqe))
          ∷ ("dfd", prim c_int)
          ∷ ("path", const_ptr (prim c_char))
          ∷ ("how", mut_ptr (named BindingName.open_how))
          ∷ [])
        void
    ∷ function "io_uring_prep_openat2_direct"
        (("sqe", mut_ptr (named BindingName.io_uring_sqe))
          ∷ ("dfd", prim c_int)
          ∷ ("path", const_ptr (prim c_char))
          ∷ ("how", mut_ptr (named BindingName.open_how))
          ∷ ("file_index", prim c_uint)
          ∷ [])
        void
    ∷ []

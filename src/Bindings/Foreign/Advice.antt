-- ===== src/Bindings/Foreign/Advice.antt =====
-- Functions of liburing that rexe/src/bindings.rs declares: preparing statistics, advice and sends.
use iouring_http_server.Prelude.{List, [], ◌∷◌}
use iouring_http_server.Layout.{rust_usize, c_char, c_ushort, c_int, c_uint, c_long, c_ulonglong}
use iouring_http_server.Bindings.Table.{BindingName}
use iouring_http_server.Bindings.Foreign.{
  function, Function, void, prim, named, opaque, const_ptr, mut_ptr, statx,
}

abbrev pub advice_functions : List Function
advice_functions =
    function "io_uring_prep_statx"
      (("sqe", mut_ptr (named BindingName.io_uring_sqe))
        ∷ ("dfd", prim c_int)
        ∷ ("path", const_ptr (prim c_char))
        ∷ ("flags", prim c_int)
        ∷ ("mask", prim c_uint)
        ∷ ("statxbuf", mut_ptr (opaque statx))
        ∷ [])
      void
    ∷ function "io_uring_prep_fadvise"
        (("sqe", mut_ptr (named BindingName.io_uring_sqe))
          ∷ ("fd", prim c_int)
          ∷ ("offset", prim c_ulonglong)
          ∷ ("len", prim c_uint)
          ∷ ("advice", prim c_int)
          ∷ [])
        void
    ∷ function "io_uring_prep_madvise"
        (("sqe", mut_ptr (named BindingName.io_uring_sqe))
          ∷ ("addr", mut_ptr void)
          ∷ ("length", prim c_uint)
          ∷ ("advice", prim c_int)
          ∷ [])
        void
    ∷ function "io_uring_prep_fadvise64"
        (("sqe", mut_ptr (named BindingName.io_uring_sqe))
          ∷ ("fd", prim c_int)
          ∷ ("offset", prim c_ulonglong)
          ∷ ("len", prim c_long)
          ∷ ("advice", prim c_int)
          ∷ [])
        void
    ∷ function "io_uring_prep_madvise64"
        (("sqe", mut_ptr (named BindingName.io_uring_sqe))
          ∷ ("addr", mut_ptr void)
          ∷ ("length", prim c_long)
          ∷ ("advice", prim c_int)
          ∷ [])
        void
    ∷ function "io_uring_prep_send"
        (("sqe", mut_ptr (named BindingName.io_uring_sqe))
          ∷ ("sockfd", prim c_int)
          ∷ ("buf", const_ptr void)
          ∷ ("len", prim rust_usize)
          ∷ ("flags", prim c_int)
          ∷ [])
        void
    ∷ function "io_uring_prep_send_bundle"
        (("sqe", mut_ptr (named BindingName.io_uring_sqe))
          ∷ ("sockfd", prim c_int)
          ∷ ("len", prim rust_usize)
          ∷ ("flags", prim c_int)
          ∷ [])
        void
    ∷ function "io_uring_prep_send_set_addr"
        (("sqe", mut_ptr (named BindingName.io_uring_sqe))
          ∷ ("dest_addr", const_ptr (named BindingName.sockaddr))
          ∷ ("addr_len", prim c_ushort)
          ∷ [])
        void
    ∷ function "io_uring_prep_sendto"
        (("sqe", mut_ptr (named BindingName.io_uring_sqe))
          ∷ ("sockfd", prim c_int)
          ∷ ("buf", const_ptr void)
          ∷ ("len", prim rust_usize)
          ∷ ("flags", prim c_int)
          ∷ ("addr", const_ptr (named BindingName.sockaddr))
          ∷ ("addrlen", prim c_uint)
          ∷ [])
        void
    ∷ function "io_uring_prep_send_zc"
        (("sqe", mut_ptr (named BindingName.io_uring_sqe))
          ∷ ("sockfd", prim c_int)
          ∷ ("buf", const_ptr void)
          ∷ ("len", prim rust_usize)
          ∷ ("flags", prim c_int)
          ∷ ("zc_flags", prim c_uint)
          ∷ [])
        void
    ∷ function "io_uring_prep_send_zc_fixed"
        (("sqe", mut_ptr (named BindingName.io_uring_sqe))
          ∷ ("sockfd", prim c_int)
          ∷ ("buf", const_ptr void)
          ∷ ("len", prim rust_usize)
          ∷ ("flags", prim c_int)
          ∷ ("zc_flags", prim c_uint)
          ∷ ("buf_index", prim c_uint)
          ∷ [])
        void
    ∷ []

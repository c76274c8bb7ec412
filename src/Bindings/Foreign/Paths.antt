-- ===== src/Bindings/Foreign/Paths.antt =====
-- Functions of liburing that rexe/src/bindings.rs declares: preparing changes to paths.
use iouring_http_server.Prelude.{List, [], ◌∷◌}
use iouring_http_server.Layout.{c_char, c_int, c_uint, c_ulonglong}
use iouring_http_server.Bindings.Table.{BindingName}
use iouring_http_server.Bindings.Foreign.{
  function, Function, void, prim, named, opaque, const_ptr, mut_ptr, epoll_event,
}

abbrev pub path_functions : List Function
path_functions =
    function "io_uring_prep_epoll_ctl"
      (("sqe", mut_ptr (named BindingName.io_uring_sqe))
        ∷ ("epfd", prim c_int)
        ∷ ("fd", prim c_int)
        ∷ ("op", prim c_int)
        ∷ ("ev", mut_ptr (opaque epoll_event))
        ∷ [])
      void
    ∷ function "io_uring_prep_provide_buffers"
        (("sqe", mut_ptr (named BindingName.io_uring_sqe))
          ∷ ("addr", mut_ptr void)
          ∷ ("len", prim c_int)
          ∷ ("nr", prim c_int)
          ∷ ("bgid", prim c_int)
          ∷ ("bid", prim c_int)
          ∷ [])
        void
    ∷ function "io_uring_prep_remove_buffers"
        (("sqe", mut_ptr (named BindingName.io_uring_sqe))
          ∷ ("nr", prim c_int)
          ∷ ("bgid", prim c_int)
          ∷ [])
        void
    ∷ function "io_uring_prep_shutdown"
        (("sqe", mut_ptr (named BindingName.io_uring_sqe))
          ∷ ("fd", prim c_int)
          ∷ ("how", prim c_int)
          ∷ [])
        void
    ∷ function "io_uring_prep_unlinkat"
        (("sqe", mut_ptr (named BindingName.io_uring_sqe))
          ∷ ("dfd", prim c_int)
          ∷ ("path", const_ptr (prim c_char))
          ∷ ("flags", prim c_int)
          ∷ [])
        void
    ∷ function "io_uring_prep_unlink"
        (("sqe", mut_ptr (named BindingName.io_uring_sqe))
          ∷ ("path", const_ptr (prim c_char))
          ∷ ("flags", prim c_int)
          ∷ [])
        void
    ∷ function "io_uring_prep_renameat"
        (("sqe", mut_ptr (named BindingName.io_uring_sqe))
          ∷ ("olddfd", prim c_int)
          ∷ ("oldpath", const_ptr (prim c_char))
          ∷ ("newdfd", prim c_int)
          ∷ ("newpath", const_ptr (prim c_char))
          ∷ ("flags", prim c_uint)
          ∷ [])
        void
    ∷ function "io_uring_prep_rename"
        (("sqe", mut_ptr (named BindingName.io_uring_sqe))
          ∷ ("oldpath", const_ptr (prim c_char))
          ∷ ("newpath", const_ptr (prim c_char))
          ∷ [])
        void
    ∷ function "io_uring_prep_sync_file_range"
        (("sqe", mut_ptr (named BindingName.io_uring_sqe))
          ∷ ("fd", prim c_int)
          ∷ ("len", prim c_uint)
          ∷ ("offset", prim c_ulonglong)
          ∷ ("flags", prim c_int)
          ∷ [])
        void
    ∷ function "io_uring_prep_mkdirat"
        (("sqe", mut_ptr (named BindingName.io_uring_sqe))
          ∷ ("dfd", prim c_int)
          ∷ ("path", const_ptr (prim c_char))
          ∷ ("mode", prim c_uint)
          ∷ [])
        void
    ∷ function "io_uring_prep_mkdir"
        (("sqe", mut_ptr (named BindingName.io_uring_sqe))
          ∷ ("path", const_ptr (prim c_char))
          ∷ ("mode", prim c_uint)
          ∷ [])
        void
    ∷ function "io_uring_prep_symlinkat"
        (("sqe", mut_ptr (named BindingName.io_uring_sqe))
          ∷ ("target", const_ptr (prim c_char))
          ∷ ("newdirfd", prim c_int)
          ∷ ("linkpath", const_ptr (prim c_char))
          ∷ [])
        void
    ∷ function "io_uring_prep_symlink"
        (("sqe", mut_ptr (named BindingName.io_uring_sqe))
          ∷ ("target", const_ptr (prim c_char))
          ∷ ("linkpath", const_ptr (prim c_char))
          ∷ [])
        void
    ∷ function "io_uring_prep_linkat"
        (("sqe", mut_ptr (named BindingName.io_uring_sqe))
          ∷ ("olddfd", prim c_int)
          ∷ ("oldpath", const_ptr (prim c_char))
          ∷ ("newdfd", prim c_int)
          ∷ ("newpath", const_ptr (prim c_char))
          ∷ ("flags", prim c_int)
          ∷ [])
        void
    ∷ function "io_uring_prep_link"
        (("sqe", mut_ptr (named BindingName.io_uring_sqe))
          ∷ ("oldpath", const_ptr (prim c_char))
          ∷ ("newpath", const_ptr (prim c_char))
          ∷ ("flags", prim c_int)
          ∷ [])
        void
    ∷ []

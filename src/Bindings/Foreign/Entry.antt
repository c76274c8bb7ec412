-- ===== src/Bindings/Foreign/Entry.antt =====
-- Functions of liburing that rexe/src/bindings.rs declares: the fields of an entry, and the first preparations.
use iouring_http_server.Prelude.{List, [], ◌∷◌}
use iouring_http_server.Layout.{rust_i64, c_int, c_uint, c_ulonglong}
use iouring_http_server.Bindings.Table.{BindingName}
use iouring_http_server.Bindings.Foreign.{function, Function, void, prim, named, const_ptr, mut_ptr}

abbrev pub entry_functions : List Function
entry_functions =
    function "io_uring_cq_advance"
      (("ring", mut_ptr (named BindingName.io_uring)) ∷ ("nr", prim c_uint) ∷ []) void
    ∷ function "io_uring_cqe_seen"
        (("ring", mut_ptr (named BindingName.io_uring))
          ∷ ("cqe", mut_ptr (named BindingName.io_uring_cqe))
          ∷ [])
        void
    ∷ function "io_uring_sqe_set_data"
        (("sqe", mut_ptr (named BindingName.io_uring_sqe)) ∷ ("data", mut_ptr void) ∷ []) void
    ∷ function "io_uring_cqe_get_data" (("cqe", const_ptr (named BindingName.io_uring_cqe)) ∷ [])
        (mut_ptr void)
    ∷ function "io_uring_sqe_set_data64"
        (("sqe", mut_ptr (named BindingName.io_uring_sqe)) ∷ ("data", prim c_ulonglong) ∷ []) void
    ∷ function "io_uring_cqe_get_data64" (("cqe", const_ptr (named BindingName.io_uring_cqe)) ∷ [])
        (prim c_ulonglong)
    ∷ function "io_uring_sqe_set_flags"
        (("sqe", mut_ptr (named BindingName.io_uring_sqe)) ∷ ("flags", prim c_uint) ∷ []) void
    ∷ function "io_uring_sqe_set_buf_group"
        (("sqe", mut_ptr (named BindingName.io_uring_sqe)) ∷ ("bgid", prim c_int) ∷ []) void
    ∷ function "io_uring_initialize_sqe" (("sqe", mut_ptr (named BindingName.io_uring_sqe)) ∷ [])
        void
    ∷ function "io_uring_prep_rw"
        (("op", prim c_int)
          ∷ ("sqe", mut_ptr (named BindingName.io_uring_sqe))
          ∷ ("fd", prim c_int)
          ∷ ("addr", const_ptr void)
          ∷ ("len", prim c_uint)
          ∷ ("offset", prim c_ulonglong)
          ∷ [])
        void
    ∷ function "io_uring_prep_splice"
        (("sqe", mut_ptr (named BindingName.io_uring_sqe))
          ∷ ("fd_in", prim c_int)
          ∷ ("off_in", prim rust_i64)
          ∷ ("fd_out", prim c_int)
          ∷ ("off_out", prim rust_i64)
          ∷ ("nbytes", prim c_uint)
          ∷ ("splice_flags", prim c_uint)
          ∷ [])
        void
    ∷ function "io_uring_prep_tee"
        (("sqe", mut_ptr (named BindingName.io_uring_sqe))
          ∷ ("fd_in", prim c_int)
          ∷ ("fd_out", prim c_int)
          ∷ ("nbytes", prim c_uint)
          ∷ ("splice_flags", prim c_uint)
          ∷ [])
        void
    ∷ function "io_uring_prep_readv"
        (("sqe", mut_ptr (named BindingName.io_uring_sqe))
          ∷ ("fd", prim c_int)
          ∷ ("iovecs", const_ptr (named BindingName.iovec))
          ∷ ("nr_vecs", prim c_uint)
          ∷ ("offset", prim c_ulonglong)
          ∷ [])
        void
    ∷ function "io_uring_prep_readv2"
        (("sqe", mut_ptr (named BindingName.io_uring_sqe))
          ∷ ("fd", prim c_int)
          ∷ ("iovecs", const_ptr (named BindingName.iovec))
          ∷ ("nr_vecs", prim c_uint)
          ∷ ("offset", prim c_ulonglong)
          ∷ ("flags", prim c_int)
          ∷ [])
        void
    ∷ function "io_uring_prep_read_fixed"
        (("sqe", mut_ptr (named BindingName.io_uring_sqe))
          ∷ ("fd", prim c_int)
          ∷ ("buf", mut_ptr void)
          ∷ ("nbytes", prim c_uint)
          ∷ ("offset", prim c_ulonglong)
          ∷ ("buf_index", prim c_int)
          ∷ [])
        void
    ∷ function "io_uring_prep_writev"
        (("sqe", mut_ptr (named BindingName.io_uring_sqe))
          ∷ ("fd", prim c_int)
          ∷ ("iovecs", const_ptr (named BindingName.iovec))
          ∷ ("nr_vecs", prim c_uint)
          ∷ ("offset", prim c_ulonglong)
          ∷ [])
        void
    ∷ function "io_uring_prep_writev2"
        (("sqe", mut_ptr (named BindingName.io_uring_sqe))
          ∷ ("fd", prim c_int)
          ∷ ("iovecs", const_ptr (named BindingName.iovec))
          ∷ ("nr_vecs", prim c_uint)
          ∷ ("offset", prim c_ulonglong)
          ∷ ("flags", prim c_int)
          ∷ [])
        void
    ∷ function "io_uring_prep_write_fixed"
        (("sqe", mut_ptr (named BindingName.io_uring_sqe))
          ∷ ("fd", prim c_int)
          ∷ ("buf", const_ptr void)
          ∷ ("nbytes", prim c_uint)
          ∷ ("offset", prim c_ulonglong)
          ∷ ("buf_index", prim c_int)
          ∷ [])
        void
    ∷ []

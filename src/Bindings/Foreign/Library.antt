-- ===== src/Bindings/Foreign/Library.antt =====
-- Functions of clib that rexe/src/bindings.rs declares.
use iouring_http_server.Prelude.{List, [], ◌∷◌}
use iouring_http_server.Layout.{rust_u8, rust_u16, rust_usize, c_char, c_int, c_uint}
use iouring_http_server.Bindings.Table.{BindingName}
use iouring_http_server.Bindings.Foreign.{
  function, variadic_function, Function, void, prim, named, const_ptr, mut_ptr,
}

abbrev pub bufring_functions : List Function
bufring_functions =
    function "buffer_ring_init"
      (("ring", mut_ptr (named BindingName.io_uring))
        ∷ ("params", named BindingName.bufring_init_params_t)
        ∷ [])
      (named BindingName.bufring_t)
    ∷ []

abbrev pub bufpool_functions : List Function
bufpool_functions =
    function "bufpool_init"
      (("ring", mut_ptr (named BindingName.io_uring))
        ∷ ("buf_size", prim rust_usize)
        ∷ ("entries", prim rust_usize)
        ∷ [])
      (named BindingName.bufpool_t)
    ∷ function "bufpool_pop" (("self_", mut_ptr (named BindingName.bufpool_t)) ∷ [])
        (mut_ptr (named BindingName.bufpool_freebuf_t))
    ∷ function "bufpool_put"
        (("self_", mut_ptr (named BindingName.bufpool_t)) ∷ ("bid", prim c_int) ∷ []) void
    ∷ []

abbrev pub appctx_functions : List Function
appctx_functions =
    function "appctx_init"
      (("uring_params", named BindingName.io_uring_params)
        ∷ ("bufring_params", mut_ptr (named BindingName.bufring_init_params_t))
        ∷ ("regbuf_pool_size", prim rust_usize)
        ∷ [])
      (named BindingName.appctx_t)
    ∷ function "appctx_deinit" (("state", mut_ptr (named BindingName.appctx_t)) ∷ []) void
    ∷ function "appctx_handle_accept"
        (("state", mut_ptr (named BindingName.appctx_t))
          ∷ ("cqe", mut_ptr (named BindingName.io_uring_cqe))
          ∷ ("msg", mut_ptr (named BindingName.msghdr))
          ∷ [])
        void
    ∷ function "appctx_handle_recvmsg"
        (("self_", mut_ptr (named BindingName.appctx_t))
          ∷ ("cqe", mut_ptr (named BindingName.io_uring_cqe))
          ∷ [])
        void
    ∷ []

abbrev pub userdata_functions : List Function
userdata_functions =
    function "encode_userdata"
      (("sqe", mut_ptr (named BindingName.io_uring_sqe))
        ∷ ("fd", prim rust_u16)
        ∷ ("op", prim rust_u8)
        ∷ [])
      void
    ∷ function "userdata_decode" (("cqe", mut_ptr (named BindingName.io_uring_cqe)) ∷ [])
        (named BindingName.userdata)
    ∷ []

abbrev pub address_functions : List Function
address_functions =
    function "format_inet_addr_from_sockfd"
      (("sockfd", prim c_int) ∷ ("buf", mut_ptr (prim c_char)) ∷ ("buf_sz", prim rust_usize) ∷ [])
      void
    ∷ []

abbrev pub log_functions : List Function
log_functions =
    variadic_function "log_event"
      (("level", prim c_uint)
        ∷ ("appctx", mut_ptr (named BindingName.appctx_t))
        ∷ ("fmt", const_ptr (prim c_char))
        ∷ [])
      void
    ∷ []

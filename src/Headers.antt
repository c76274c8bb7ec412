-- ===== src/Headers.antt =====
-- The prototypes of clib/appctx.h, userdata.h and logging.h, and the heads of the definitions in
-- clib/appctx.c, userdata.c and logging.c.
pub mod Agreement
use text.Mathlib.Text.{◌==◌ as str_eq}
use iouring_http_server.Prelude.{
  ℕ, String, Bool, true, false, List, [], ◌∷◌, ◌++◌, Option, none, some, map, if◌then◌else◌,
}
use iouring_http_server.Layout.{c_int, c_char, c_uint, rust_usize, rust_u8, rust_u16}
use iouring_http_server.Bindings.Table.{BindingName}
use iouring_http_server.Bindings.Foreign.{
  ForeignType, void, prim, named, const_ptr, mut_ptr, Function,
}

pub data CType : Type 0 where
  c_void int char size_t uint8_t uint16_t enum_log_level : CType
  struct : BindingName → CType
  pointer_to const_pointer_to : CType → CType
  array_of : CType → ℕ → CType

pub record Prototype : Type 0 where
  pub name : String
  pub params : List (String × CType)
  pub variadic : Bool
  pub result : CType

abbrev pub prototype : CType → String → List (String × CType) → Prototype
prototype result name params = record {
  name = name;
  params = params;
  variadic = false;
  result = result;
}

abbrev pub ring_ptr : CType
ring_ptr = pointer_to (struct BindingName.io_uring)

abbrev pub context_ptr : CType
context_ptr = pointer_to (struct BindingName.appctx_t)

abbrev pub pool_ptr : CType
pool_ptr = pointer_to (struct BindingName.bufpool_t)

abbrev pub cqe_ptr : CType
cqe_ptr = pointer_to (struct BindingName.io_uring_cqe)

abbrev pub sqe_ptr : CType
sqe_ptr = pointer_to (struct BindingName.io_uring_sqe)

unfoldable pub appctx_h : List Prototype
appctx_h =
    prototype (struct BindingName.bufring_t) "buffer_ring_init"
      (("ring", ring_ptr) ∷ ("params", struct BindingName.bufring_init_params_t) ∷ [])
    ∷ prototype (struct BindingName.bufpool_t) "bufpool_init"
        (("ring", ring_ptr) ∷ ("buf_size", size_t) ∷ ("entries", size_t) ∷ [])
    ∷ prototype (pointer_to (struct BindingName.bufpool_freebuf_t)) "bufpool_pop"
        (("self", pool_ptr) ∷ [])
    ∷ prototype c_void "bufpool_put" (("self", pool_ptr) ∷ ("bid", int) ∷ [])
    ∷ prototype (struct BindingName.appctx_t) "appctx_init" (
        ("uring_params", struct BindingName.io_uring_params)
        ∷ ("bufring_params", array_of (struct BindingName.bufring_init_params_t) 2)
        ∷ ("regbuf_pool_size", size_t)
        ∷ [])
    ∷ prototype c_void "appctx_deinit" (("state", context_ptr) ∷ [])
    ∷ prototype c_void "appctx_handle_accept" (
        ("state", context_ptr)
        ∷ ("cqe", cqe_ptr)
        ∷ ("msg", pointer_to (struct BindingName.msghdr))
        ∷ [])
    ∷ prototype c_void "appctx_handle_recvmsg" (("self", context_ptr) ∷ ("cqe", cqe_ptr) ∷ [])
    ∷ []

unfoldable pub userdata_h : List Prototype
userdata_h =
    prototype c_void "encode_userdata" (("sqe", sqe_ptr) ∷ ("fd", uint16_t) ∷ ("op", uint8_t) ∷ [])
    ∷ prototype (struct BindingName.userdata) "userdata_decode" (("cqe", cqe_ptr) ∷ [])
    ∷ []

unfoldable pub logging_h : List Prototype
logging_h =
    prototype c_void "format_inet_addr_from_sockfd"
      (("sockfd", int) ∷ ("buf", pointer_to char) ∷ ("buf_sz", size_t) ∷ [])
    ∷ record {
      name = "log_event";
      params =
          ("level", enum_log_level) ∷ ("appctx", context_ptr) ∷ ("fmt", const_pointer_to char) ∷ [];
      variadic = true;
      result = c_void;
    }
    ∷ []

unfoldable pub prototypes : List Prototype
unfolding appctx_h userdata_h logging_h
prototypes = appctx_h ++ (userdata_h ++ logging_h)

-- The functions that the sources define.
unfoldable pub appctx_c : List Prototype
appctx_c =
    prototype (struct BindingName.bufring_t) "bufring_init"
      (("ring", ring_ptr) ∷ ("params", struct BindingName.bufring_init_params_t) ∷ [])
    ∷ prototype (struct BindingName.bufpool_t) "bufpool_init"
        (("ring", ring_ptr) ∷ ("buf_size", size_t) ∷ ("entries", size_t) ∷ [])
    ∷ prototype (pointer_to (struct BindingName.bufpool_freebuf_t)) "bufpool_pop"
        (("self", pool_ptr) ∷ [])
    ∷ prototype c_void "bufpool_put" (("self", pool_ptr) ∷ ("bid", int) ∷ [])
    ∷ prototype (struct BindingName.appctx_t) "appctx_init" (
        ("uring_params", struct BindingName.io_uring_params)
        ∷ ("bufring_params", array_of (struct BindingName.bufring_init_params_t) 2)
        ∷ ("bufpool_size", size_t)
        ∷ [])
    ∷ prototype c_void "appctx_handle_accept" (
        ("self", context_ptr)
        ∷ ("cqe", cqe_ptr)
        ∷ ("msg", pointer_to (struct BindingName.msghdr))
        ∷ [])
    ∷ prototype c_void "appctx_handle_recvmsg" (("self", context_ptr) ∷ ("cqe", cqe_ptr) ∷ [])
    ∷ []

unfoldable pub userdata_c : List Prototype
userdata_c =
    prototype c_void "encode_userdata" (("sqe", sqe_ptr) ∷ ("fd", uint16_t) ∷ ("op", uint8_t) ∷ [])
    ∷ prototype (struct BindingName.userdata) "userdata_decode" (("cqe", cqe_ptr) ∷ [])
    ∷ []

unfoldable pub logging_c : List Prototype
logging_c =
    prototype c_void "format_inet_addr_from_sockfd"
      (("sockfd", int) ∷ ("buf", pointer_to char) ∷ ("buf_sz", size_t) ∷ [])
    ∷ prototype (const_pointer_to char) "log_level_str" (("level", enum_log_level) ∷ [])
    ∷ prototype (const_pointer_to char) "log_level_color" (("level", enum_log_level) ∷ [])
    ∷ record {
      name = "log_event";
      params =
          ("level", enum_log_level) ∷ ("appctx", context_ptr) ∷ ("fmt", const_pointer_to char) ∷ [];
      variadic = true;
      result = c_void;
    }
    ∷ []

unfoldable pub definitions : List Prototype
unfolding appctx_c userdata_c logging_c
definitions = appctx_c ++ (userdata_c ++ logging_c)

unfoldable pub find_prototype : String → List Prototype → Option Prototype
find_prototype name [] = none
find_prototype name (p ∷ ps) = if str_eq p.name name then some p else find_prototype name ps

-- The types of a function, without the names of its parameters.
abbrev pub types_of : Prototype → List CType × Bool × CType
types_of p = (map (λ param. param.1) p.params, p.variadic, p.result)

-- What the C types of the prototypes are in Rust on x86_64 Linux. A parameter of an array type is a
-- pointer.
unfoldable pub foreign_type : CType → ForeignType
foreign_type c_void = void
foreign_type int = prim c_int
foreign_type char = prim c_char
foreign_type size_t = prim rust_usize
foreign_type uint8_t = prim rust_u8
foreign_type uint16_t = prim rust_u16
foreign_type enum_log_level = prim c_uint
foreign_type (struct n) = named n
foreign_type (pointer_to t) = mut_ptr (foreign_type t)
foreign_type (const_pointer_to t) = const_ptr (foreign_type t)
foreign_type (array_of t n) = mut_ptr (foreign_type t)

-- `self` is a keyword of Rust.
abbrev pub rust_name : String → String
rust_name name = if str_eq name "self" then "self_" else name

unfoldable pub foreign_function : Prototype → Function
unfolding foreign_type
foreign_function p = record {
  name = p.name;
  params = map (λ param. (rust_name param.0, foreign_type param.1)) p.params;
  variadic = p.variadic;
  result = foreign_type p.result;
}

-- ===== src/Bindings/Foreign.antt =====
-- The types of the functions that rexe/src/bindings.rs declares in its `extern "C"` blocks. A type
-- alias stands for what it is an alias of.
pub mod Queue
pub mod Register
pub mod Enter
pub mod Entry
pub mod Stream
pub mod Files
pub mod Advice
pub mod Messages
pub mod Paths
pub mod Control
pub mod State
pub mod Library
pub mod Declared
pub mod Checks
use iouring_http_server.Prelude.{Bool, true, false, String, List, Option, none, some}
use iouring_http_server.Layout.{
  Scalar, rust_u8, RustType, scalar, array, structure, repr_c, end, ◌∶◌, ◌▸◌, Binding, pointer,
}
use iouring_http_server.Bindings.Table.{BindingName, binding}

-- The structures of which the bindings know no field.
pub data OpaqueName : Type 0 where
  statx epoll_event futex_waitv : OpaqueName

pub data ForeignType : Type 0 where
  void : ForeignType
  prim : Scalar → ForeignType
  named : BindingName → ForeignType
  opaque : OpaqueName → ForeignType
  const_ptr mut_ptr : ForeignType → ForeignType

pub record Function : Type 0 where
  pub name : String
  pub params : List (String × ForeignType)
  pub variadic : Bool
  pub result : ForeignType

abbrev pub function : String → List (String × ForeignType) → ForeignType → Function
function name params result = record {
  name = name;
  params = params;
  variadic = false;
  result = result;
}

abbrev pub variadic_function : String → List (String × ForeignType) → ForeignType → Function
variadic_function name params result = record {
  name = name;
  params = params;
  variadic = true;
  result = result;
}

-- `_unused: [u8; 0]`
abbrev pub opaque_layout : OpaqueName → RustType
opaque_layout _ = structure repr_c ("_unused" ∶ array (scalar rust_u8) 0 ▸ end)

-- How a value of the type lies in memory, where the type has values.
unfoldable pub layout_of : ForeignType → Option RustType
layout_of void = none
layout_of (prim s) = some (scalar s)
layout_of (named n) = some (binding n).layout
layout_of (opaque n) = some (opaque_layout n)
layout_of (const_ptr t) = some (scalar pointer)
layout_of (mut_ptr t) = some (scalar pointer)

-- ===== src/Bindings/Defaults.antt =====
-- The `Default` implementations of rexe/src/bindings.rs.
use iouring_http_server.Prelude.{Bool, true, false, ◌&&◌, leb}
use iouring_http_server.Layout.{
  RustType, Scalar, Fields, scalar, phantom, array, structure, union, end, ◌∶◌, ◌▸◌, pointer,
  rust_u8, DefaultImpl, derived, zeroed, absent,
}

scalar_derives : Scalar → Bool
scalar_derives rust_u8 = true
scalar_derives pointer = false
scalar_derives _ = true

-- What `#[derive(Default)]` accepts: no pointer, no union, no array of more than 32 elements.
unfoldable mutual
  unfolding scalar_derives

  pub derives : RustType → Bool
  derives (scalar s) = scalar_derives s
  derives phantom = true
  derives (array t n) = leb n 32 && derives t
  derives (structure r fs) = fields_derive fs
  derives (union r fs) = false

  pub fields_derive : Fields → Bool
  fields_derive end = true
  fields_derive (name ∶ t ▸ fs) = derives t && fields_derive fs

abbrev is_derived : DefaultImpl → Bool
is_derived derived = true
is_derived zeroed = false
is_derived absent = false

-- ===== src/Layout.antt =====
-- The layout of `#[repr(C)]` types on x86_64 Linux, in which rexe/src/bindings.rs states its types,
-- and the compile-time assertions that bindgen writes below each of them.
use text.Mathlib.Text.{◌==◌ as str_eq}
use iouring_http_server.Prelude.{
  ℕ, ◌+◌, ◌-◌, ◌*◌, ◌/◌, max, String, Bool, true, false, ◌&&◌, Option, none, some, List, [], ◌∷◌,
  ltb, ◌==◌, if◌then◌else◌,
}

-- The primitive types and the aliases of `std::os::raw`.
pub data Scalar : Type 0 where
  rust_u8 rust_u16 rust_u32 rust_u64 rust_usize rust_i64 rust_isize rust_bool : Scalar
  c_char c_uchar c_short c_ushort c_int c_uint c_long c_ulong c_longlong c_ulonglong : Scalar
  pointer : Scalar

-- `#[repr(C)]` or `#[repr(C, packed)]`.
pub data Repr : Type 0 where
  repr_c packed : Repr

infix 62 ◌∶◌
infixr 60 ◌▸◌
mutual
  pub data RustType : Type 0 where
    scalar : Scalar → RustType
    phantom : RustType
    array : RustType → ℕ → RustType
    structure : Repr → Fields → RustType
    union : Repr → Fields → RustType

  pub data Fields : Type 0 where
    end : Fields
    ◌▸◌ : Field → Fields → Fields

  pub data Field : Type 0 where
    ◌∶◌ : String → RustType → Field

unfoldable pub scalar_size : Scalar → ℕ
scalar_size rust_u8 = 1
scalar_size rust_u16 = 2
scalar_size rust_u32 = 4
scalar_size rust_u64 = 8
scalar_size rust_usize = 8
scalar_size rust_i64 = 8
scalar_size rust_isize = 8
scalar_size rust_bool = 1
scalar_size c_char = 1
scalar_size c_uchar = 1
scalar_size c_short = 2
scalar_size c_ushort = 2
scalar_size c_int = 4
scalar_size c_uint = 4
scalar_size c_long = 8
scalar_size c_ulong = 8
scalar_size c_longlong = 8
scalar_size c_ulonglong = 8
scalar_size pointer = 8

-- The least multiple of `a` that is at least `x`.
unfoldable pub round_up : ℕ → ℕ → ℕ
round_up x a = (x + (a - 1)) / a * a

-- A packed aggregate lowers its own alignment and that of its fields to one.
unfoldable pub under : Repr → ℕ → ℕ
under repr_c a = a
under packed a = 1

unfoldable mutual
  unfolding scalar_size under

  pub align_of : RustType → ℕ
  align_of (scalar s) = scalar_size s
  align_of phantom = 1
  align_of (array t n) = align_of t
  align_of (structure r fs) = under r (align_fields fs)
  align_of (union r fs) = under r (align_fields fs)

  pub align_fields : Fields → ℕ
  align_fields end = 1
  align_fields (name ∶ t ▸ fs) = max (align_of t) (align_fields fs)

unfoldable mutual
  unfolding scalar_size round_up under align_of

  pub size_of : RustType → ℕ
  size_of (scalar s) = scalar_size s
  size_of phantom = 0
  size_of (array t n) = n * size_of t
  size_of (structure r fs) = round_up (end_of r 0 fs) (under r (align_fields fs))
  size_of (union r fs) = round_up (widest fs) (under r (align_fields fs))

  -- Where the last field ends, with the first at or after `o`.
  pub end_of : Repr → ℕ → Fields → ℕ
  end_of r o end = o
  end_of r o (name ∶ t ▸ fs) = end_of r (round_up o (under r (align_of t)) + size_of t) fs

  pub widest : Fields → ℕ
  widest end = 0
  widest (name ∶ t ▸ fs) = max (size_of t) (widest fs)

-- A field with its place in the aggregate.
pub record Slot : Type 0 where
  pub name : String
  pub offset : ℕ
  pub type : RustType

unfoldable pub slots_from : Repr → ℕ → Fields → List Slot
unfolding round_up under align_of size_of
slots_from r o end = []
slots_from r o (name ∶ t ▸ fs) =
    let place = round_up o (under r (align_of t)) in
    record { name = name; offset = place; type = t } ∷ slots_from r (place + size_of t) fs

unfoldable pub overlaid : Fields → List Slot
overlaid end = []
overlaid (name ∶ t ▸ fs) = record { name = name; offset = 0; type = t } ∷ overlaid fs

unfoldable pub slots : RustType → List Slot
unfolding slots_from overlaid
slots (scalar s) = []
slots phantom = []
slots (array t n) = []
slots (structure r fs) = slots_from r 0 fs
slots (union r fs) = overlaid fs

unfoldable pub find_slot : String → List Slot → Option Slot
find_slot name [] = none
find_slot name (s ∷ ss) = if str_eq s.name name then some s else find_slot name ss

-- `offset_of!(T, f)` is compared with a number only where `T` has the field.
pub data Assertion : Type 0 where
  size_is : ℕ → Assertion
  align_is : ℕ → Assertion
  offset_is : String → ℕ → Assertion

-- `["message"][actual - expected]` compiles if the difference does not underflow and is the one
-- index of the array.
unfoldable pub index_compiles : ℕ → ℕ → Bool
index_compiles actual expected = if ltb actual expected then false else (actual - expected) == 0

unfoldable pub offset_compiles : Option Slot → ℕ → Bool
unfolding index_compiles
offset_compiles none n = false
offset_compiles (some s) n = index_compiles s.offset n

unfoldable pub compiles : RustType → Assertion → Bool
unfolding index_compiles offset_compiles size_of align_of slots find_slot
compiles t (size_is n) = index_compiles (size_of t) n
compiles t (align_is n) = index_compiles (align_of t) n
compiles t (offset_is name n) = offset_compiles (find_slot name (slots t)) n

unfoldable pub all_compile : RustType → List Assertion → Bool
unfolding compiles
all_compile t [] = true
all_compile t (a ∷ as_) = compiles t a && all_compile t as_

-- How a type of the bindings implements `Default`: by `#[derive(Default)]`, by zeroed memory, or not.
pub data DefaultImpl : Type 0 where
  derived zeroed absent : DefaultImpl

-- A type of the bindings: its fields, its assertions and its `Default`.
pub record Binding : Type 0 where
  pub layout : RustType
  pub asserts : List Assertion
  pub default : DefaultImpl

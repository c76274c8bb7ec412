-- ===== src/Bindings.antt =====
-- rexe/src/bindings.rs, by what its types are for. `Table` lists the types, `Checks` proves their
-- assertions.
pub mod Types
pub mod Signals
pub mod Net
pub mod Time
pub mod SqeParts
pub mod Sqe
pub mod Params
pub mod Register
pub mod Restrict
pub mod Buffers
pub mod Rings
pub mod App
pub mod Flags
pub mod Opcodes
pub mod Constants
pub mod Table
pub mod Checks
pub mod Defaults
pub mod Foreign

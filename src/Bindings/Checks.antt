-- ===== src/Bindings/Checks.antt =====
-- The compile-time assertions of rexe/src/bindings.rs.
use iouring_http_server.Prelude.{◌≡◌, refl, true}
use iouring_http_server.Layout.{Binding, all_compile}
use iouring_http_server.Bindings.Table.{BindingName, binding}

abbrev pub AllCompile : Binding → Type 0
AllCompile b = all_compile b.layout b.asserts ≡ true

-- Every assertion that bindgen wrote below a type of the bindings holds of the layout that
-- `#[repr(C)]` gives to the fields declared above it: its size, its alignment and each offset.
pub AllCompile-binding : (n : BindingName) → AllCompile (binding n)
unfolding all_compile
AllCompile-binding BindingName.iovec = refl
AllCompile-binding _ = refl

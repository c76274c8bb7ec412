-- ===== src/Tests/Bindgen.antt =====
-- The build script and the functions of the bindings at concrete inputs.
use mathlib.Core.Option
use iouring_http_server.Prelude.{◌≡◌, refl, true, some, [], ◌∷◌, get_elem?}
use iouring_http_server.Layout.{c_int}
use iouring_http_server.Bindings.Table.{BindingName}
use iouring_http_server.Bindings.Foreign.{Function, function, void, prim, named, mut_ptr}
use iouring_http_server.Bindings.Foreign.Declared.{library_functions}
use iouring_http_server.Headers.{prototype, prototypes, foreign_function, c_void, int, pool_ptr}
use iouring_http_server.Headers.Agreement.{
  IsDefined, library_functions-prototypes, prototypes-IsDefined,
}
use iouring_http_server.Build.{BuildEnv}

abbrev put_function : Function
put_function =
    function "bufpool_put"
      (("self_", mut_ptr (named BindingName.bufpool_t)) ∷ ("bid", prim c_int) ∷ []) void

library_functions-prototypes_example :
    get_elem? library_functions 3 ≡ Option.map foreign_function (get_elem? prototypes 3)
library_functions-prototypes_example = library_functions-prototypes 3

prototypes-IsDefined_example :
    IsDefined (prototype c_void "bufpool_put" (("self", pool_ptr) ∷ ("bid", int) ∷ []))
unfolding prototypes
prototypes-IsDefined_example =
    prototypes-IsDefined 3 (prototype c_void "bufpool_put" (("self", pool_ptr) ∷ ("bid", int) ∷ []))
      refl

abbrev cargo : BuildEnv
cargo = record {
  manifest_dir = some ("rexe" ∷ "server" ∷ []);
  make_status = λ dir. some true;
  bindgen = λ calls. some "pub type bool = u8;";
  can_write = λ path. true;
}

-- ===== src/Headers/Agreement.antt =====
-- The C headers, the C sources and the Rust bindings, compared function by function.
use mathlib.Core.Option
use text.Mathlib.Text.{◌==◌ as str_eq}
use iouring_http_server.Prelude.{
  All, All-get, ℕ, ◌≡◌, refl, Bool, ◌||◌, List, Option, none, some, map, get_elem?, ap,
  if◌then◌else◌, get_elem?-map, ◌∙◌, sym,
}
use iouring_http_server.Bindings.Foreign.Declared.{library_functions}
use iouring_http_server.Headers.{
  Prototype, prototypes, definitions, find_prototype, types_of, foreign_function, CType,
}

map-prototypes : map foreign_function prototypes ≡ library_functions
unfolding foreign_function prototypes
map-prototypes = refl

-- The declarations of the library's functions in the Rust bindings are, in order and with none left
-- over, those that the prototypes of the C headers give: the same names of the functions and their
-- parameters, and for each parameter and result the type of the same representation.
pub library_functions-prototypes :
    (i : ℕ) → get_elem? library_functions i ≡ Option.map foreign_function (get_elem? prototypes i)
library_functions-prototypes i =
    ap (λ fs. get_elem? fs i) (sym map-prototypes) ∙ get_elem?-map foreign_function prototypes i

abbrev pub types_in : Option Prototype → Option (List CType × Bool × CType)
types_in none = none
types_in (some p) = some (types_of p)

-- Has the prototype a definition of the same types, or, for the two names, none?
abbrev pub IsDefined : Prototype → Type 0
IsDefined p = types_in (find_prototype p.name definitions) ≡ (
    if str_eq p.name "buffer_ring_init" || str_eq p.name "appctx_deinit"
    then none
    else some (types_of p))

All-prototypes : All IsDefined prototypes
unfolding prototypes definitions find_prototype
All-prototypes = (
  refl,
  (refl, (refl, (refl, (refl, (refl, (refl, (refl, (refl, (refl, (refl, (refl, tt))))))))))),
)

-- Each prototype of the C headers has a definition of the same types in the C sources, but for
-- `buffer_ring_init` and `appctx_deinit`, which have none.
pub prototypes-IsDefined : (i : ℕ) (p : Prototype) → get_elem? prototypes i ≡ some p → IsDefined p
prototypes-IsDefined i p e = All-get IsDefined prototypes i p All-prototypes e

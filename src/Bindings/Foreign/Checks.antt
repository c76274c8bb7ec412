-- ===== src/Bindings/Foreign/Checks.antt =====
-- The declarations of rexe/src/bindings.rs as a whole: their names, and the sizes of what they take
-- and give.
use text.Mathlib.Text.{◌==◌ as str_eq}
use text.Mathlib.TextEquality.{eq_iff}
use iouring_http_server.Prelude.{
  ℕ, zero, suc, ◌≡◌, refl, ap, Bool, true, false, not, ◌&&◌, String, List, [], ◌∷◌, none, some,
  arith, ltb, get_elem?, all, all-get,
}
use iouring_http_server.Layout.{size_of}
use iouring_http_server.Bindings.Foreign.{ForeignType, void, Function, layout_of}
use iouring_http_server.Bindings.Foreign.Declared.{declared_functions}

differs : String → Function → Bool
differs name f = not (str_eq f.name name)

once : List Function → Bool
unfolding differs
once [] = true
once (f ∷ fs) = all (differs f.name) fs && once fs

once-get :
    (fs : List Function) (i j : ℕ) (f g : Function)
    → once fs ≡ true
    → get_elem? fs i ≡ some f
    → get_elem? fs j ≡ some g
    → f.name ≡ g.name
    → i ≡ j
unfolding once
once-get [] i j f g h ef eg same = cc
once-get (a ∷ fs) zero zero f g h ef eg same = refl
once-get (a ∷ fs) zero (suc j) f g h ef eg same =
    let apart : not (str_eq g.name a.name) ≡ true =
      all-get (differs a.name) fs j g (ground arith) eg in
    let a-f : a ≡ f = ground arith in
    let name : a.name ≡ f.name = ap (λ (k : Function). k.name) a-f in
    ground (arith, eq_iff g.name a.name)
once-get (a ∷ fs) (suc i) zero f g h ef eg same =
    let apart : not (str_eq f.name a.name) ≡ true =
      all-get (differs a.name) fs i f (ground arith) ef in
    let a-g : a ≡ g = ground arith in
    let name : a.name ≡ g.name = ap (λ (k : Function). k.name) a-g in
    ground (arith, eq_iff f.name a.name)
once-get (a ∷ fs) (suc i) (suc j) f g h ef eg same =
    ap suc (once-get fs i j f g (ground arith) ef eg same)

once-declared : once declared_functions ≡ true
unfolding once
once-declared = refl

-- No symbol is declared twice: two declarations of one name are the same one.
pub declared_once :
    (i j : ℕ) (f g : Function)
    → get_elem? declared_functions i ≡ some f
    → get_elem? declared_functions j ≡ some g
    → f.name ≡ g.name
    → i ≡ j
declared_once i j f g = once-get declared_functions i j f g once-declared

-- Is this a type whose values have a size of at least a byte?
unfoldable pub has_size : ForeignType → Bool
unfolding layout_of size_of
has_size t = elim (layout_of t) [ none ↦ false | some layout ↦ ltb 0 (size_of layout) ]

unfoldable pub is_result : ForeignType → Bool
unfolding has_size
is_result void = true
is_result t = has_size t

unfoldable pub is_callable : Function → Bool
unfolding has_size is_result
is_callable f = all (λ param. has_size param.1) f.params && is_result f.result

all-is_callable : all is_callable declared_functions ≡ true
unfolding is_callable
all-is_callable = refl

-- Every parameter of every declared function, and every result but `()`, has a type of known size: a
-- structure of which the bindings know no field is only ever behind a pointer.
pub declared-is_callable :
    (i : ℕ) (f : Function) → get_elem? declared_functions i ≡ some f → is_callable f ≡ true
declared-is_callable i f = all-get is_callable declared_functions i f all-is_callable

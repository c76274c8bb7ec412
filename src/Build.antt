-- ===== src/Build.antt =====
-- rexe/build.rs: building clib, telling cargo how to link it, and having bindgen write the bindings.
pub mod Outcomes
use Prim.Native.String.{◌++◌ as ◌+++◌}
use iouring_http_server.Prelude.{
  String, Bool, true, false, Option, none, some, List, [], ◌∷◌, if◌then◌else◌,
}

-- An absolute path, its last component first, each component being Unicode.
abbrev pub FilePath : Type 0
FilePath = List String

abbrev pub parent : FilePath → Option FilePath
parent [] = none
parent (last ∷ path) = some path

abbrev pub join : FilePath → String → FilePath
join path name = name ∷ path

abbrev shown_under : FilePath → String
shown_under [] = ""
shown_under (last ∷ path) = shown_under path +++ ("/" +++ last)

-- `path.display()`, and `path.to_str().unwrap()`, which cannot fail here.
unfoldable pub display : FilePath → String
display [] = "/"
display (last ∷ path) = shown_under (last ∷ path)

-- A call of a method of bindgen's builder. A file is given by its directory and its name.
pub data BuilderCall : Type 0 where
  header : (dir file : String) → BuilderCall
  clang_arg : String → BuilderCall
  derive_default : Bool → BuilderCall
  allowlist_file : (dir file : String) → BuilderCall
  allowlist_function allowlist_type allowlist_var : String → BuilderCall
  parse_callbacks : BuilderCall

-- What the script does to the world.
pub data Effect : Type 0 where
  make : (current_dir : FilePath) → Effect
  println : String → Effect
  generate : List BuilderCall → Effect
  write_to_file : (path : String) → (bindings : String) → Effect

-- The effects so far, the latest first.
abbrev pub Trace : Type 0
Trace = List Effect

-- What the outside answers: the variable CARGO_MANIFEST_DIR; whether `make` could be run, and whether
-- it was successful; the bindings, if bindgen makes them; whether the file could be written.
pub record BuildEnv : Type 0 where
  pub manifest_dir : Option FilePath
  pub make_status : FilePath → Option Bool
  pub bindgen : List BuilderCall → Option String
  pub can_write : String → Bool

pub data Outcome (A : Type 0) : Type 0 where
  finished : A → Trace → Outcome A
  panics : Trace → Outcome A

abbrev pub M : Type 0 → Type 0
M A = Trace → Outcome A

module _ {A B : Type 0} where
  abbrev pub and_then : Outcome A → (A → M B) → Outcome B
  and_then (finished a t) k = k a t
  and_then (panics t) k = panics t

  infixl 5 ◌>>=◌ ◌>>◌
  abbrev pub ◌>>=◌ : M A → (A → M B) → M B
  m >>= k = λ t. and_then (m t) k

  abbrev pub ◌>>◌ : M A → M B → M B
  m >> n = m >>= λ _. n

abbrev pub effect : Effect → M (Unit {0})
effect e t = finished tt (e ∷ t)

-- `unwrap` and `expect`.
unfoldable pub unwrap : {A : Type 0} → Option A → M A
unwrap none t = panics t
unwrap (some a) t = finished a t

unfoldable pub panic_unless : Bool → M (Unit {0})
panic_unless b t = if b then finished tt t else panics t

-- The calls on the builder, in order.
unfoldable pub builder_calls : (clib_dir : String) → List BuilderCall
builder_calls clib_dir =
    header clib_dir "wrapper.h"
    ∷ clang_arg ("-I" +++ clib_dir)
    ∷ derive_default true
    ∷ allowlist_file clib_dir "appctx.h"
    ∷ allowlist_file clib_dir "logging.h"
    ∷ allowlist_file clib_dir "userdata.h"
    ∷ allowlist_file clib_dir "errors.h"
    ∷ allowlist_function "io_uring_.*"
    ∷ allowlist_type "io_uring.*"
    ∷ allowlist_type "iovec"
    ∷ allowlist_var "IORING_.*"
    ∷ allowlist_var "IOSQE_.*"
    ∷ parse_callbacks
    ∷ []

-- `PathBuf::from("src").join("bindings.rs")`
abbrev pub bindings_path : String
bindings_path = "src/bindings.rs"

module _ (env : BuildEnv) where
  -- The last part: what cargo is to watch.
  unfoldable pub watch : (clib_dir : String) → M (Unit {0})
  watch clib_dir = do
    effect (println ("cargo:rerun-if-changed=" +++ (clib_dir +++ "/wrapper.h")))
    effect (println ("cargo:rerun-if-changed=" +++ (clib_dir +++ "/bufring.h")))
    effect (println ("cargo:rerun-if-changed=" +++ (clib_dir +++ "/logging.h")))
    effect (println ("cargo:rerun-if-changed=" +++ (clib_dir +++ "/userdata.h")))
    effect (println ("cargo:rerun-if-changed=" +++ (clib_dir +++ "/errors.h")))

  unfoldable pub build_main : M (Unit {0})
  unfolding unwrap panic_unless builder_calls watch
  build_main = do
    manifest_dir ← unwrap env.manifest_dir
    top ← unwrap (parent manifest_dir)
    let clib_dir = join top "clib"
    effect (make clib_dir)
    success ← unwrap (env.make_status clib_dir)
    panic_unless success
    effect (println ("cargo:rustc-link-search=native=" +++ display clib_dir))
    effect (println "cargo:rustc-link-lib=static=iouring_helpers")
    effect (println "cargo:rustc-link-lib=uring-ffi")
    let calls = builder_calls (display clib_dir)
    effect (generate calls)
    bindings ← unwrap (env.bindgen calls)
    effect (write_to_file bindings_path bindings)
    panic_unless (env.can_write bindings_path)
    watch (display clib_dir)

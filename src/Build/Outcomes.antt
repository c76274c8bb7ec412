-- ===== src/Build/Outcomes.antt =====
-- How rexe/build.rs ends, and what it has done by then.
use Prim.Native.String.{◌++◌ as ◌+++◌}
use iouring_http_server.Prelude.{
  ◌++◌, List, String, ◌≡◌, ◌⊎◌, if◌then◌else◌, true, false, Option, none, some, [], ◌∷◌,
}
use iouring_http_server.Build.{
  FilePath, display, join, BuildEnv, println, write_to_file, Trace, Outcome, finished, panics,
  builder_calls, bindings_path,
}

-- The bindings that were written last.
unfoldable pub written : BuildEnv → Trace → Option String
written env [] = none
written env (write_to_file path bindings ∷ t) =
    if env.can_write path then some bindings else written env t
written env (_ ∷ t) = written env t

-- The lines that cargo has been told, the latest first.
unfoldable pub told : Trace → List String
told [] = []
told (println line ∷ t) = line ∷ told t
told (_ ∷ t) = told t

-- What makes cargo link the library of `dir` and liburing, the latest line first.
abbrev pub link_lines : (dir : String) → List String
link_lines dir =
    "cargo:rustc-link-lib=uring-ffi"
    ∷ "cargo:rustc-link-lib=static=iouring_helpers"
    ∷ ("cargo:rustc-link-search=native=" +++ dir)
    ∷ []

-- What makes cargo run the script again when one of five headers of `dir` changes.
abbrev pub watch_lines : (dir : String) → List String
watch_lines dir =
    ("cargo:rerun-if-changed=" +++ (dir +++ "/errors.h"))
    ∷ ("cargo:rerun-if-changed=" +++ (dir +++ "/userdata.h"))
    ∷ ("cargo:rerun-if-changed=" +++ (dir +++ "/logging.h"))
    ∷ ("cargo:rerun-if-changed=" +++ (dir +++ "/bufring.h"))
    ∷ ("cargo:rerun-if-changed=" +++ (dir +++ "/wrapper.h"))
    ∷ []

-- The library is beside the package.
abbrev pub clib_dir_of : FilePath → FilePath
clib_dir_of top = join top "clib"

-- Why the script may panic.
pub data Cause (env : BuildEnv) : Type 0 where
  no_manifest_dir : env.manifest_dir ≡ none → Cause env
  no_parent : env.manifest_dir ≡ some [] → Cause env
  no_make :
      (last : String) (top : FilePath)
      → env.manifest_dir ≡ some (last ∷ top)
      → env.make_status (clib_dir_of top) ≡ none
      → Cause env
  make_failed :
      (last : String) (top : FilePath)
      → env.manifest_dir ≡ some (last ∷ top)
      → env.make_status (clib_dir_of top) ≡ some false
      → Cause env
  bindgen_failed :
      (last : String) (top : FilePath)
      → env.manifest_dir ≡ some (last ∷ top)
      → env.bindgen (builder_calls (display (clib_dir_of top))) ≡ none
      → Cause env
  write_failed : env.can_write bindings_path ≡ false → Cause env

-- What has been done when the script ends.
pub data Ended (env : BuildEnv) : Outcome (Unit {0}) → Type 0 where
  ends_well :
      (last : String) (top : FilePath) (bindings : String) (t : Trace)
      → env.manifest_dir ≡ some (last ∷ top)
      → env.make_status (clib_dir_of top) ≡ some true
      → env.bindgen (builder_calls (display (clib_dir_of top))) ≡ some bindings
      → written env t ≡ some bindings
      → told t ≡ watch_lines (display (clib_dir_of top)) ++ link_lines (display (clib_dir_of top))
      → Ended env (finished tt t)
  ends_badly :
      (t : Trace)
      → Cause env
      → written env t ≡ none
      → (told t ≡ [])
        ⊎ ((last : String) × (top : FilePath) × (env.manifest_dir ≡ some (last ∷ top))
            × (env.make_status (clib_dir_of top) ≡ some true)
            × (told t ≡ link_lines (display (clib_dir_of top))))
      → Ended env (panics t)

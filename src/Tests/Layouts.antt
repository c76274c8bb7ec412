-- ===== src/Tests/Layouts.antt =====
-- The layouts and constants of the bindings at concrete inputs.
use Prim.Native.Nat.{bit_and}
use iouring_http_server.Prelude.{ℕ, ◌≡◌, refl, arith}
use iouring_http_server.Bindings.Table.{BindingName, binding}
use iouring_http_server.Bindings.Checks.{AllCompile, AllCompile-binding}
use iouring_http_server.Bindings.Flags.{setup}
use iouring_http_server.Bindings.Constants.{flags_apart}

AllCompile-binding_example : AllCompile (binding BindingName.appctx_t)
AllCompile-binding_example = AllCompile-binding BindingName.appctx_t

abbrev read_code : ℕ
read_code = 22

flags_apart_example : bit_and 2 4 ≡ 0
flags_apart_example =
    flags_apart setup 1 2 "IORING_SETUP_SQPOLL" "IORING_SETUP_SQ_AFF" 2 4 refl refl
      (λ e. absurd (omega arith))

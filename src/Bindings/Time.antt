-- ===== src/Bindings/Time.antt =====
-- rexe/src/bindings.rs: the types of `io_uring_prep_openat2` and of timeouts.
use iouring_http_server.Prelude.{[], ◌∷◌}
use iouring_http_server.Layout.{
  RustType, Binding, scalar, structure, repr_c, end, c_longlong, size_is, align_is, offset_is,
  derived, ◌∶◌, ◌▸◌,
}
use iouring_http_server.Bindings.Types.{kernel_time64_t, u64}

abbrev pub kernel_timespec : RustType
kernel_timespec =
    structure repr_c ("tv_sec" ∶ kernel_time64_t ▸ "tv_nsec" ∶ scalar c_longlong ▸ end)

abbrev pub kernel_timespec_binding : Binding
kernel_timespec_binding = record {
  layout = kernel_timespec;
  asserts = size_is 16 ∷ align_is 8 ∷ offset_is "tv_sec" 0 ∷ offset_is "tv_nsec" 8 ∷ [];
  default = derived;
}

abbrev pub open_how : RustType
open_how = structure repr_c ("flags" ∶ u64 ▸ "mode" ∶ u64 ▸ "resolve" ∶ u64 ▸ end)

abbrev pub open_how_binding : Binding
open_how_binding = record {
  layout = open_how;
  asserts =
      size_is 24
      ∷ align_is 8
      ∷ offset_is "flags" 0
      ∷ offset_is "mode" 8
      ∷ offset_is "resolve" 16
      ∷ [];
  default = derived;
}

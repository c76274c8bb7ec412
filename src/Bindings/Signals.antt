-- ===== src/Bindings/Signals.antt =====
-- rexe/src/bindings.rs: the signal types behind `siginfo_t`.
use iouring_http_server.Prelude.{[], ◌∷◌}
use iouring_http_server.Layout.{
  RustType, Binding, scalar, array, structure, union, repr_c, end, c_short, c_int, c_uint, c_long,
  pointer, size_is, align_is, offset_is, derived, zeroed, ◌∶◌, ◌▸◌,
}
use iouring_http_server.Bindings.Types.{clock_t, pid_t, uid_t, uint32_t}

abbrev pub sigval : RustType
sigval = union repr_c ("sival_int" ∶ scalar c_int ▸ "sival_ptr" ∶ scalar pointer ▸ end)

abbrev pub sigval_binding : Binding
sigval_binding = record {
  layout = sigval;
  asserts = size_is 8 ∷ align_is 8 ∷ offset_is "sival_int" 0 ∷ offset_is "sival_ptr" 0 ∷ [];
  default = zeroed;
}

abbrev pub siginfo_t_bindgen_ty_1_bindgen_ty_1 : RustType
siginfo_t_bindgen_ty_1_bindgen_ty_1 = structure repr_c ("si_pid" ∶ pid_t ▸ "si_uid" ∶ uid_t ▸ end)

abbrev pub siginfo_t_bindgen_ty_1_bindgen_ty_1_binding : Binding
siginfo_t_bindgen_ty_1_bindgen_ty_1_binding = record {
  layout = siginfo_t_bindgen_ty_1_bindgen_ty_1;
  asserts = size_is 8 ∷ align_is 4 ∷ offset_is "si_pid" 0 ∷ offset_is "si_uid" 4 ∷ [];
  default = derived;
}

abbrev pub siginfo_t_bindgen_ty_1_bindgen_ty_2 : RustType
siginfo_t_bindgen_ty_1_bindgen_ty_2 =
    structure repr_c
      ("si_tid" ∶ scalar c_int ▸ "si_overrun" ∶ scalar c_int ▸ "si_sigval" ∶ sigval ▸ end)

abbrev pub siginfo_t_bindgen_ty_1_bindgen_ty_2_binding : Binding
siginfo_t_bindgen_ty_1_bindgen_ty_2_binding = record {
  layout = siginfo_t_bindgen_ty_1_bindgen_ty_2;
  asserts =
      size_is 16
      ∷ align_is 8
      ∷ offset_is "si_tid" 0
      ∷ offset_is "si_overrun" 4
      ∷ offset_is "si_sigval" 8
      ∷ [];
  default = zeroed;
}

abbrev pub siginfo_t_bindgen_ty_1_bindgen_ty_3 : RustType
siginfo_t_bindgen_ty_1_bindgen_ty_3 =
    structure repr_c ("si_pid" ∶ pid_t ▸ "si_uid" ∶ uid_t ▸ "si_sigval" ∶ sigval ▸ end)

abbrev pub siginfo_t_bindgen_ty_1_bindgen_ty_3_binding : Binding
siginfo_t_bindgen_ty_1_bindgen_ty_3_binding = record {
  layout = siginfo_t_bindgen_ty_1_bindgen_ty_3;
  asserts =
      size_is 16
      ∷ align_is 8
      ∷ offset_is "si_pid" 0
      ∷ offset_is "si_uid" 4
      ∷ offset_is "si_sigval" 8
      ∷ [];
  default = zeroed;
}

abbrev pub siginfo_t_bindgen_ty_1_bindgen_ty_4 : RustType
siginfo_t_bindgen_ty_1_bindgen_ty_4 = structure repr_c (
    "si_pid" ∶ pid_t
    ▸ "si_uid" ∶ uid_t
    ▸ "si_status" ∶ scalar c_int
    ▸ "si_utime" ∶ clock_t
    ▸ "si_stime" ∶ clock_t
    ▸ end)

abbrev pub siginfo_t_bindgen_ty_1_bindgen_ty_4_binding : Binding
siginfo_t_bindgen_ty_1_bindgen_ty_4_binding = record {
  layout = siginfo_t_bindgen_ty_1_bindgen_ty_4;
  asserts =
      size_is 32
      ∷ align_is 8
      ∷ offset_is "si_pid" 0
      ∷ offset_is "si_uid" 4
      ∷ offset_is "si_status" 8
      ∷ offset_is "si_utime" 16
      ∷ offset_is "si_stime" 24
      ∷ [];
  default = derived;
}

abbrev pub siginfo_t_bindgen_ty_1_bindgen_ty_5_bindgen_ty_1_bindgen_ty_1 : RustType
siginfo_t_bindgen_ty_1_bindgen_ty_5_bindgen_ty_1_bindgen_ty_1 =
    structure repr_c ("_lower" ∶ scalar pointer ▸ "_upper" ∶ scalar pointer ▸ end)

abbrev pub siginfo_t_bindgen_ty_1_bindgen_ty_5_bindgen_ty_1_bindgen_ty_1_binding : Binding
siginfo_t_bindgen_ty_1_bindgen_ty_5_bindgen_ty_1_bindgen_ty_1_binding = record {
  layout = siginfo_t_bindgen_ty_1_bindgen_ty_5_bindgen_ty_1_bindgen_ty_1;
  asserts = size_is 16 ∷ align_is 8 ∷ offset_is "_lower" 0 ∷ offset_is "_upper" 8 ∷ [];
  default = zeroed;
}

abbrev pub siginfo_t_bindgen_ty_1_bindgen_ty_5_bindgen_ty_1 : RustType
siginfo_t_bindgen_ty_1_bindgen_ty_5_bindgen_ty_1 = union repr_c (
    "_addr_bnd" ∶ siginfo_t_bindgen_ty_1_bindgen_ty_5_bindgen_ty_1_bindgen_ty_1
    ▸ "_pkey" ∶ uint32_t
    ▸ end)

abbrev pub siginfo_t_bindgen_ty_1_bindgen_ty_5_bindgen_ty_1_binding : Binding
siginfo_t_bindgen_ty_1_bindgen_ty_5_bindgen_ty_1_binding = record {
  layout = siginfo_t_bindgen_ty_1_bindgen_ty_5_bindgen_ty_1;
  asserts = size_is 16 ∷ align_is 8 ∷ offset_is "_addr_bnd" 0 ∷ offset_is "_pkey" 0 ∷ [];
  default = zeroed;
}

abbrev pub siginfo_t_bindgen_ty_1_bindgen_ty_5 : RustType
siginfo_t_bindgen_ty_1_bindgen_ty_5 = structure repr_c (
    "si_addr" ∶ scalar pointer
    ▸ "si_addr_lsb" ∶ scalar c_short
    ▸ "_bounds" ∶ siginfo_t_bindgen_ty_1_bindgen_ty_5_bindgen_ty_1
    ▸ end)

abbrev pub siginfo_t_bindgen_ty_1_bindgen_ty_5_binding : Binding
siginfo_t_bindgen_ty_1_bindgen_ty_5_binding = record {
  layout = siginfo_t_bindgen_ty_1_bindgen_ty_5;
  asserts =
      size_is 32
      ∷ align_is 8
      ∷ offset_is "si_addr" 0
      ∷ offset_is "si_addr_lsb" 8
      ∷ offset_is "_bounds" 16
      ∷ [];
  default = zeroed;
}

abbrev pub siginfo_t_bindgen_ty_1_bindgen_ty_6 : RustType
siginfo_t_bindgen_ty_1_bindgen_ty_6 =
    structure repr_c ("si_band" ∶ scalar c_long ▸ "si_fd" ∶ scalar c_int ▸ end)

abbrev pub siginfo_t_bindgen_ty_1_bindgen_ty_6_binding : Binding
siginfo_t_bindgen_ty_1_bindgen_ty_6_binding = record {
  layout = siginfo_t_bindgen_ty_1_bindgen_ty_6;
  asserts = size_is 16 ∷ align_is 8 ∷ offset_is "si_band" 0 ∷ offset_is "si_fd" 8 ∷ [];
  default = derived;
}

abbrev pub siginfo_t_bindgen_ty_1_bindgen_ty_7 : RustType
siginfo_t_bindgen_ty_1_bindgen_ty_7 =
    structure repr_c
      ("_call_addr" ∶ scalar pointer ▸ "_syscall" ∶ scalar c_int ▸ "_arch" ∶ scalar c_uint ▸ end)

abbrev pub siginfo_t_bindgen_ty_1_bindgen_ty_7_binding : Binding
siginfo_t_bindgen_ty_1_bindgen_ty_7_binding = record {
  layout = siginfo_t_bindgen_ty_1_bindgen_ty_7;
  asserts =
      size_is 16
      ∷ align_is 8
      ∷ offset_is "_call_addr" 0
      ∷ offset_is "_syscall" 8
      ∷ offset_is "_arch" 12
      ∷ [];
  default = zeroed;
}

abbrev pub siginfo_t_bindgen_ty_1 : RustType
siginfo_t_bindgen_ty_1 = union repr_c (
    "_pad" ∶ array (scalar c_int) 28
    ▸ "_kill" ∶ siginfo_t_bindgen_ty_1_bindgen_ty_1
    ▸ "_timer" ∶ siginfo_t_bindgen_ty_1_bindgen_ty_2
    ▸ "_rt" ∶ siginfo_t_bindgen_ty_1_bindgen_ty_3
    ▸ "_sigchld" ∶ siginfo_t_bindgen_ty_1_bindgen_ty_4
    ▸ "_sigfault" ∶ siginfo_t_bindgen_ty_1_bindgen_ty_5
    ▸ "_sigpoll" ∶ siginfo_t_bindgen_ty_1_bindgen_ty_6
    ▸ "_sigsys" ∶ siginfo_t_bindgen_ty_1_bindgen_ty_7
    ▸ end)

abbrev pub siginfo_t_bindgen_ty_1_binding : Binding
siginfo_t_bindgen_ty_1_binding = record {
  layout = siginfo_t_bindgen_ty_1;
  asserts =
      size_is 112
      ∷ align_is 8
      ∷ offset_is "_pad" 0
      ∷ offset_is "_kill" 0
      ∷ offset_is "_timer" 0
      ∷ offset_is "_rt" 0
      ∷ offset_is "_sigchld" 0
      ∷ offset_is "_sigfault" 0
      ∷ offset_is "_sigpoll" 0
      ∷ offset_is "_sigsys" 0
      ∷ [];
  default = zeroed;
}

abbrev pub siginfo_t : RustType
siginfo_t = structure repr_c (
    "si_signo" ∶ scalar c_int
    ▸ "si_errno" ∶ scalar c_int
    ▸ "si_code" ∶ scalar c_int
    ▸ "__pad0" ∶ scalar c_int
    ▸ "_sifields" ∶ siginfo_t_bindgen_ty_1
    ▸ end)

abbrev pub siginfo_t_binding : Binding
siginfo_t_binding = record {
  layout = siginfo_t;
  asserts =
      size_is 128
      ∷ align_is 8
      ∷ offset_is "si_signo" 0
      ∷ offset_is "si_errno" 4
      ∷ offset_is "si_code" 8
      ∷ offset_is "__pad0" 12
      ∷ offset_is "_sifields" 16
      ∷ [];
  default = zeroed;
}

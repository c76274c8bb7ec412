-- ===== src/Bindings/Types.antt =====
-- The two marker types of bindgen and the type aliases of rexe/src/bindings.rs that its fields use.
use iouring_http_server.Layout.{
  RustType, scalar, phantom, array, structure, repr_c, end, ◌∶◌, ◌▸◌, c_uchar, c_ushort, c_int,
  c_uint, c_long, c_longlong, c_ulonglong,
}

-- `PhantomData<T>` has size zero and alignment one.
abbrev pub incomplete_array_field : RustType → RustType
incomplete_array_field t = structure repr_c ("0" ∶ phantom ▸ "1" ∶ array t 0 ▸ end)

abbrev pub bindgen_union_field : RustType → RustType
bindgen_union_field t = structure repr_c ("0" ∶ phantom ▸ end)

abbrev pub uint32_t : RustType
uint32_t = scalar c_uint

abbrev pub uid_t : RustType
uid_t = scalar c_uint

abbrev pub pid_t : RustType
pid_t = scalar c_int

abbrev pub clock_t : RustType
clock_t = scalar c_long

abbrev pub socklen_t : RustType
socklen_t = scalar c_uint

abbrev pub sa_family_t : RustType
sa_family_t = scalar c_ushort

abbrev pub kernel_time64_t : RustType
kernel_time64_t = scalar c_longlong

abbrev pub u8 : RustType
u8 = scalar c_uchar

abbrev pub u16 : RustType
u16 = scalar c_ushort

abbrev pub s32 : RustType
s32 = scalar c_int

abbrev pub u32 : RustType
u32 = scalar c_uint

abbrev pub u64 : RustType
u64 = scalar c_ulonglong

abbrev pub kernel_rwf_t : RustType
kernel_rwf_t = scalar c_int

-- ===== src/Bindings/Net.antt =====
-- rexe/src/bindings.rs: buffers, messages and times of the socket interface.
use iouring_http_server.Prelude.{[], ◌∷◌}
use iouring_http_server.Layout.{
  RustType, Binding, scalar, array, structure, repr_c, end, rust_usize, c_char, c_uchar, c_int,
  c_ulong, pointer, size_is, align_is, offset_is, derived, zeroed, ◌∶◌, ◌▸◌,
}
use iouring_http_server.Bindings.Types.{incomplete_array_field, sa_family_t, socklen_t}

abbrev pub iovec : RustType
iovec = structure repr_c ("iov_base" ∶ scalar pointer ▸ "iov_len" ∶ scalar rust_usize ▸ end)

abbrev pub iovec_binding : Binding
iovec_binding = record {
  layout = iovec;
  asserts = size_is 16 ∷ align_is 8 ∷ offset_is "iov_base" 0 ∷ offset_is "iov_len" 8 ∷ [];
  default = zeroed;
}

abbrev pub sigset_t : RustType
sigset_t = structure repr_c ("__val" ∶ array (scalar c_ulong) 16 ▸ end)

abbrev pub sigset_t_binding : Binding
sigset_t_binding = record {
  layout = sigset_t;
  asserts = size_is 128 ∷ align_is 8 ∷ offset_is "__val" 0 ∷ [];
  default = derived;
}

abbrev pub sockaddr : RustType
sockaddr = structure repr_c ("sa_family" ∶ sa_family_t ▸ "sa_data" ∶ array (scalar c_char) 14 ▸ end)

abbrev pub sockaddr_binding : Binding
sockaddr_binding = record {
  layout = sockaddr;
  asserts = size_is 16 ∷ align_is 2 ∷ offset_is "sa_family" 0 ∷ offset_is "sa_data" 2 ∷ [];
  default = derived;
}

abbrev pub msghdr : RustType
msghdr = structure repr_c (
    "msg_name" ∶ scalar pointer
    ▸ "msg_namelen" ∶ socklen_t
    ▸ "msg_iov" ∶ scalar pointer
    ▸ "msg_iovlen" ∶ scalar rust_usize
    ▸ "msg_control" ∶ scalar pointer
    ▸ "msg_controllen" ∶ scalar rust_usize
    ▸ "msg_flags" ∶ scalar c_int
    ▸ end)

abbrev pub msghdr_binding : Binding
msghdr_binding = record {
  layout = msghdr;
  asserts =
      size_is 56
      ∷ align_is 8
      ∷ offset_is "msg_name" 0
      ∷ offset_is "msg_namelen" 8
      ∷ offset_is "msg_iov" 16
      ∷ offset_is "msg_iovlen" 24
      ∷ offset_is "msg_control" 32
      ∷ offset_is "msg_controllen" 40
      ∷ offset_is "msg_flags" 48
      ∷ [];
  default = zeroed;
}

abbrev pub cmsghdr : RustType
cmsghdr = structure repr_c (
    "cmsg_len" ∶ scalar rust_usize
    ▸ "cmsg_level" ∶ scalar c_int
    ▸ "cmsg_type" ∶ scalar c_int
    ▸ "__cmsg_data" ∶ incomplete_array_field (scalar c_uchar)
    ▸ end)

abbrev pub cmsghdr_binding : Binding
cmsghdr_binding = record {
  layout = cmsghdr;
  asserts =
      size_is 16
      ∷ align_is 8
      ∷ offset_is "cmsg_len" 0
      ∷ offset_is "cmsg_level" 8
      ∷ offset_is "cmsg_type" 12
      ∷ offset_is "__cmsg_data" 16
      ∷ [];
  default = derived;
}

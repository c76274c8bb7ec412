-- ===== src/Bindings/Table.antt =====
-- The types of rexe/src/bindings.rs that carry assertions, each with its declaration.
use iouring_http_server.Layout.{Binding}
use iouring_http_server.Bindings.Signals.{
  sigval_binding, siginfo_t_bindgen_ty_1_bindgen_ty_1_binding,
  siginfo_t_bindgen_ty_1_bindgen_ty_2_binding, siginfo_t_bindgen_ty_1_bindgen_ty_3_binding,
  siginfo_t_bindgen_ty_1_bindgen_ty_4_binding,
  siginfo_t_bindgen_ty_1_bindgen_ty_5_bindgen_ty_1_bindgen_ty_1_binding,
  siginfo_t_bindgen_ty_1_bindgen_ty_5_bindgen_ty_1_binding,
  siginfo_t_bindgen_ty_1_bindgen_ty_5_binding, siginfo_t_bindgen_ty_1_bindgen_ty_6_binding,
  siginfo_t_bindgen_ty_1_bindgen_ty_7_binding, siginfo_t_bindgen_ty_1_binding, siginfo_t_binding,
}
use iouring_http_server.Bindings.Net.{
  iovec_binding, sigset_t_binding, sockaddr_binding, msghdr_binding, cmsghdr_binding,
}
use iouring_http_server.Bindings.Time.{kernel_timespec_binding, open_how_binding}
use iouring_http_server.Bindings.SqeParts.{
  io_uring_sqe_bindgen_ty_1_bindgen_ty_1_binding, io_uring_sqe_bindgen_ty_1_binding,
  io_uring_sqe_bindgen_ty_2_bindgen_ty_1_binding, io_uring_sqe_bindgen_ty_2_binding,
  io_uring_sqe_bindgen_ty_3_binding, io_uring_sqe_bindgen_ty_4_binding,
  io_uring_sqe_bindgen_ty_5_bindgen_ty_1_binding, io_uring_sqe_bindgen_ty_5_binding,
  io_uring_sqe_bindgen_ty_6_bindgen_ty_1_binding, io_uring_sqe_bindgen_ty_6_binding,
}
use iouring_http_server.Bindings.Sqe.{io_uring_sqe_binding, io_uring_cqe_binding}
use iouring_http_server.Bindings.Params.{
  io_sqring_offsets_binding, io_cqring_offsets_binding, io_uring_params_binding,
}
use iouring_http_server.Bindings.Register.{
  io_uring_files_update_binding, io_uring_region_desc_binding, io_uring_mem_region_reg_binding,
  io_uring_rsrc_register_binding, io_uring_rsrc_update_binding, io_uring_rsrc_update2_binding,
  io_uring_probe_op_binding,
}
use iouring_http_server.Bindings.Restrict.{
  io_uring_probe_binding, io_uring_restriction_bindgen_ty_1_binding, io_uring_restriction_binding,
  io_uring_clock_register_binding, io_uring_clone_buffers_binding, io_uring_buf_binding,
}
use iouring_http_server.Bindings.Buffers.{
  io_uring_buf_ring_bindgen_ty_1_bindgen_ty_1_binding, io_uring_buf_ring_bindgen_ty_1_binding,
  io_uring_buf_ring_binding, io_uring_buf_reg_binding, io_uring_buf_status_binding,
  io_uring_napi_binding, io_uring_cqwait_reg_arg_binding, io_uring_reg_wait_binding,
  io_uring_getevents_arg_binding, io_uring_sync_cancel_reg_binding,
}
use iouring_http_server.Bindings.Rings.{
  io_uring_file_index_range_binding, io_uring_recvmsg_out_binding, io_uring_sq_binding,
  io_uring_cq_binding, io_uring_binding,
}
use iouring_http_server.Bindings.App.{
  bufring_init_params_t_binding, bufring_t_binding, bufpool_t_binding, bufpool_freebuf_t_binding,
  appctx_t_binding, userdata_bindgen_ty_1_bindgen_ty_1_binding, userdata_bindgen_ty_1_binding,
  userdata_binding,
}

pub data BindingName : Type 0 where
  iovec : BindingName
  sigset_t : BindingName
  sockaddr : BindingName
  msghdr : BindingName
  cmsghdr : BindingName
  sigval : BindingName
  siginfo_t_bindgen_ty_1_bindgen_ty_1 : BindingName
  siginfo_t_bindgen_ty_1_bindgen_ty_2 : BindingName
  siginfo_t_bindgen_ty_1_bindgen_ty_3 : BindingName
  siginfo_t_bindgen_ty_1_bindgen_ty_4 : BindingName
  siginfo_t_bindgen_ty_1_bindgen_ty_5_bindgen_ty_1_bindgen_ty_1 : BindingName
  siginfo_t_bindgen_ty_1_bindgen_ty_5_bindgen_ty_1 : BindingName
  siginfo_t_bindgen_ty_1_bindgen_ty_5 : BindingName
  siginfo_t_bindgen_ty_1_bindgen_ty_6 : BindingName
  siginfo_t_bindgen_ty_1_bindgen_ty_7 : BindingName
  siginfo_t_bindgen_ty_1 : BindingName
  siginfo_t : BindingName
  kernel_timespec : BindingName
  open_how : BindingName
  io_uring_sqe_bindgen_ty_1_bindgen_ty_1 : BindingName
  io_uring_sqe_bindgen_ty_1 : BindingName
  io_uring_sqe_bindgen_ty_2_bindgen_ty_1 : BindingName
  io_uring_sqe_bindgen_ty_2 : BindingName
  io_uring_sqe_bindgen_ty_3 : BindingName
  io_uring_sqe_bindgen_ty_4 : BindingName
  io_uring_sqe_bindgen_ty_5_bindgen_ty_1 : BindingName
  io_uring_sqe_bindgen_ty_5 : BindingName
  io_uring_sqe_bindgen_ty_6_bindgen_ty_1 : BindingName
  io_uring_sqe_bindgen_ty_6 : BindingName
  io_uring_sqe : BindingName
  io_uring_cqe : BindingName
  io_sqring_offsets : BindingName
  io_cqring_offsets : BindingName
  io_uring_params : BindingName
  io_uring_files_update : BindingName
  io_uring_region_desc : BindingName
  io_uring_mem_region_reg : BindingName
  io_uring_rsrc_register : BindingName
  io_uring_rsrc_update : BindingName
  io_uring_rsrc_update2 : BindingName
  io_uring_probe_op : BindingName
  io_uring_probe : BindingName
  io_uring_restriction_bindgen_ty_1 : BindingName
  io_uring_restriction : BindingName
  io_uring_clock_register : BindingName
  io_uring_clone_buffers : BindingName
  io_uring_buf : BindingName
  io_uring_buf_ring_bindgen_ty_1_bindgen_ty_1 : BindingName
  io_uring_buf_ring_bindgen_ty_1 : BindingName
  io_uring_buf_ring : BindingName
  io_uring_buf_reg : BindingName
  io_uring_buf_status : BindingName
  io_uring_napi : BindingName
  io_uring_cqwait_reg_arg : BindingName
  io_uring_reg_wait : BindingName
  io_uring_getevents_arg : BindingName
  io_uring_sync_cancel_reg : BindingName
  io_uring_file_index_range : BindingName
  io_uring_recvmsg_out : BindingName
  io_uring_sq : BindingName
  io_uring_cq : BindingName
  io_uring : BindingName
  bufring_init_params_t : BindingName
  bufring_t : BindingName
  bufpool_t : BindingName
  bufpool_freebuf_t : BindingName
  appctx_t : BindingName
  userdata_bindgen_ty_1_bindgen_ty_1 : BindingName
  userdata_bindgen_ty_1 : BindingName
  userdata : BindingName

abbrev pub binding : BindingName → Binding
binding iovec = iovec_binding
binding sigset_t = sigset_t_binding
binding sockaddr = sockaddr_binding
binding msghdr = msghdr_binding
binding cmsghdr = cmsghdr_binding
binding sigval = sigval_binding
binding siginfo_t_bindgen_ty_1_bindgen_ty_1 = siginfo_t_bindgen_ty_1_bindgen_ty_1_binding
binding siginfo_t_bindgen_ty_1_bindgen_ty_2 = siginfo_t_bindgen_ty_1_bindgen_ty_2_binding
binding siginfo_t_bindgen_ty_1_bindgen_ty_3 = siginfo_t_bindgen_ty_1_bindgen_ty_3_binding
binding siginfo_t_bindgen_ty_1_bindgen_ty_4 = siginfo_t_bindgen_ty_1_bindgen_ty_4_binding
binding siginfo_t_bindgen_ty_1_bindgen_ty_5_bindgen_ty_1_bindgen_ty_1 =
    siginfo_t_bindgen_ty_1_bindgen_ty_5_bindgen_ty_1_bindgen_ty_1_binding
binding siginfo_t_bindgen_ty_1_bindgen_ty_5_bindgen_ty_1 =
    siginfo_t_bindgen_ty_1_bindgen_ty_5_bindgen_ty_1_binding
binding siginfo_t_bindgen_ty_1_bindgen_ty_5 = siginfo_t_bindgen_ty_1_bindgen_ty_5_binding
binding siginfo_t_bindgen_ty_1_bindgen_ty_6 = siginfo_t_bindgen_ty_1_bindgen_ty_6_binding
binding siginfo_t_bindgen_ty_1_bindgen_ty_7 = siginfo_t_bindgen_ty_1_bindgen_ty_7_binding
binding siginfo_t_bindgen_ty_1 = siginfo_t_bindgen_ty_1_binding
binding siginfo_t = siginfo_t_binding
binding kernel_timespec = kernel_timespec_binding
binding open_how = open_how_binding
binding io_uring_sqe_bindgen_ty_1_bindgen_ty_1 = io_uring_sqe_bindgen_ty_1_bindgen_ty_1_binding
binding io_uring_sqe_bindgen_ty_1 = io_uring_sqe_bindgen_ty_1_binding
binding io_uring_sqe_bindgen_ty_2_bindgen_ty_1 = io_uring_sqe_bindgen_ty_2_bindgen_ty_1_binding
binding io_uring_sqe_bindgen_ty_2 = io_uring_sqe_bindgen_ty_2_binding
binding io_uring_sqe_bindgen_ty_3 = io_uring_sqe_bindgen_ty_3_binding
binding io_uring_sqe_bindgen_ty_4 = io_uring_sqe_bindgen_ty_4_binding
binding io_uring_sqe_bindgen_ty_5_bindgen_ty_1 = io_uring_sqe_bindgen_ty_5_bindgen_ty_1_binding
binding io_uring_sqe_bindgen_ty_5 = io_uring_sqe_bindgen_ty_5_binding
binding io_uring_sqe_bindgen_ty_6_bindgen_ty_1 = io_uring_sqe_bindgen_ty_6_bindgen_ty_1_binding
binding io_uring_sqe_bindgen_ty_6 = io_uring_sqe_bindgen_ty_6_binding
binding io_uring_sqe = io_uring_sqe_binding
binding io_uring_cqe = io_uring_cqe_binding
binding io_sqring_offsets = io_sqring_offsets_binding
binding io_cqring_offsets = io_cqring_offsets_binding
binding io_uring_params = io_uring_params_binding
binding io_uring_files_update = io_uring_files_update_binding
binding io_uring_region_desc = io_uring_region_desc_binding
binding io_uring_mem_region_reg = io_uring_mem_region_reg_binding
binding io_uring_rsrc_register = io_uring_rsrc_register_binding
binding io_uring_rsrc_update = io_uring_rsrc_update_binding
binding io_uring_rsrc_update2 = io_uring_rsrc_update2_binding
binding io_uring_probe_op = io_uring_probe_op_binding
binding io_uring_probe = io_uring_probe_binding
binding io_uring_restriction_bindgen_ty_1 = io_uring_restriction_bindgen_ty_1_binding
binding io_uring_restriction = io_uring_restriction_binding
binding io_uring_clock_register = io_uring_clock_register_binding
binding io_uring_clone_buffers = io_uring_clone_buffers_binding
binding io_uring_buf = io_uring_buf_binding
binding io_uring_buf_ring_bindgen_ty_1_bindgen_ty_1 =
    io_uring_buf_ring_bindgen_ty_1_bindgen_ty_1_binding
binding io_uring_buf_ring_bindgen_ty_1 = io_uring_buf_ring_bindgen_ty_1_binding
binding io_uring_buf_ring = io_uring_buf_ring_binding
binding io_uring_buf_reg = io_uring_buf_reg_binding
binding io_uring_buf_status = io_uring_buf_status_binding
binding io_uring_napi = io_uring_napi_binding
binding io_uring_cqwait_reg_arg = io_uring_cqwait_reg_arg_binding
binding io_uring_reg_wait = io_uring_reg_wait_binding
binding io_uring_getevents_arg = io_uring_getevents_arg_binding
binding io_uring_sync_cancel_reg = io_uring_sync_cancel_reg_binding
binding io_uring_file_index_range = io_uring_file_index_range_binding
binding io_uring_recvmsg_out = io_uring_recvmsg_out_binding
binding io_uring_sq = io_uring_sq_binding
binding io_uring_cq = io_uring_cq_binding
binding io_uring = io_uring_binding
binding bufring_init_params_t = bufring_init_params_t_binding
binding bufring_t = bufring_t_binding
binding bufpool_t = bufpool_t_binding
binding bufpool_freebuf_t = bufpool_freebuf_t_binding
binding appctx_t = appctx_t_binding
binding userdata_bindgen_ty_1_bindgen_ty_1 = userdata_bindgen_ty_1_bindgen_ty_1_binding
binding userdata_bindgen_ty_1 = userdata_bindgen_ty_1_binding
binding userdata = userdata_binding

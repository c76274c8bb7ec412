-- ===== src/Bindings/Flags.antt =====
-- The flag constants of rexe/src/bindings.rs, by the field that they are or-ed into.
use iouring_http_server.Prelude.{ℕ, String, List, [], ◌∷◌}

abbrev pub Constant : Type 0
Constant = String × ℕ

abbrev pub setup_flags : List Constant
setup_flags =
    ("IORING_SETUP_IOPOLL", 1)
    ∷ ("IORING_SETUP_SQPOLL", 2)
    ∷ ("IORING_SETUP_SQ_AFF", 4)
    ∷ ("IORING_SETUP_CQSIZE", 8)
    ∷ ("IORING_SETUP_CLAMP", 16)
    ∷ ("IORING_SETUP_ATTACH_WQ", 32)
    ∷ ("IORING_SETUP_R_DISABLED", 64)
    ∷ ("IORING_SETUP_SUBMIT_ALL", 128)
    ∷ ("IORING_SETUP_COOP_TASKRUN", 256)
    ∷ ("IORING_SETUP_TASKRUN_FLAG", 512)
    ∷ ("IORING_SETUP_SQE128", 1024)
    ∷ ("IORING_SETUP_CQE32", 2048)
    ∷ ("IORING_SETUP_SINGLE_ISSUER", 4096)
    ∷ ("IORING_SETUP_DEFER_TASKRUN", 8192)
    ∷ ("IORING_SETUP_NO_MMAP", 16384)
    ∷ ("IORING_SETUP_REGISTERED_FD_ONLY", 32768)
    ∷ ("IORING_SETUP_NO_SQARRAY", 65536)
    ∷ ("IORING_SETUP_HYBRID_IOPOLL", 131072)
    ∷ []

abbrev pub timeout_flags : List Constant
timeout_flags =
    ("IORING_TIMEOUT_ABS", 1)
    ∷ ("IORING_TIMEOUT_UPDATE", 2)
    ∷ ("IORING_TIMEOUT_BOOTTIME", 4)
    ∷ ("IORING_TIMEOUT_REALTIME", 8)
    ∷ ("IORING_LINK_TIMEOUT_UPDATE", 16)
    ∷ ("IORING_TIMEOUT_ETIME_SUCCESS", 32)
    ∷ ("IORING_TIMEOUT_MULTISHOT", 64)
    ∷ []

abbrev pub poll_flags : List Constant
poll_flags =
    ("IORING_POLL_ADD_MULTI", 1)
    ∷ ("IORING_POLL_UPDATE_EVENTS", 2)
    ∷ ("IORING_POLL_UPDATE_USER_DATA", 4)
    ∷ ("IORING_POLL_ADD_LEVEL", 8)
    ∷ []

abbrev pub async_cancel_flags : List Constant
async_cancel_flags =
    ("IORING_ASYNC_CANCEL_ALL", 1)
    ∷ ("IORING_ASYNC_CANCEL_FD", 2)
    ∷ ("IORING_ASYNC_CANCEL_ANY", 4)
    ∷ ("IORING_ASYNC_CANCEL_FD_FIXED", 8)
    ∷ ("IORING_ASYNC_CANCEL_USERDATA", 16)
    ∷ ("IORING_ASYNC_CANCEL_OP", 32)
    ∷ []

abbrev pub recvsend_flags : List Constant
recvsend_flags =
    ("IORING_RECVSEND_POLL_FIRST", 1)
    ∷ ("IORING_RECV_MULTISHOT", 2)
    ∷ ("IORING_RECVSEND_FIXED_BUF", 4)
    ∷ ("IORING_SEND_ZC_REPORT_USAGE", 8)
    ∷ ("IORING_RECVSEND_BUNDLE", 16)
    ∷ []

abbrev pub accept_flags : List Constant
accept_flags =
    ("IORING_ACCEPT_MULTISHOT", 1)
    ∷ ("IORING_ACCEPT_DONTWAIT", 2)
    ∷ ("IORING_ACCEPT_POLL_FIRST", 4)
    ∷ []

abbrev pub msg_ring_flags : List Constant
msg_ring_flags = ("IORING_MSG_RING_CQE_SKIP", 1) ∷ ("IORING_MSG_RING_FLAGS_PASS", 2) ∷ []

abbrev pub cqe_flags : List Constant
cqe_flags =
    ("IORING_CQE_F_BUFFER", 1)
    ∷ ("IORING_CQE_F_MORE", 2)
    ∷ ("IORING_CQE_F_SOCK_NONEMPTY", 4)
    ∷ ("IORING_CQE_F_NOTIF", 8)
    ∷ ("IORING_CQE_F_BUF_MORE", 16)
    ∷ []

abbrev pub sq_flags : List Constant
sq_flags =
    ("IORING_SQ_NEED_WAKEUP", 1) ∷ ("IORING_SQ_CQ_OVERFLOW", 2) ∷ ("IORING_SQ_TASKRUN", 4) ∷ []

abbrev pub enter_flags : List Constant
enter_flags =
    ("IORING_ENTER_GETEVENTS", 1)
    ∷ ("IORING_ENTER_SQ_WAKEUP", 2)
    ∷ ("IORING_ENTER_SQ_WAIT", 4)
    ∷ ("IORING_ENTER_EXT_ARG", 8)
    ∷ ("IORING_ENTER_REGISTERED_RING", 16)
    ∷ ("IORING_ENTER_ABS_TIMER", 32)
    ∷ ("IORING_ENTER_EXT_ARG_REG", 64)
    ∷ []

abbrev pub feat_flags : List Constant
feat_flags =
    ("IORING_FEAT_SINGLE_MMAP", 1)
    ∷ ("IORING_FEAT_NODROP", 2)
    ∷ ("IORING_FEAT_SUBMIT_STABLE", 4)
    ∷ ("IORING_FEAT_RW_CUR_POS", 8)
    ∷ ("IORING_FEAT_CUR_PERSONALITY", 16)
    ∷ ("IORING_FEAT_FAST_POLL", 32)
    ∷ ("IORING_FEAT_POLL_32BITS", 64)
    ∷ ("IORING_FEAT_SQPOLL_NONFIXED", 128)
    ∷ ("IORING_FEAT_EXT_ARG", 256)
    ∷ ("IORING_FEAT_NATIVE_WORKERS", 512)
    ∷ ("IORING_FEAT_RSRC_TAGS", 1024)
    ∷ ("IORING_FEAT_CQE_SKIP", 2048)
    ∷ ("IORING_FEAT_LINKED_FILE", 4096)
    ∷ ("IORING_FEAT_REG_REG_RING", 8192)
    ∷ ("IORING_FEAT_RECVSEND_BUNDLE", 16384)
    ∷ ("IORING_FEAT_MIN_TIMEOUT", 32768)
    ∷ []

-- The numbers of the bits of `sqe.flags`, which the `IOSQE_` macros shift by.
abbrev pub sqe_flag_bits : List Constant
sqe_flag_bits =
    ("IOSQE_FIXED_FILE_BIT", 0)
    ∷ ("IOSQE_IO_DRAIN_BIT", 1)
    ∷ ("IOSQE_IO_LINK_BIT", 2)
    ∷ ("IOSQE_IO_HARDLINK_BIT", 3)
    ∷ ("IOSQE_ASYNC_BIT", 4)
    ∷ ("IOSQE_BUFFER_SELECT_BIT", 5)
    ∷ ("IOSQE_CQE_SKIP_SUCCESS_BIT", 6)
    ∷ []

pub data FlagFamily : Type 0 where
  setup timeout poll async_cancel recvsend accept msg_ring cqe sq enter feat : FlagFamily

abbrev pub flags : FlagFamily → List Constant
flags setup = setup_flags
flags timeout = timeout_flags
flags poll = poll_flags
flags async_cancel = async_cancel_flags
flags recvsend = recvsend_flags
flags accept = accept_flags
flags msg_ring = msg_ring_flags
flags cqe = cqe_flags
flags sq = sq_flags
flags enter = enter_flags
flags feat = feat_flags

-- ===== src/Bindings/Opcodes.antt =====
-- The operation codes of rexe/src/bindings.rs, the tags of clib/userdata.h and the log levels.
use iouring_http_server.Prelude.{List, [], ◌∷◌}
use iouring_http_server.Bindings.Flags.{Constant}

-- Without the closing `IORING_OP_LAST`.
abbrev pub io_uring_ops : List Constant
io_uring_ops =
    ("IORING_OP_NOP", 0)
    ∷ ("IORING_OP_READV", 1)
    ∷ ("IORING_OP_WRITEV", 2)
    ∷ ("IORING_OP_FSYNC", 3)
    ∷ ("IORING_OP_READ_FIXED", 4)
    ∷ ("IORING_OP_WRITE_FIXED", 5)
    ∷ ("IORING_OP_POLL_ADD", 6)
    ∷ ("IORING_OP_POLL_REMOVE", 7)
    ∷ ("IORING_OP_SYNC_FILE_RANGE", 8)
    ∷ ("IORING_OP_SENDMSG", 9)
    ∷ ("IORING_OP_RECVMSG", 10)
    ∷ ("IORING_OP_TIMEOUT", 11)
    ∷ ("IORING_OP_TIMEOUT_REMOVE", 12)
    ∷ ("IORING_OP_ACCEPT", 13)
    ∷ ("IORING_OP_ASYNC_CANCEL", 14)
    ∷ ("IORING_OP_LINK_TIMEOUT", 15)
    ∷ ("IORING_OP_CONNECT", 16)
    ∷ ("IORING_OP_FALLOCATE", 17)
    ∷ ("IORING_OP_OPENAT", 18)
    ∷ ("IORING_OP_CLOSE", 19)
    ∷ ("IORING_OP_FILES_UPDATE", 20)
    ∷ ("IORING_OP_STATX", 21)
    ∷ ("IORING_OP_READ", 22)
    ∷ ("IORING_OP_WRITE", 23)
    ∷ ("IORING_OP_FADVISE", 24)
    ∷ ("IORING_OP_MADVISE", 25)
    ∷ ("IORING_OP_SEND", 26)
    ∷ ("IORING_OP_RECV", 27)
    ∷ ("IORING_OP_OPENAT2", 28)
    ∷ ("IORING_OP_EPOLL_CTL", 29)
    ∷ ("IORING_OP_SPLICE", 30)
    ∷ ("IORING_OP_PROVIDE_BUFFERS", 31)
    ∷ ("IORING_OP_REMOVE_BUFFERS", 32)
    ∷ ("IORING_OP_TEE", 33)
    ∷ ("IORING_OP_SHUTDOWN", 34)
    ∷ ("IORING_OP_RENAMEAT", 35)
    ∷ ("IORING_OP_UNLINKAT", 36)
    ∷ ("IORING_OP_MKDIRAT", 37)
    ∷ ("IORING_OP_SYMLINKAT", 38)
    ∷ ("IORING_OP_LINKAT", 39)
    ∷ ("IORING_OP_MSG_RING", 40)
    ∷ ("IORING_OP_FSETXATTR", 41)
    ∷ ("IORING_OP_SETXATTR", 42)
    ∷ ("IORING_OP_FGETXATTR", 43)
    ∷ ("IORING_OP_GETXATTR", 44)
    ∷ ("IORING_OP_SOCKET", 45)
    ∷ ("IORING_OP_URING_CMD", 46)
    ∷ ("IORING_OP_SEND_ZC", 47)
    ∷ ("IORING_OP_SENDMSG_ZC", 48)
    ∷ ("IORING_OP_READ_MULTISHOT", 49)
    ∷ ("IORING_OP_WAITID", 50)
    ∷ ("IORING_OP_FUTEX_WAIT", 51)
    ∷ ("IORING_OP_FUTEX_WAKE", 52)
    ∷ ("IORING_OP_FUTEX_WAITV", 53)
    ∷ ("IORING_OP_FIXED_FD_INSTALL", 54)
    ∷ ("IORING_OP_FTRUNCATE", 55)
    ∷ ("IORING_OP_BIND", 56)
    ∷ ("IORING_OP_LISTEN", 57)
    ∷ []

abbrev pub io_uring_op_last : Constant
io_uring_op_last = ("IORING_OP_LAST", 58)

-- Without `IORING_REGISTER_LAST` and the flag bit after it.
abbrev pub io_uring_register_ops : List Constant
io_uring_register_ops =
    ("IORING_REGISTER_BUFFERS", 0)
    ∷ ("IORING_UNREGISTER_BUFFERS", 1)
    ∷ ("IORING_REGISTER_FILES", 2)
    ∷ ("IORING_UNREGISTER_FILES", 3)
    ∷ ("IORING_REGISTER_EVENTFD", 4)
    ∷ ("IORING_UNREGISTER_EVENTFD", 5)
    ∷ ("IORING_REGISTER_FILES_UPDATE", 6)
    ∷ ("IORING_REGISTER_EVENTFD_ASYNC", 7)
    ∷ ("IORING_REGISTER_PROBE", 8)
    ∷ ("IORING_REGISTER_PERSONALITY", 9)
    ∷ ("IORING_UNREGISTER_PERSONALITY", 10)
    ∷ ("IORING_REGISTER_RESTRICTIONS", 11)
    ∷ ("IORING_REGISTER_ENABLE_RINGS", 12)
    ∷ ("IORING_REGISTER_FILES2", 13)
    ∷ ("IORING_REGISTER_FILES_UPDATE2", 14)
    ∷ ("IORING_REGISTER_BUFFERS2", 15)
    ∷ ("IORING_REGISTER_BUFFERS_UPDATE", 16)
    ∷ ("IORING_REGISTER_IOWQ_AFF", 17)
    ∷ ("IORING_UNREGISTER_IOWQ_AFF", 18)
    ∷ ("IORING_REGISTER_IOWQ_MAX_WORKERS", 19)
    ∷ ("IORING_REGISTER_RING_FDS", 20)
    ∷ ("IORING_UNREGISTER_RING_FDS", 21)
    ∷ ("IORING_REGISTER_PBUF_RING", 22)
    ∷ ("IORING_UNREGISTER_PBUF_RING", 23)
    ∷ ("IORING_REGISTER_SYNC_CANCEL", 24)
    ∷ ("IORING_REGISTER_FILE_ALLOC_RANGE", 25)
    ∷ ("IORING_REGISTER_PBUF_STATUS", 26)
    ∷ ("IORING_REGISTER_NAPI", 27)
    ∷ ("IORING_UNREGISTER_NAPI", 28)
    ∷ ("IORING_REGISTER_CLOCK", 29)
    ∷ ("IORING_REGISTER_CLONE_BUFFERS", 30)
    ∷ ("IORING_REGISTER_RESIZE_RINGS", 33)
    ∷ ("IORING_REGISTER_MEM_REGION", 34)
    ∷ []

abbrev pub io_uring_register_last : Constant
io_uring_register_last = ("IORING_REGISTER_LAST", 35)

abbrev pub use_registered_ring : Constant
use_registered_ring = ("IORING_REGISTER_USE_REGISTERED_RING", 2147483648)

abbrev pub opcodes : List Constant
opcodes =
    ("OP_LISTEN", 1)
    ∷ ("OP_ACCEPT", 2)
    ∷ ("OP_RECVMSG", 3)
    ∷ ("OP_WRITE", 4)
    ∷ ("OP_WRITE_FIXED", 5)
    ∷ ("OP_SENDMSG", 6)
    ∷ []

abbrev pub log_levels : List Constant
log_levels =
    ("LOG_LEVEL_DEBUG", 0)
    ∷ ("LOG_LEVEL_INFO", 1)
    ∷ ("LOG_LEVEL_WARN", 2)
    ∷ ("LOG_LEVEL_ERROR", 3)
    ∷ []

-- ===== src/Syscall/Modes.antt =====
-- `F_GETFL` of kernel/core/syscall/fcntl.c, and the access modes of kernel/core/syscall/common.h.

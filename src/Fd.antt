-- ===== src/Fd.antt =====
-- File descriptors, src/kernel/fd/fd_table.c with src/include/fd.h and `struct file` of
-- src/include/vfs.h. A file is known by a number, and `W` is the state that the file systems keep: their
-- operations, which the code calls through `file->ops`, are what they do to it. `kfree` does nothing.
pub mod Table
pub mod Calls
mod Tests

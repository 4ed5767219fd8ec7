-- ===== src/Lib.antt =====
-- A verification library of MiniOS, an operating system in C for arm64 and x86-64.
--
-- The kernel keeps physical pages in a bitmap, gives out small blocks from a static heap, and runs
-- tasks from a static pool: a task has a slot, a stack and a place in the scheduler's circular list.
-- Programs reach files through a table of descriptors; a file counts the descriptors that hold it, and
-- names the functions of its file system. Block devices, of which the RAM disk is one, stand behind a
-- cache of buffers. The virtual file system finds the file system that is mounted for a path; the RAM
-- file system keeps its tree and its files in blocks from the heap, the Simple File System on a disk.
-- The shell splits a line into words and finds the redirections.
--
-- Prelude: Boolean tests, lists, signed numbers and the bits of a word.
-- Memory: memory.
--   Memory.Pages: src/arch/arm64/memory/allocator.c. The record Pages has the file's static variables;
--   the functions have the names of the code. A pointer is its address, NULL is 0.
--   Memory.Heap: kmalloc and kfree of src/kernel/memory.c. The state is heap_offset.
--   Memory.Manager: the rest of src/kernel/memory.c, on top of Memory.Pages.
-- Process: processes.
--   Process.State: struct task and struct scheduler of src/include/process.h, with the two pool
--   bitmaps of src/kernel/process/process.c. A task is known by its index in g_task_pool, and all
--   tasks are one function from indices. CPU contexts are left out.
--   Process.Pool: the pools of slots and stacks, process.c.
--   Process.Scheduler: src/kernel/process/scheduler.c. Ring, Add, Reap, Keep, Cleanup, Choice and
--   Pick have the proofs, about the list of tasks that the links run through.
--   Process.Api: the process_ functions and task_find_by_pid of process.c. Create, Kill, Exclusive and
--   Tick have the proofs.
-- Fd: src/kernel/fd/fd_table.c.
--   Fd.Table: the table of descriptors, with the proofs in Alloc, Refs, Balance, Free, Clone and
--   Destroy. Fd.Calls: the calls on the current table. Files are a function from numbers; the
--   functions of a file system are values in the file, and the VFS functions are an argument.
-- Text: src/kernel/string.c on memory as a function from addresses to bytes.
-- Block: src/fs/block/block_device.c; Block.Ramdisk: src/fs/block/ramdisk.c. A driver's operations are
-- values of the device, and the RAM disk's run on the memory of Text. Disk, Multi and Registry have
-- the proofs. Block.Cache: the buffer cache of block_device.c, with the proofs in Laws and Load.
-- Shell: Shell.Parser is shell_parse_command of src/shell/core/shell_core.c and parse_command_line of
--   src/shell/parser/parser.c; strings are their bytes, and Words and Redirect have the proofs.
-- Paths: the path functions of src/fs/vfs/vfs_core.c; Laws has the proofs.
-- Ramfs: src/fs/ramfs/ramfs_core.c. A node is the number of its allocation, a directory has the list of its
--   children. Resolve is about paths, Entries has creating and removing, with the proofs in its
--   children, File the operations on an open file, with the proofs in Contents, Laws and Read,
--   Start the first files.
-- Vfs: the rest of src/fs/vfs/vfs_core.c, in front of Ramfs and of the Simple File System, whose functions
--   are an argument. Mounts has the mount table, Ops what differs between the two types, Files the
--   calls on descriptors and Names those on paths.
-- Sfs: src/fs/sfs/sfs_core.c on a device that is an interface, Device. Codec is the layout of structures in
--   bytes, Blocks the bitmap and the blocks, with the proofs in Laws, Free and Mirror, and Inodes the
--   table of inodes, with the proofs in Place and Laws. Disk makes a device of a RAM disk of Block.
-- The components meet as the code has them meet: memory_alloc asks for pages, process_create takes a
-- slot and a stack and adds the task to the queue, the cleanup in the scheduler frees stacks, and
-- fd_open, fd_close and the rest work on the table, and a block device copies with memcpy. The virtual
-- file system finds a block device by its name and calls the RAM file system.
--
-- Integers are natural numbers; the wrap of a machine word is written out (% 2 ^ 32, % 2 ^ 64) where the
-- code can reach it. A loop over a list that the code links through memory runs on fuel: the search for
-- pages on two rounds more than there are pages, the loops on the queue on one more than it has tasks,
-- the search for a descriptor on 32, the loops that look for the end of a string on any number of
-- rounds above its length, the end of a tree of files on one more than it has nodes, and the copying in
-- vfs_rename on an argument. A run that does not end is a value of its own (none, out_of_fuel),
-- and the theorems say that it does not come out, or, for one loop, that it does at every fuel.
--
-- Not modelled: assembly, device registers, page tables, CPU contexts and all text output; of the
-- rest, the directories and files of the Simple File System and its formatting, the loader, the system
-- calls, the device and driver registries, the rest of the shell and the user programs. In
-- src/arch/x86_64/memory/allocator.c the page functions are the same; its initialisation is not modelled.
pub mod Prelude
pub mod Paths
pub mod Ramfs
pub mod Sfs
pub mod Vfs
pub mod Memory
pub mod Process
pub mod Fd
pub mod Text
pub mod Block
pub mod Shell

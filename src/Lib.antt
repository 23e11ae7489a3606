-- ===== src/Lib.antt =====
-- Verification of parts of lnxrm, a small x86-64 kernel with SMP, signals and a FAT32 file system.
--
-- The parts and how they interact:
--
--   Task.antt                 the state that the scheduler and the signal code share: the task table and
--                             the per-CPU data of include/sys/sched.h and include/sys/percpu.h. A
--                             pointer to a task is its slot number, and a null pointer is `none`.
--   Sched.antt                kernel/sched.c: the run queues, `schedule` and `switch_to`
--     Sched/Tick.antt         the timer: `sched_tick`, `sched_maybe_preempt`, `sys_nanosleep`
--     Sched/Table.antt        task slots: `task_alloc_slot`, `task_free_slot`, `find_task`, `task_iter`
--   Uaccess.antt              `user_ptr_ok`, `copy_from_user`, `copy_to_user` and `copy_user_str` of
--                             kernel/task.c, with `vmm_is_user_range` of kernel/mm/vmm.c
--   Signal.antt               kernel/signal.c: `send_signal`, `do_signal_check`, `sys_sigreturn`. It
--                             changes tasks, wakes them through the scheduler's run queues, and
--                             checks user addresses by `user_ptr_ok`. The end of `syscall_entry` of
--                             kernel/syscall.c, which takes the result of a call, stands here too.
--   Files.antt                the descriptor tables and open files of kernel/fs/vfs.c, with what `sys_fork`,
--                             `sys_execve` and `sys_exit` of kernel/task.c do to them
--   Process.antt              kernel/task.c: `sys_fork`, `sys_exit` and `sys_waitpid` over the task table,
--                             with the scheduler's queues and the signals that they send
--   Syscall.antt              kernel/syscall.c: `sys_kill`, `sys_sigaction`, `sys_sigprocmask`, and the
--                             copies of the paths that a call is given
--   Vfs.antt                  kernel/fs/vfs.c: mounts, the routing of paths, `vfs_lookup`, the calls on
--                             paths and `sys_move`, over any table of file system operations
--   Console.antt              kernel/print.c and kernel/ansi.c: the text screen and the ring of characters
--     Console/Format.antt     `vsnprintf`, `putnum` and `emit`
--   Disk.antt                 the block devices of include/sys/vfs.h as an interface with laws
--   BlkCache.antt             kernel/fs/blk_cache.c: the sector cache, for any such device driver
--   Mbr.antt                  kernel/fs/mbr.c: the partition table, and partitions as block devices
--   Pmm.antt                  kernel/mm/pmm.c: the buddy allocator of physical frames
--     Pmm/Seed.antt           `pmm_init`: the region of the memory map, and the blocks of the window
--     Pmm/Frames.antt         the allocator with the blocks that it has handed out
--   Vmm.antt                  kernel/mm/vmm.c: page tables in frames of the allocator; mapping, unmapping,
--                             translating, and new address spaces
--     Vmm/Tree.antt           the tables as trees, one for each address space
--     Vmm/Brk.antt            `sys_brk` of kernel/syscall.c
--   Kheap.antt                kernel/mm/kheap.c: `kmalloc` and `kfree` over the frame allocator
--   Fat.antt                  kernel/fs/fat32/fat32.c: the cached table, and the cluster chains of
--                             fat32_file.c and fat32_meta.c
--     Fat/Mount.antt          `fat_mount`: the geometry of a volume
--     Fat/Journal.antt        kernel/fs/fat32/fat32_journal.c: transactions on the cache and its device
--     Fat/Names.antt          8.3 names, of fat32_dir.c and include/fat32_priv.h
--     Fat/Scan.antt           kernel/fs/fat32/fat32_dir.c: the scan of a directory with long names, and the
--                             resolution of paths
--       Fat/Scan/Search.antt  the search for a name, with `fat_scan_find_cb`
--       Fat/Scan/Listing.antt `fat_dir_iter`, which reads a directory by cookies
--   Str.antt                  kernel/lib/string.c: the comparisons of strings and memory
--   Base.antt                 shared names, Boolean tests, lists, machine words and linked lists
--
-- The modules below a part prove things of it; its module `Tests` has the concrete runs.
--
-- A critical section under a spin lock is one step on the state. The executing CPU is the argument
-- `me`. What a system call reads of user memory is a function from addresses, and the page walk
-- `vmm_translate_in` of the current address space is a parameter `translate` that gives 0 for an
-- unmapped page. Machine words are native numbers with the wrap-around written out.
--
-- Loops over a table have its size as fuel and cannot run out of it. A walk along a cluster chain has a
-- fuel of its own, and `none` when it runs out, as on a chain with a cycle, where the code would never
-- end; as much fuel as the chain has clusters is enough.
--
-- A scan of a directory walks its chain with fuel too. The text of a format is its own bound for the loop
-- of `vsnprintf`, 64 rounds are enough for the digits of a 64-bit number, and a path has no more
-- components than bytes.
--
-- The order of a large heap block is found within 52 rounds, since 2 ^ 52 pages are all of memory, and the
-- bin of a small one within 12. The loop of `pmm_init` has as many rounds as its window has pages, which
-- is enough since each round passes at least one page. The end of the kernel image, which the linker
-- provides, is its argument. The result of a walk of the page tables is a place in memory; what the
-- processor caches of it is not modelled.
--
-- Not modelled: the stack switch and kernel stacks, interrupt tables, the device drivers, the mapping of
-- the signal trampoline, the framebuffer and the other hardware access; and so far the copy and the
-- destruction of an address space, `sys_execve` and the ELF loader, the reading of the console, the
-- boot-time mount, the records of directory entries that create, unlink and rename change, and the reads
-- and writes of file data.
mod Base
pub mod Task
pub mod Sched
pub mod Uaccess
pub mod Signal
pub mod Str
pub mod Files
pub mod Fat
pub mod Disk
pub mod BlkCache
pub mod Mbr
pub mod Pmm
pub mod Vmm
pub mod Kheap
pub mod Process
pub mod Syscall
pub mod Console
pub mod Vfs

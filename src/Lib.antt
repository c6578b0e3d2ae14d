-- ===== src/Lib.antt =====
-- A verification library of Project-Islay, a small kernel for i686.
--
-- The parts, and the files that model them:
--   * Prelude and its children: the tests, lists, arrays, bits, integers and runs that the others share.
--     A run is an Option: `none` is a panic, a null pointer that is used, or fuel that ran out.
--   * Memory/PageFrame: kernel/memory/page_frame_allocator.c. The bitmap is a function from byte indices to
--     bytes, so that an index past the array reads and writes what follows it, as in C. The spinlock of
--     kernel/tasks/locking.c is its flag, and taking it twice is the panic of its assertion.
--   * Memory/Heap: kernel/memory/heap_allocator.c. The heap is the 32-bit word at each address, so that tags
--     and entries of the free list lie in it as in C. Memory/Heap/Segments is `internal_alloc` with the
--     segments, Memory/Heap/Free `kfree`, `kalloc` and `krealloc`. The pages come from a parameter.
--   * Memory/VirtualMemory: kernel/arch/i686/paging.c and kernel/memory/vmem_manager.c. The page tables are
--     the word at each address.
--   * Fwriter: kernel/utils/__fwriter.c. Fwriter/Format is the writer, Fwriter/Rendering the
--     text it stands for; a character device is a function on
--     its state.
--   * RingBuffer: kernel/include/ring_buffer.h.
--   * Timer: kernel/devices/timer.c. The queue is an array with a size and a capacity; `krealloc` of the heap
--     allocator, which Memory/Heap/Free models on the words of the heap, is a function on arrays here, which leaves
--     the freed array where it fails. The callbacks are parameters.
--   * Libc: kernel/utils/libc.c. Memory is a function from addresses to bytes for the memory functions;
--     a string is the list of its bytes without the final zero for the others.
--   * Fs: kernel/fs. Fs.antt holds the structures of kernel/fs/fs-internals.h and kernel/include/fs.h, with
--     indices into the static tables for pointers; a `struct fs` is known by its index, and `fs_list` lists those
--     that are registered. Fs/InodeCache is inode.c, Fs/FileTable file_table.c,
--     Fs/Registry and Fs/Mounting mounting.c, Fs/PathWalk pathwalker.c, Fs/FileOperations file_operations.c
--     and Fs/PseudoFile pseudo_file.c, where a file is known by its address. `open` is `open_file` here. A
--     file system is the record of its operations; what an operation does to its own data and to the caller's
--     buffer is not modelled.
--   * Lists: kernel/utils/list.c and kernel/include/list.h. Entries are addresses, and their links two
--     functions.
--   * Tasks: kernel/tasks. Tasks and queues are numbers, and a queue holds the list of its tasks, as the
--     operations of Lists keep it. Tasks/Queue is task_queue.c; Tasks/Scheduling and Tasks/Sleeping are the
--     parts of scheduler.c that block, unblock, choose and wake tasks, with the calls of the timer kept as a
--     list; the spinlocks of locking.c stand in Tasks.antt. Tasks/Locking is the
--     rest of locking.c, with schedules of the parts between which tasks can be switched. A failed assertion is
--     `none`.
--   * Interrupts: kernel/tasks/interrupts.c. The interrupts that fire during a bottom half are lists that the
--     handler is given, one for each bottom half.
--   * Devices: Devices/InputManager is kernel/devices/input_manager.c with its header, Devices/Keymaps
--     kernel/devices/keyboard/keymaps.c, Devices/Ps2Keyboard kernel/devices/keyboard/ps2_keyboard.c,
--     Devices/TextMode kernel/devices/display/text_mode_display.c and Devices/Tty kernel/devices/tty.c. A
--     text on a display is a function from positions to bytes, and the cells of a display are numbered from
--     its first. What a device sends to other parts is kept in lists.
-- How they interact: `open` takes a descriptor and a file object from the file table and an inode from the
-- path walker, which goes through the inode cache and the superblocks; `close` gives the inode back to the
-- cache; mounting walks a path and reads the root inode through the cache; names are compared and paths cut
-- with the functions of Libc. The theorems on the path walk and on `open` rest on those on the cache
-- (Fs/InodeCache/References). The commands of the keyboard wait in a ring buffer, and the terminal reads its
-- keys through the keymaps.
--
-- Bounds and fuel: sizes and counters of 32 and 64 bits wrap as written out at each operation. The rounds of
-- `__fwriter` are bounded by the length of the format and one, since each takes a character of it. The search
-- of the frames has a round for each word of the bitmap. `heapify`, `sift_up` and the check of the heap take
-- one unit for each entry, and the clock pulse one for each event due, as their theorems show. The loop over
-- the bottom halves takes one unit for each entry of the queue and one more. The loops over the lists of the
-- heap take a bound on the entries and one on the new segments in one allocation, which the caller gives. The
-- tokens of a path are at most its bytes. The number of `readdir` calls in one directory is a bound that the
-- caller of `pathwalk` gives, since it is up to the file system whether the offsets ever end.
--
-- Not modelled: dumps, and the targets of output; the hardware (kernel/arch, but for the page tables), the
-- bus and the VGA display; the creation, the termination and the cleanup of tasks and the context switch; the
-- file systems behind `struct fs_ops`, but for the pseudo files that devfs and kinfo use; the `getattr`
-- operation, which nothing calls.
pub mod Prelude
pub mod Memory
pub mod Timer
pub mod Libc
pub mod Fs
pub mod Devices
pub mod Fwriter
pub mod Interrupts
pub mod Lists
pub mod RingBuffer
pub mod Tasks

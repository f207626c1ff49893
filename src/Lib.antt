-- ===== src/Lib.antt =====
-- A model of parts of the exscapeOS kernel (src/kernel and src/lib), and of what they promise.
--
-- The parts, and the files that model them:
--   * CString: src/lib/string.c. A C string is the list of the bytes from a pointer to the end of its
--     object, so that a read or a write behind the object is a fault. CString/Compare, Copy and
--     Search are about the functions of these kinds.
--   * DList: src/kernel/list.c, the doubly linked lists that the tasks, the virtual memory, the
--     console and the file systems use. The model has a store of nodes and lists; DList/Chain says which
--     sequence a list in the store holds, DList/Segment cuts it in parts, and DList/Insert, Find and
--     Remove are about the operations.
--   * OrderedArray: src/kernel/ordered_array.c, the sorted array of the heap's areas, with Insert and
--     Remove below it. The order is a parameter. OrderedArray/Index counts what is in the array, in
--     whatever order.
--   * Heap: src/kernel/heap.c and src/include/kernel/heap.h, the allocator of the kernel. An area has
--     a header at its start and a footer at its end, which are given by address; the free areas and
--     those in use are in two ordered arrays. Heap/Tiles says which areas a heap has from its start
--     to its end, and what makes it well formed. Heap/Alloc is `heap_alloc` (its assertions, the
--     search for a hole, areas that are split), Heap/Free is `heap_free` (merging with the areas on
--     both sides, finding the header of a pointer, and a round trip with the allocation),
--     Heap/Kernel has `heap_create`, `kmalloc` and the allocation before there is a heap, and
--     Heap/Validate the check of an index.
--   * Pmm: src/kernel/pmm.c, the bitmap of the physical frames. Pmm/Scan is about the search for a
--     free bit, Pmm/Alloc about `pmm_alloc` and `pmm_free`, Pmm/Count about the sums of free and
--     used memory.
--   * Pipe: src/kernel/pipe.c, reading and writing a pipe's ring buffer under its lock. Pipe/Holds
--     says which bytes a buffer holds, Pipe/Chunks is about the copies, Pipe/Read and Write about the
--     two calls, Pipe/Overrun and Overread about where they go past the caller's object. Memory
--     has `memcpy`, with the bounds of both objects.
--   * Files: the descriptor tables and the reference counts of open files: src/kernel/vfs.c (`dup`,
--     `dup2`, `new_filp`, `do_close`), `pipe` and `pipe_close` of src/kernel/pipe.c, and what `fork`
--     and the end of a task do to them in src/kernel/task.c. The closing of a pipe's end is the
--     `close` of the table's entries, so that Files calls into the pipes.
--   * Time: src/kernel/time.c, reading the clock's registers and time stamps. Time/Calendar
--     describes the calendar by closed formulas, Time/Stamp compares `kern_mktime` with it, and
--     Time/Clock is about what is made of the registers.
--   * Mutex: src/kernel/mutex.c, with the accesses to the mutex as steps: a schedule says which task is
--     next. The two assertions of `mutex_unlock` and its first write are one step. Mutex/Exclusion is
--     about all schedules, Mutex/Race about those that end in a failed assertion.
--   * Tasks: the scheduler of src/kernel/task.c, with the two searches of src/kernel/list.c that it
--     makes in its ready queue. Tasks/Next is about the search for the next task, Tasks/Switch and
--     Tasks/Turns about the switches, Tasks/Wake about sleeping.
--   * Keyboard: src/kernel/keyboard.c and `getchar` of src/kernel/console.c. Keyboard/Ring is about the
--     ring buffer of keystrokes, Keyboard/Keys about the keys that arrive in it, and Keyboard/Mods about
--     the modifier keys over several keys.
--   * Mounts: `find_mountpoint_for_path` of src/kernel/vfs.c, on the strings of CString.
--   * Stdlib: src/lib/stdlib.c, numbers and their texts. Stdlib/Reverse is about `reverse`,
--     Stdlib/Decimal about `itoa` and `atoi`.
-- Prelude has what all share (Prelude/Update is a function changed at one argument), Errno the
-- results of system calls. A module Tests below a part has runs of its code on concrete inputs.
--
-- Conventions. A fault is `none`: a failed assertion, a panic, or a read or a write outside an
-- object. Integers are natural numbers; a field of a given width wraps around, with `%`, where the
-- code can reach the width. But for Mutex, which is about the locking itself, interrupt locks and
-- mutexes have no counterpart: an operation is one step, as it is under its lock. `getchar`
-- has no lock in the code, and is one step all the same. What the hardware gives (the clock's
-- registers, the boot loader's memory map) is an argument.
--
-- Fuel. Loops over an index or a count are recursions on the rounds left. The chains of DList are
-- walked on as many rounds as addresses were given out, which every chain of distinct nodes fits.
-- `strstr` has a round for each byte of its first object and moves on by a byte in each.
-- `roll_days` has a round for each day left over, and takes 28 days at least. The search of
-- `pmm_alloc_continuous` has two rounds more than there are frames, and moves on by two frames in
-- each. `heap_alloc` calls itself again after it expanded the heap: the rounds are the calls, and
-- one is enough where a free area fits. The walk of `find_area_and_validate` from a pointer down to
-- its header has as many rounds as there are addresses below the pointer.
-- `itoa` has a round for each digit and more, `reverse` one more than the string has bytes.
-- The interrupts of the timer are a list with the stack pointer and the tick count of each, those of
-- the keyboard a list of scancodes.
--
-- Not modelled: the drivers (ATA, RTL8139, PCI, the screen, the serial port), the descriptor
-- tables and interrupts of the processor, and the assembly files, which are input and output or
-- machine state. Of the heap, the trace of leaks, which prints, and the mapping of the pages behind
-- it, which is the virtual memory's. Of the tasks, waiting for a child, the task that frees dead
-- ones, and what is not the scheduler's (page directories, the FPU, the TSS). The virtual memory,
-- the file systems (ext2, FAT, initrd), the ELF loader, the network protocols and the paths; user
-- space and the patches to the tool chain.
pub mod CString
pub mod DList
pub mod Errno
pub mod Files
pub mod Heap
pub mod Keyboard
pub mod Memory
pub mod Mounts
pub mod Mutex
pub mod OrderedArray
pub mod Pipe
pub mod Pmm
pub mod Prelude
pub mod Stdlib
pub mod Tasks
pub mod Time

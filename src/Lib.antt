-- ===== src/Lib.antt =====
-- A model of the kernel fotix, a small operating system for 32-bit x86 (C, sys/ and include/), and
-- what is proved of it.
--
-- The parts. sys/common.c moves bytes and compares strings; the other parts use it. The heap of
-- sys/kheap.c keeps its holes in the ordered array of sys/ordered_array.c and gets its pages from
-- sys/paging.c, whose page tables in turn come from the heap: before there is a heap, from the
-- placement address. The ramdisk of sys/initrd.c hangs its callbacks into the nodes of the virtual
-- file system of sys/fs.c; utils/mkinit.c, a program of the host, writes the file that becomes the
-- ramdisk. The drivers for the keyboard and for the screen keep their own state. The
-- timer makes sys/task.c go round its queue of tasks, which `fork` makes longer.
--
-- Which file models what:
--   Memory                sys/common.c memcpy, memset; memory is a function from addresses to bytes,
--                         and words stand in it with the lowest byte first
--   Strings               sys/common.c strlen, strcmp, strcpy
--   OrderedArray          sys/ordered_array.c, include/ordered_array.h
--   Paging.Frames         sys/paging.c set_frame, clear_frame, test_frame, first_frame
--   Paging.Page           sys/paging.c alloc_frame, free_frame; include/paging.h page_t
--   Paging.Directory      sys/paging.c get_page; include/paging.h page_directory_t
--   Kernel                the globals that the heap and the paging share; header_t, footer_t, heap_t
--   Heap.Find, .Resize,   sys/kheap.c: find_smallest_hole; expand, contract; alloc; free;
--   .Alloc, .Free,        kmalloc_int with its callers, create_heap
--   .Kmalloc
--   Keyboard              sys/keyboard.c, include/keyboard.h
--   Monitor               sys/monitor.c
--   FileSystem            sys/fs.c, include/fs.h
--   FileSystem.Initrd     sys/initrd.c, include/initrd.h
--   RamdiskTool           utils/mkinit.c
--   Descriptor            sys/descriptor_tables.c gdt_set_gate, idt_set_gate; a table is a list, and
--                         each caller names an entry inside it
--   Descriptor.Tables     the rest of sys/descriptor_tables.c, include/descriptor_tables.h
--   Paging.Clone          sys/paging.c clone_table, clone_directory
--   Panic                 sys/common.c panic, panic_assert
--   Interrupts            sys/isr.c, sys/timer.c, sys/syscall.c, include/isr.h; sys/paging.c
--                         page_fault; the registration of the handlers
--   Boot                  sys/main.c
--   Boot.Mapping          sys/paging.c initialise_paging, switch_page_directory
--   Task                  sys/task.c, include/task.h
--   Task.Schedule         no code: the round of tasks that sys/task.c implements
--   Base                  no code: names passed on, lists, numbers, bits, the outcome of a routine
-- The other files below each of these prove what their first lines say; Tests holds runs at concrete
-- states.
--
-- How the code corresponds. A routine takes the state that it changes and gives the new state back.
-- A struct that the code addresses through pointers lies in memory at its C offsets (pages,
-- directories, headers and footers of blocks, nodes of the file system); a global is a field of a
-- record. A `u32int` is a number below 2^32 and wraps by `u32` and `sub32`; a signed comparison is
-- written out. A failed ASSERT is the outcome `halted`, since panic_assert never returns; an access
-- that C leaves undefined is `undefined`, where the code can reach it by its own values. The code
-- is a function of several names where the source has one long body; each says which part it is.
--
-- Bounds and fuel. Loops over an array or a range are recursion on the rounds that their condition
-- allows. `contract` gets 2^20 rounds, one for each page of the address space. `alloc` calls itself
-- after it has grown the heap, and the pages that it maps may need tables from `alloc` again: these
-- run on fuel, as do the loops of the string routines, which look for a NUL; strlen, strcmp and strcpy
-- are shown to end with fuel for the characters of the string. `fork` follows the queue to its end, and
-- is shown to end with fuel for the tasks of the queue. `initialise_initrd` ends with 64 rounds, since
-- a name has at most 63 characters. `move_stack` maps a page a round, three for the
-- stack of initialise_tasking. A system call that prints a string ends with fuel for its characters.
--
-- Not modelled: the assembly, with the user mode of sys/task.c, the loading of the tables and of a
-- directory, the switch of the processor's registers and the port instructions, whose output is
-- recorded; copy_page_physical of sys/process.s, which reaches memory by physical addresses, is an
-- argument; sys/elf.c, which the build leaves out and which does not compile; strcat, which evaluates
-- an expression of undefined order; the scripts of utils/.
pub mod Base
pub mod Memory
pub mod OrderedArray
pub mod Paging
pub mod Heap
pub mod Keyboard
pub mod Monitor
pub mod Descriptor
pub mod FileSystem
pub mod Task
pub mod Boot
pub mod Interrupts
pub mod Kernel
pub mod Panic
pub mod RamdiskTool
pub mod Strings

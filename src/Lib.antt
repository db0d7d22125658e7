-- ===== src/Lib.antt =====
-- The kernel of COS32: memory, paging, strings, paths, files, tasks, the keyboard and the screen, as
-- functions on explicit state, and what they guarantee.
--
-- The parts of the program, and the files that model them:
-- - The heap of src/memory/heap.c gives out runs of 4096-byte blocks, with an entry of a table for
--   each. Memory/Heap.antt has every function of it by its own name; Memory/Heap/Cells.antt reads a
--   table as a row of gaps and allocations, which Alloc, FirstFit, Exhausted and Create state their
--   theorems in.
-- - src/memory/kheap.c and src/memory/memory.c stand on it: Memory/KernelHeap.antt, with a memory
--   of bytes, in which Memory/Words.antt reads 32-bit words. The array of src/memory/array.c, which
--   is copied to a new block for each element: Memory/PointerArray.antt.
-- - The page tables of src/memory/paging/paging.c: Memory/Page.antt (rounding) and
--   Memory/Paging.antt (directories and tables in the byte memory); its faults:
--   Memory/Paging/Faults.antt, a queue by pointers and a table of handlers.
-- - src/string/string.c: Strings.antt, and Strings/Token.antt for strtok and basename. A string is the
--   list of bytes to the end of its object.
-- - src/fs/pparser.c: Fs/PathParser.antt, against the meaning of a path in Fs/PathParser/Spec.antt.
-- - src/disk/disk.c and src/disk/streamer.c: Fs/DiskStream.antt. The sectors of the drive are a
--   parameter, since the ports that deliver them are hardware.
-- - src/fs/file.c: Fs/File.antt, over path parser, strings and disk. A filesystem is a record of
--   functions on a state of its own, as `struct filesystem` is one of function pointers.
-- - src/fs/fat/fat16.c: Fs/Fat16/Private.antt (its data and streams), Clusters.antt (the allocation
--   table and reads along it), Descriptor.antt (open files), Names.antt, Directory.antt, Lookup.antt
--   (paths) and Resolve.antt, over the streams of Fs/DiskStream.antt. Packed structs are their bytes.
--   Fs/Fat16/Clusters/Content.antt says what the bytes of a file are.
-- - src/task/process.c: Processes.antt (the table, switching, and the end of a process) and
--   Processes/Arguments.antt. What it asks of tasks, video and heap is a list of calls.
-- - src/loader/formats/elf: Elf.antt (checks and program headers) and Elf/Relocation.antt, over the
--   byte memory. What loads the libraries and finds the symbols is an argument.
-- - src/loader/library.c: Libraries.antt, over the strings and the page tables. The array of the
--   sections and that of the symbols are lists, which Memory/PointerArray.antt justifies.
-- - src/video: Video/Rectangle.antt (pixels), Video/Published.antt (the table of published rectangles)
--   and Video/Screen.antt (the list of a process and its back buffer) for rectangle.c,
--   Video/Font.antt for font/font.c and Video/Terminal.antt for the terminal of video.c.
-- - src/gdt/gdt.c, src/idt/idt.c (with pit_init of src/timer/pit.c) and src/isr80h/isr80h.c:
--   Interrupts/Gdt.antt, Interrupts/Idt.antt and Interrupts/Commands.antt.
-- - src/keyboard: Keyboard/Buffer.antt and Keyboard/Special.antt (keyboard.c), Keyboard/Listener.antt
--   (listener.c and the calls at boot), Keyboard/Classic.antt and Keyboard/Interrupt.antt (classic.c).
--   What the listeners are told is a value that the handlers return.
-- - src/task/task.c: Tasks.antt, a list by pointers in a store of tasks (Tasks/Links and Tasks/Leave), a
--   scheduler (Tasks/Next) and the timer (Tasks/Wake). Its loops have fuel above the number of tasks.
--
-- Conventions, from Prelude/Outcome.antt: an `int` status is a `Result` (`err e` for -e); `Run` says
-- that a call returns, panics, or is `wild`: it touches memory outside its object, or does what C leaves
-- undefined (a position of a disk stream above an `int`, a shift by 32). Other 32-bit sums wrap where
-- the code's do (% 2 ^ 32).
--
-- Fuel: `diskstreamer_read` and `parse_parts` recurse on fuel. diskstreamer_read-bytes_from holds for
-- every fuel above the sectors touched, and `parse_from` gives the length of the path and one more,
-- which parse-meaning shows to be enough. The loops over the libraries have fuel, as those over the
-- tasks and the words of a path do. `notify_loop` of the listeners has fuel because it need not end.
--
-- Not modelled: the port protocols and assembly, which are hardware; the order of the boot; the
-- programs that run on the kernel; and, of parts that are modelled otherwise, the dynamic part of the
-- ELF loader, the loading of processes, most handlers of the system calls, the start of the video
-- mode, and the loading of a font from a file. Allocation of small objects is taken to succeed in the
-- path parser, the streamer and the file table.
pub mod Prelude
pub mod Memory
pub mod Strings
pub mod Fs
pub mod Video
pub mod Keyboard
pub mod Processes
pub mod Libraries
pub mod Elf
pub mod Interrupts
pub mod Tasks

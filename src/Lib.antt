-- ===== src/Lib.antt =====
-- A verification library for the kernel: its page allocator and heap, page tables, descriptor
-- tables, keyboard, timer, tasks, file systems, disc driver, program loader, prompt, start of paging
-- and system calls, as functions on explicit state, with the theorems that they keep.
--
-- The parts, by file:
--   Prelude, Prelude/Tests, Prelude/Lists: names, Boolean tests and list lemmas that all share.
--   Bits: bitSet, bitClear, bitTest (paging.c). A shift count is reduced modulo 32, as the x86
--   shifts do; the C text shifts by up to 255. Bits/Digits proves the laws of `&` and `|`.
--   Memory: kmemset and kmemcpy (memory.asm) over a memory of bytes, and uint32 loads and stores.
--   Paging: pageBitmap, allocPage, freePage, initHeap, kmalloc (paging.c).
--   Console: keyboard (keyboard.c), getch and getstr (input.c), which share one page; the line
--   editor that they implement is in Console/Editor.
--   Gdt: gdtSetGate and initGDT (gdt.c), which takes its task state segment from kmalloc.
--   Idt: idtSetGate, initIdt, setupIRQs, remapPIC (interrupts.c); the addresses of the assembly
--   handlers are the parameter `Handlers`. Idt/Report has interrupt and drive.
--   Timer: timerTick, initTimer and sleep (timer.c).
--   Vfs: registerRootFS, registerFS, open, read, seek, lsDir (vfs.c); a file system is the record
--   `Fs` of its functions, over a state of its own. Vfs/Steps has the calls as steps of a machine.
--   Mapping: mapPage and clonePageDirectory (paging.c), on tables in memory; Mapping/Walk holds the
--   processor's page walk, which is the specification, Mapping/Clone the loop over a directory,
--   Mapping/Duplicate the clone as a whole.
--   Tasks: initTasks, fork, switchTasks, getpid, mapTaskPage (task.c). fork is split at readEip,
--   where it returns twice. Tasks/Ring says what a ring of tasks is,
--   Tasks/Turns what a turn of it is, Tasks/Parent is fork as a whole, Tasks/Rounds many switches.
--   Ramfs: findDir, mkDir, mkFile, writeFS, readFS, openFS (ramfs.c); Ramfs/Start has listDir and
--   initramfs. Ramfs/Tree says what a path of parts names, Ramfs/Find that findDir follows it, Ramfs/Make
--   and Ramfs/MakeDir what a new file and a new directory do to the paths.
--   Syscalls: syscl (syscalls.c), over Tasks and Vfs.
--   Strings: stoi, itos, stox, itox (string.asm) over memory. Strings/Decimal has the round trip.
--   Prompt: getint (input.c), and the commands of prompt.c on the lines that are typed for them; what
--   a command prints is its answer.
--   Boot: displayMmap, generatePageTable, moveStack, startPaging (paging.c), from the map of
--   memory to the first page directory. findMemory and checkForMmap are assembly: their answers, and
--   esp and ebp, are arguments.
--   Atapi: atapiSeek and atapiRead (atapi.c) over the ports of a drive, the record `Ports` of functions
--   on a drive's state; Atapi/Directory has findFile, Atapi/Init atapiInit, Atapi/Listing the
--   directory that findFile searches, Atapi/ReadCd readCD. Atapi/Size describes the byte count that
--   atapiRead takes, Atapi/Sectors is the interface to a drive
--   that serves the sectors of a disc, Atapi/Path is findFile on it, Atapi/BootDisc open and read
--   through the mount that atapiInit makes.
--   Startup: initVFS (vfs.c), and _kmain (ckernel.c) up to its halt. Startup/Discs has what atapiInit
--   mounts, over any state that holds a disc.
--   Elf: the headers, the pages and the writes of loadELF (elf.c); Elf/Load has loadELF as a whole,
--   loadBin and exec. The writes through a program's own addresses are a list
--   of `UserWrite`, in their order; Elf/Image says what they leave behind.
--
-- Numbers are natural numbers; a uint32 or uint8 result is reduced modulo 2 ^ 32 or 256 where the
-- code can leave its range. Memory is a function from addresses to bytes. Output on the screen is
-- left out, but for the characters that the keyboard echoes, what the prompt's commands print,
-- the report of an exception and the listing of readCD.
--
-- Loops without a bound run on fuel. The scan of allocPage has 32 * 1024 + 1 rounds: each moves on by
-- a bit at least, the map has 32 * 1024 of them, and one round leaves it. getstr has as many rounds as
-- its page has bytes, since each reads the next byte. The loops that wait for an interrupt are given
-- the interrupts that come: Console.keys takes a list of scan codes, Timer.sleep a list of counts of
-- ticks. A poll of a drive's status register has a number of reads that Atapi.poll_fuel names.
--
-- The walks along linked lists of Tasks and Ramfs run on fuel that their callers give: a round for
-- each entry of the list is enough. The copy loops run on their own counts.
--
-- Texts in Vfs, Ramfs and Atapi are C strings without their terminator; strlen of string.asm counts
-- from the second byte on, so a name is not empty.
--
-- Not modelled: the assembly files, but for kmemset, kmemcpy, strcmp, stoi, itos, stox and itox; the
-- fixed messages on the screen; what _kmain has behind the instruction that halts it; the heap
-- blocks that the functions of Vfs take themselves, which Startup accounts for; what the copies of
-- a name or a path write behind the block or array that is taken for them, the 25 bytes of
-- findDir's dirName included; the registers that the compiler uses between two asm statements;
-- multiboot.h, which is the boot loader's; kernel.c, which nothing calls.
pub mod Prelude
pub mod Bits
pub mod Memory
pub mod Paging
pub mod Console
pub mod Gdt
pub mod Idt
pub mod Timer
pub mod Vfs
pub mod Strings
pub mod Mapping
pub mod Tasks
pub mod Ramfs
pub mod Syscalls
pub mod Prompt
pub mod Boot
pub mod Atapi
pub mod Elf
pub mod Startup

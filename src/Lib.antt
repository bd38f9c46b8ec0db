-- ===== src/Lib.antt =====
-- The kernel of PonyOS (student-distrib/) as definitions and theorems: a teaching kernel for 32-bit
-- x86 with a read-only file system in memory, paging, three text terminals, a real-time clock and
-- eight system calls on files and processes.
--
-- The parts and their files:
--
-- - Base: tests, lists, integers and the ways in which a call ends. `Outcome` tells a call that
--   returns from one that waits for an interrupt, one that faults, and one whose scan does not end.
-- - Memory, Memory/Copy, Memory/Set: memory as bytes at physical addresses, with loads, stores, memcpy
--   and memset at virtual addresses. `translate` maps the 4 MB page of the current task, and other
--   addresses to themselves; Paging/Translation relates it to the page tables.
-- - Strings, Strings/Names: strlen and strncmp of student-distrib/lib.c, and strings in memory.
-- - FileSystem: student-distrib/fileSystem.c. Lookups read names from memory as the source does;
--   FileSystem/Data is about read_data, FileSystem/Lookup about read_dentry_by_name, FileSystem/Dir
--   about dir_read.
-- - Paging: student-distrib/paging.c, with Paging/Loops for its loops and Paging/Translation for the
--   address map that the tables make.
-- - Screen: the text screen of student-distrib/lib.c, with Screen/Cells for the loops over character
--   cells, Screen/Cursor for printing and Screen/Switch for the change between terminals.
-- - Terminal, Terminal/Io: the line buffers of student-distrib/keyboard.c, terminal_write and
--   terminal_read.
-- - Rtc, Rtc/Frequency: student-distrib/rtc.c. Pic, Pic/Masks: student-distrib/i8259.c.
-- - Process, Process/Slots: the process table of student-distrib/systemcall.c, and the state of the
--   kernel that its functions change. SystemCall, SystemCall/Files: the system calls on files.
-- - Scheduler, Scheduler/Fairness, Scheduler/Liveness: student-distrib/pit.c, the timer that switches
--   between the processes.
-- - Execute, Execute/Args, Execute/Parent: execute and halt of student-distrib/systemcall.c, from the
--   command to the switch to user mode, and back to the parent.
-- - Keyboard, Keyboard/Tables, Keyboard/Convert: the scan codes of student-distrib/keyboard.c and the
--   tables of student-distrib/scancode.c.
-- - Keyboard/Line, Keyboard/Codes, Keyboard/ReadLine: the line of the displayed terminal as a list of
--   characters, from the keyboard's interrupt to the process that reads it; Terminal/Read is the end
--   of that way.
-- - Digits, Digits/Reverse, Digits/Value, Digits/RoundTrip: itoa and strrev of student-distrib/lib.c,
--   and of syscalls/ece391support.c.
-- - Console, Console/Rows: putc, puts and printf of student-distrib/lib.c, with the cursor that the
--   kernel's own messages use.
-- - Interrupts, Interrupts/Vectors, Interrupts/Exceptions: the interrupt descriptor table and the
--   handlers of student-distrib/idt.c.
-- - Memory/Blocks, Memory/Move: the assembly loops of memset, memcpy and memmove against the copy byte
--   after byte. Strings/Copies: strcpy and strncpy.
-- - UserLibrary, UserLibrary/Compare: the string functions of syscalls/ece391support.c.
-- - SystemCall/Reading, SystemCall/Writing: a read through a descriptor, down to the blocks of the
--   file, and a write on the standard output; UserLibrary/Print follows a program's string there.
-- - Boot, Boot/Ready: the segment descriptors and the init functions of student-distrib/kernel.c.
-- - Dispatch: the check and the jump table of student-distrib/interrupt_handler_wrapper.S.
-- - Programs: user programs as sequences of system calls. Programs/Cat, Programs/Cat/Reading and
--   Programs/Cat/Loop are about syscalls/ece391cat.c, from the file on disk to the screen;
--   Screen/Printing and FileSystem/Kept say what printing and reading leave alone. Programs/Ls with the
--   files below it is about syscalls/ece391ls.c, through SystemCall/Listing; Programs/Grep is
--   syscalls/ece391grep.c, Programs/Hello syscalls/ece391hello.c and ece391counter.c. Programs/Errors and
--   the files below it are about the tests of syscalls/ece391syserr.c; FileSystem/Entries and
--   SystemCall/Refused are lemmas for them.
-- - Terminal/Stale: a write between the entry of a line and the read of it.
-- - Boot/Information: what student-distrib/kernel.c prints of the boot loader's information, with the list
--   of modules of which the first one is the file system.
--
-- Numbers are natural numbers with the wrap-around of 32 bits written out; an int32_t is its bit
-- pattern where the source mixes it with unsigned numbers, and an integer where it is a result.
--
-- Bounds and fuel. strlen looks at 2 ^ 32 bytes, the whole address space, before it gives up. The
-- loop of read_data runs on the length that is left, of which each round copies a byte at least. The
-- scroll loop has two rounds; one is enough, as its first round puts the cursor on the screen. The
-- loops of rtc.c run on the frequency, which they halve. The loop of pit_handler has eight rounds, in
-- which it comes back to the process it started from. The loop of itoa has 32 rounds, as many as a
-- number of 32 bits has digits from the radix 2 on; that of strrev has as many as the string has
-- characters. The loops of puts, strcpy and strcmp look at 2 ^ 32 bytes, as strlen does.
--
-- The loop of cat has one round for each 1024 bytes of the file and one more, that of ls one for each
-- entry and one more; from a device that does not end they would read on for ever, so their fuel is an
-- argument, as is that of the loops of grep that read. The loop of grep over the lines of a chunk has
-- 1025 rounds, as a chunk has 1024 bytes at most and each round passes one. The loops over the boot
-- loader's modules and memory map have 2 ^ 32 rounds, as many as their counters have values.
--
-- Not modelled: the register saves of the assembly wrappers, the kernel's own tests, the programs of
-- syscalls/ that are not named above, and fish/. The reload of the page table registers has no
-- counterpart, since the walk reads the tables as they are. The processor's flags are not part
-- of the state but for the interrupt flag of the exception handlers.
pub mod Base
pub mod Memory
pub mod Strings
pub mod FileSystem
pub mod Paging
pub mod Screen
pub mod Terminal
pub mod Rtc
pub mod Pic
pub mod Process
pub mod SystemCall
pub mod Scheduler
pub mod Execute
pub mod Keyboard
pub mod Digits
pub mod Console
pub mod Dispatch
pub mod Programs
pub mod Boot
pub mod UserLibrary
pub mod Interrupts

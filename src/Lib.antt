-- ===== src/Lib.antt =====
-- Verification of simple_os, a small message-passing kernel for 32-bit x86. The library follows
-- the parts of the kernel; each definition is the translation of a function, a record or a
-- constant of the C sources and keeps its name.
--
-- A process talks to another one only by messages: `msg_send` and `msg_receive` of process.c copy
-- the message when both are ready and otherwise block the caller and choose another process. The
-- tables that they work on are in Kernel, the two operations in Ipc. The memory is handed out in
-- blocks of 512 KB by mm/mm.c (Allocator), which also makes and ends processes (Lifecycle); an
-- address of a process becomes a physical one through the base of its segment descriptor
-- (Kernel.Segment). The keyboard interrupt stores scan codes in a ring (Ring), which
-- tty/keyboard.c turns into keys (Keyboard). What the terminals show is text in the memory of the
-- video card, written by tty/console.c (Console) for the terminals of tty/tty.c (Tty).
--
-- - Base: Boolean tests and the conditional on native numbers, lists as C arrays, the bits of
--   words, and the pigeonhole principle.
--
-- - Allocator (mm/mm.c, `find_free_area` to `free_mem`): `memory_used` is a number of 32 bits, a
--   block is a bit of it, the null pointer is 0. FreeArea is about the search, Blocks about
--   allocation and release.
--
-- - Kernel (include/process.h, process.c): `Message`, `Process` and `Kernel`, the state of the
--   process table, of the memory at the granularity of messages, and of the process that runs
--   next; with the monad in which the operations run. An operation ends with a result, a failed
--   assertion (`panic`), an access outside the table (`fault`) or without fuel; the code of a
--   process also stops where its system call blocks it (`blocks`).
--
-- - Kernel.Segment (include/protect.h, and `ldt_seg_linear` of process.c): descriptors, the way
--   their bytes are filled and how base and limit are read back.
--
-- - Ipc (process.c, `deadlock` to `msg_receive`): every branch and every assertion. A pointer
--   into `proc_table` is an index, a null pointer is `none`. Deadlock and Schedule show that the
--   loops end, Queue, Enqueued, Unlink and Dequeued follow the queue of senders of a process
--   through both operations, MsgSend, MsgReceive and Waiting are about the two operations.
--
-- - InitProc (process.c, `init_proc`; start.c, `kernel_main`): the process table at the start.
--   What the linker and the boot code give is the record `Image`. Entry is about one entry of
--   the table, Start about the whole.
--
-- - Syscall (syscall.c, `send_recv` of process.c, systask.c, clock.c): the trap `sendrec` and
--   the calls made from it. Source is about the sender that the kernel writes into a message,
--   Ticks follows `get_ticks` through the task that answers it.
--
-- - Stdio (io/k_stdio.c): numbers as text and formats. A negative `int` is given by its
--   magnitude. Digits and Swaps are about the two loops of `s32_itoa`, Itoa about the whole,
--   Format about `s32_vsprintf` and `s32_sprintf`. Screen holds the functions that write text
--   straight into the memory of the screen.
--
-- - Lifecycle (mm/mm.c, `do_fork` to `do_wait`; syscall.c, `fork`, `exit`, `wait`): what the
--   task TASK_MM does with the request that it has received. Fork holds `do_fork`, the other
--   calls are in Lifecycle itself. Sent is about the task's answers and `cleanup`, Orphans about
--   the loops over the process table, Exit, Wait and Family about `do_exit` and `do_wait`, Slot
--   and Forked about `do_fork`. Exec is `do_execl`, which uses RomFs, Allocator, Storage and
--   Elf, and Task is the round of `task_mm` (systask.c) that calls all of these.
--
-- - Loader (kernel_loader/kernel_loader.c): the program that the boot sector starts, as compiled
--   without LOAD_FS. `Bios` is `int $0x13`, a parameter, and Disk states what it promises. Fat
--   is about the file allocation table, Copy and Load about the file in memory, Directory holds
--   the search for the kernel and `start_c`, Search and Found are about that search, and Boot
--   about the whole.
--
-- - Elf (kernel_loader/protected_code.c, include/elf.h): the loop over the program headers, for
--   any function that copies and any placement of the addresses; Copying states what such a
--   function has to satisfy. Image says when a file in memory is in order, and what the notes
--   that the kernel loader writes on the screen while it copies may change; Segments follows the
--   loop, Protected is about `copy_elf_code` with its notes. Sections holds `get_kernel_info`
--   (k_stdlib.c), and Info is about it.
--
-- - Storage (storage.c, fs/vfs.c): the tables of devices and file systems, and the device that
--   reads from memory.
--
-- - RomFs (fs/romfs.c, include/romfs.h, include/endian.h): an image is the list of its bytes.
--   Order is about the byte order, Walk about the search of `romfs_namei`, Content about
--   `romfs_get_daddr`.
--
-- - Drawing (vga/draw_func.c): the graphic screen is the memory at each address, and an image or
--   a font is a function from an index to a byte. Glyph is about the characters of 8x16 pixels.
--
-- - Interrupts (start.c, `init_idt_by_c`, `init_8259a`, `init_timer`): the gates of the
--   interrupt descriptor table, as a function of the vector, and the bytes written to ports.
--   Gates is about where they lead and who may use them.
--
-- - Ring (include/keyboard.h, tty/keyboard.c): a ring buffer of any capacity; Window relates it
--   to the list of what it holds.
--
-- - Keyboard (tty/keyboard.c): Buffer is about the scan codes that wait, Modifiers about shift
--   and caps lock, Typing about the keys that `parse_scan_code` reports.
--
-- - Strings (include/k_string.h): a string is the list of its bytes, which the first 0 ends.
--   Laws relates the functions to the text before that.
--
-- - Tty (tty/tty.c): `Terminals` are the terminals, the consoles and the video card. Input is
--   the task's use of the keyboard: `keyboard_read` and `switch_mode` (tty/keyboard.c) and the
--   round of `task_tty`. Echo and Typewriter are about the keys that wait for their echo, Shown
--   about what is printed on a console, Stored about keys that are stored, Select about
--   `select_tty`, Reading and Switching about `keyboard_read`.
--
-- - Console (tty/console.c): `Video` is the memory at each address and the list of bytes written
--   to ports. Window bounds the addresses that a text console writes, Printing says what it
--   shows, Pen describes it as a page that a pen writes, and Clear is `clear_console`.
--
-- Machine words are natural numbers whose wrap-around is written out as a remainder. The loops of
-- process.c that follow pointers run on a number of rounds: `deadlock` and `schedule` need at
-- most one for each of the 35 entries of the process table and one more, which is proved, and the
-- walk along a queue needs one more than the queue is long. The two loops of `s32_itoa` run for
-- 32 rounds, which is enough for the digits of a 32-bit number in any radix. The walk of
-- `romfs_namei` needs a round for each entry that it passes. The loader needs a round for each
-- cluster of the kernel behind the first and one more, and the loop over program headers one for
-- each header and one more; both are proved.
--
-- A process that blocks is not switched away from inside `block`: the code after it runs on, and
-- the switch happens at the return from the interrupt. So one call of `msg_send` or `msg_receive`
-- is one step on the kernel state, as it is with interrupts disabled.
--
-- Not modelled are the assembly code (the context switch, the entry points, mode changes), the
-- hardware behind the ports, what the kernel prints for debugging elsewhere than in
-- `copy_elf_code`, `put_key` and `task_tty`, the drawing on the graphic console, which is an
-- argument of the functions of the consoles and terminals, and the parts that are not named here,
-- such as the initialisation of devices and file systems. Setting the mode of the VGA card and
-- the picture that F6 shows are arguments, too. The output of the kernel loader and its waits for
-- a key are left out. Memory is seen in two ways that do not meet: as messages by address, and
-- for file content and programs as bytes.
pub mod Base
pub mod Allocator
pub mod Kernel
pub mod Ipc
pub mod Ring
pub mod Keyboard
pub mod Console
pub mod Tty
pub mod Strings
pub mod InitProc
pub mod Syscall
pub mod Lifecycle
pub mod RomFs
pub mod Interrupts
pub mod Drawing
pub mod Storage
pub mod Elf
pub mod Loader
pub mod Stdio

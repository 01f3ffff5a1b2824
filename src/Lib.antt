-- ===== src/Lib.antt =====
-- A model of a teaching kernel for RISC-V (Sv39): processes, locks, mailboxes, memory, traps, the file
-- system, the network, the screen and strings.
--
-- The program keeps its state in global variables, and every entry into the kernel takes a big kernel
-- lock (arch/riscv/kernel/entry.S), so that the operations run one after the other; one hart is
-- modelled. An operation is a function on the record Kernel of State, which holds the process control
-- blocks, locks, barriers and condition variables, the page maps, the memory's words and the disk. An
-- operation that can loop for ever gives an Option, and `none` stands for the loop that goes on.
--
-- - Base: Boolean tests, lists measured by native numbers, C arrays as functions, `int` as a bit pattern.
-- - Links (include/os/list.h): the list macros LIST_ADD_HEAD, LIST_ADD_TAIL, LIST_REMOVE and
--   NODE_REFRESH as sequences of assignments to a store of `next` and `prev` fields. Chain is one circular
--   list; Queues and Moves relate the store to all the abstract lists of the kernel at once.
-- - State (include/os/sched.h, include/os/lock.h, include/os/mm.h): the data. A task's list node is the
--   number of the task (pcb[0..15], pid0_pcb[0..1]), list heads have numbers from 100 on.
-- - Sched (kernel/sched/sched.c, kernel/sched/time.c): do_scheduler, do_block, do_unblock, do_sleep,
--   do_waitpid, check_sleeping. Inv is the invariant: a running task is on no list, a ready one on the
--   ready queue, a blocked one on another list, an exited one on none. The clock is a function that gives
--   the value of each read.
-- - Proc (kernel/sched/sched.c): do_kill, do_kill_all, do_exit, do_getpid, get_child_thread_num.
-- - Lock (kernel/locking/lock.c): mutex locks, barriers and condition variables. They use Sched to block
--   and wake tasks; Proc uses do_release_locks.
-- - Pgtable (arch/riscv/include/pgtable.h): addresses and page table entries.
-- - Mm (kernel/mm/mm.c): allocPage, allocPagetable, choose_swap, swap_out, swap_in, page_in_swap,
--   freeProcessMem, alloc_page_helper, get_pte,
--   init_mm, share_pgtable. The firmware's disk is the parameter Sd, and SdLaws says
--   what the code relies on.
-- - Cstring (libs/string.c): the string functions over a memory of bytes.
-- - Libc (tiny_libc/atoi.c, rand.c and strrev of string.c): number conversion, random numbers and reversal for user
--   programs.
-- - Screen (drivers/screen.c): the two screen buffers, the cursor and what is sent to the terminal.
-- - Mailbox (kernel/locking/lock.c): the mailboxes, on the record Mail, which adds the boxes and the bytes of
--   each address space to the kernel. Waiters walks the tasks that wait, Fifo is the queue of a box's bytes.
-- - Fs (kernel/fs/fs.c, include/os/fs.h): the file system on the record Fs, which holds its global variables,
--   the memory at TEMP and TEMP4, and the disk. Layout has the data and what is stored where, Paths and Names
--   split_path and seperate_parent, Lookup and Walk parse_path, Setup do_mkfs, do_statfs, init_fs and do_cd,
--   Directory do_mkdir, do_rmdir and do_ls, Files do_open, do_close, do_lseek and do_ln, Read do_read, Write
--   do_write, Remove do_rm, and Parents the loops over the parents of a file. The firmware's disk is the
--   parameter Sd, and SdLaws in Format says what the code relies on. A string is the list of its characters; an
--   inode number or block number -1 is the pattern of all ones, and an array has some value there.
-- - Nic (drivers/e1000.c, drivers/e1000.h): the rings of the network card. What the card does by itself happens
--   between two calls. Net (kernel/net/net.c): do_net_send, do_net_recv and the handlers of its interrupt.
-- - Irq (kernel/irq/irq.c): the tables of handlers, their dispatch, the page faults, the timer and the card. The
--   system calls' table is a parameter.
-- - Tests: a small machine and the theorems applied to it.
--
-- Bounds and fuel. A walk over a list of tasks gets 19 rounds (walk_fuel): a list without repetitions of
-- 18 tasks has at most 18 nodes, and the last round sees its end. The clock of choose_swap gets two turns
-- over the 8192 pages: the first may clear access flags, and the second finds the page. A string walk takes
-- its fuel as an argument, and the theorems need one round more than the string is long. An `int` is its
-- bit pattern below 2 ^ 32 and wraps around; sums of 64-bit values are taken modulo 2 ^ 64.
--
-- parse_path gets a round for each character of the path and one more; the loops of do_read and do_write
-- behind the direct blocks a round for each byte; the loop over a file's parents 2048 rounds, one for each
-- inode: a chain of different inodes is not longer, and one with a cycle ends with no number of rounds.
-- do_read and do_write have no result for a negative offset or length, do_mbox_open none for a new name
-- that does not fit into its 32 bytes.
--
-- Not modelled: formatted output (libs/printk.c, another author's), the interrupt controller's driver, the
-- loader, the creation of processes, the rest of the user library, start-up and assembly. The saved registers
-- of a task, messages on the screen, TLB flushes and the contents of the code of a task are left out, and so is
-- what a packet longer than its buffer leaves behind the last buffer of the ring.
pub mod Base
pub mod Libc
pub mod Links
pub mod State
pub mod Pgtable
pub mod Mm
pub mod Sched
pub mod Proc
pub mod Lock
pub mod Cstring
pub mod Screen
pub mod Fs
pub mod Nic
pub mod Net
pub mod Irq
pub mod Mailbox
pub mod Tests

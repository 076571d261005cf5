-- ===== src/Lib.antt =====
-- MKS, a micro kernel for study: messages between processes, the scheduler, the clock, the memory,
-- the keyboard and the text output of the kernel.
--
-- Parts and files. Paths are from the root of the repository.
--   Linked: the singly linked queues that kernel/messaging.c and kernel/proc.c share; Chain ties a
--     queue's pointers to a list, Unlink, Append and Turn say what its operations do to that list,
--     Family treats several queues over one link field.
--   Messaging: kernel/messaging.c. Store has the fields of `struct msg_struct`, the memory of the
--     callers and the interface Services to the rest of the kernel; Queues has the four queues and
--     `msg_init`; Small has `small_send` and `small_receive`; Big has `big_send`, `big_receive` and
--     `do_intr_msg`. Failure has the calls that answer -1. Lists is the same calls over
--     four lists, with the conditions and writes of the code; Spec says over lists in words of its own
--     who may call, who is served, when a call is refused and what is written, and Spec/Conditions and
--     Spec/Agrees compare the two. Rep and Refine relate the pointers and the lists, Start has the
--     initial state, Kernel gives Services by the scheduler and the memory below.
--   Proc: kernel/proc.c. Table has the process table and `add_running_proc`, Schedule has `schedule`.
--     Plan says over lists what `schedule` is to do; Sound is the invariant of table and queues;
--     AddRunning, AddAll, Dispatch, Switch, Requeue, Outcome, Refine and Dropped have the proofs.
--     Proc/Start has `proc_init`, Ready and Segments what it leaves for the scheduler and the processor,
--     Kernel the pages that it shares.
--   Descriptors: the macros of include/asm/system.h that fill descriptors; Fields reads them back.
--   Interrupt: kernel/interrupt.c, `intr_init` and, in Handlers, the handlers as steps of one machine;
--     Gates and Dispatch say where a vector leads, Kept has the invariant of the machine, Reach the
--     states that interrupts lead to.
--   Boot: kernel/main.c, which calls all initialisations; Pages has the free pages, Order the
--     state at the end, Return that it is reached from what the boot code leaves, UserMode the change
--     of process 0 to user mode.
--   Time: kernel/time.c, with `kernel_mktime`, `time_init` and `do_intr_clock`. It calls `schedule`.
--     Kept has the interrupt in user mode and in the kernel.
--   Memory: kernel/memory.c; Fault has the page faults and the shared pages, Free and Page
--     the pages that are given out, Shared and Table the kernel's pages for a process,
--     Copy a write to a shared page, Share the page of a big message, NoPage a page that is absent.
--   Keyboard: driver/character/keyboard.c, with the key map of keyboard.h in Keymap.
--   Printk: kernel/printk.c, with what its text does to the cursor in Cursor and to the screen memory in
--     Cells, and the numerals in Numbers.
--   User: lib/message.c, the calls of a process, and the entry of kernel/asm.s by which they reach
--     `do_intr_msg`; Entry has the page of a big message, Meeting, Queued and Delivery a message
--     from one process to another, PageMeeting, PageDelivery and PageKernel a page; Tasks has the loop
--     of system_task/system.c and the stub of lib/fork.c.
--   System: the kernel while it runs. Reach has its state, the processes and the memory that messages and
--     interrupts share, and its steps; Message is the interrupt for messages with the scheduler and the
--     memory of this kernel, Calls and Settled its four calls, Tick the interrupt of the clock, Start the
--     state that `main` leaves. Calm is the invariant between the calls, with Sleep and
--     Wake for those who wait, and States, Runs and Taken say
--     what the assignments of a state, the scheduler and a search do to it.
--   Base: shared names, words of 32 bits, tests, lists and memory as functions.
--
-- How the state stands. A pointer is a number and a field of a struct is a function of its address;
-- structs of different types, and the memory that a `long *` of a caller reads, do not overlap. A
-- `long` is its 32-bit pattern. Physical memory is mapped to itself, so that the memory of
-- kernel/memory.c is a function of the physical address. Values sent to ports are a list. A call of
-- `schedule` in a message call is one step: the caller has its result when it is next switched to,
-- and the code reads nothing of the queues after that.
--
-- The kernel stacks of the processes are a parameter of System: a function `owner` gives for an address
-- the number of the process on whose stack it lies, and any number from 64 on elsewhere. A process
-- raises the interrupt for messages with its struct on its own stack, and process 0, which only loops,
-- raises none.
--
-- An interrupt is one step from its entry to its return: that most gates leave interrupts on, so that one
-- handler can be interrupted by another, is not modelled. The type of a process is compared as an
-- unsigned number; it is from 1 to 3 where the process table is in order.
--
-- Bounds and fuel. A loop along a message queue has a number of rounds as its argument, and the
-- theorems ask for more rounds than a queue has structs. A ready queue is walked with 65 rounds: it
-- has at most 64 processes. `get_free_page` and `create_page_table` call each other at most 17 times
-- deep, as each call holds back one of 16 pages. The loops that repeat a page fault have two rounds,
-- since a call that leaves the entry absent leaves it so each time. `write_char` and `con_init` call
-- each other twice at most. `none` is the end of the fuel or a loop without end, or, in the keyboard
-- and the clock, a read past a table.
--
-- Not modelled: the boot code and kernel/asm.s but for the numbers that its entries push and for
-- `intr_msg`, which are assembly; the inline assembly of include/asm for ports, and that of
-- `switch_to` but for its effect on `proc_current`; `invalidate`, which reloads a register;
-- lib/errno.c, a variable that nothing uses; init_proc/init.c and `idle`, which loop for ever.
-- The screen, the clock and the interrupt table each have their own list of the values sent to ports.
-- Of the struct of a process only the fields are there that the functions set or read.
pub mod Base
pub mod Linked
pub mod Descriptors
pub mod Messaging
pub mod Proc
pub mod Time
pub mod Memory
pub mod Keyboard
pub mod Printk
pub mod Interrupt
pub mod Boot
pub mod User
pub mod System

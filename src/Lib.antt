-- ===== src/Lib.antt =====
-- Demand paging and its neighbours in the Xinu kernel of xinu-fall2022-paging.
--
-- A page fault (system/pgfhandler.c) of a process at an address that its virtual heap allocated is
-- served from three regions of physical frames, which system/framemgmt.c keeps: D holds page tables
-- and directories, E1 holds the pages in use, E2 the pages that were moved out. When E1 is full the
-- page that has been there for the longest time moves to E2; when both are full the process waits
-- in a circular queue (system/frameblock.c), or, if its page is in E2, changes it for one of E1.
-- When a process gives memory back (system/vmhfreemem.c) or ends (system/kill.c), `framewakeup` makes
-- the waiting processes ready. The scheduler (system/resched.c) keeps the ready processes in a queue
-- by priority; semaphores, messages and the clock use queues of the same table and call `ready`
-- and `resched`. The kernel's own memory comes from a list of free blocks (system/getmem.c, freemem.c,
-- getstk.c), the buffers of packets from pools (system/getbuf.c). Around the kernel are the driver of
-- the console (device/tty), whose interrupt handler puts typed characters into a circular buffer and
-- signals a semaphore on which readers wait, the endpoints of UDP (net/udp.c), whose queues hold
-- packets for the processes that wait for them, and the lexer of the shell (shell/lexan.c).
--
-- Files, with the code of xinu-fall2022-paging/ that they model:
--   Base        shared names: tests into Bool, updates of arrays, loops, lists without repetition,
--               integers over the native numbers. The child Ring has circular buffers as lists.
--   Frames      system/framemgmt.c, include/paging.h. `FrameTable` has its global variables;
--               `remove_from_used_ll`, `insert_to_used_ll`, `fidxtoregion`, `init_invpt`,
--               `hasfreeframe`, `getfreeframe`, `get_used_frame_e1`, `invtakeframe` and
--               `invfreeframe` are its functions, each from a state to a result and a state.
--               Children: Seg and UsedList (the linked list), Stacks (the stacks of free frames),
--               Valid (well-formedness and each operation), Limit (the bound of `invtakeframe`).
--   Memory      the entries `pd_t` and `pt_t` of include/paging.h, and the loops over pages.
--   Kernel      include/process.h, include/memory.h: the process table and the other globals.
--   Paging      system/pagingidx.c, system/pagingmgmt.c, system/init_paging.c. Children: Fault
--               (system/pgfutil.c), Handler (system/pgfhandler.c), and for the proofs Map, Evict,
--               Restore, RoundTrip, Swap, Fresh and Tables.
--   FrameBlock  system/frameblock.c: the queue and `frameblock` up to the call of `resched`. Children:
--               Wakeup (`framewakeup`), and for the proofs Fifo and Liveness.
--   Queues      include/queue.h, system/queue.c, system/getitem.c, system/newqueue.c. Children:
--               Ordered (system/insert.c, system/insertd.c), and for the proofs Chain (a queue as a
--               list), Fifo, Others and Untouched (what an operation leaves alone), Placed (an entry
--               between two others), Sorted and Insert (descending keys), Delta, Delays and Insertd
--               (delta lists).
--   System      the state of the process manager: `System` has the paging kernel, the queues, `Defer`
--               of include/resched.h, the semaphores of include/semaphore.h, the variables of the
--               clock and of the process table, and the kernel's heap.
--   Sched       system/ready.c, resched.c, yield.c, suspend.c, resume.c, chprio.c and getprio.c.
--               Children: Clock (system/sleep.c, unsleep.c, wakeup.c, clkhandler.c), and for the
--               proofs Order (the ready list), Resched, Ready, Released and Deferred (several processes
--               that are made ready under deferral) and Elsewhere (what scheduling leaves alone).
--   Semaphores  system/wait.c, signal.c, signaln.c, semcount.c, semcreate.c, semdelete.c, semreset.c.
--               Children for the proofs: Balance and Join (the count and the queue), Wait, Signal, Create,
--               Counted (a semaphore on which nobody waits).
--   Messages    system/send.c, receive.c, recvclr.c, recvtime.c; the child Delivery has the proofs.
--   Allocator   system/getmem.c, freemem.c, getstk.c, `meminit` of system/meminit.c, and `freestk` of
--               include/memory.h. Children for the proofs: Blocks (lists of blocks and the bytes
--               they cover), FreeList (the free list as such a list), Links, Taken and Found (a
--               block is taken), Get, Joined and Freed (a block is put back), Release, RoundTrip,
--               LastFit and Top (stacks), Start.
--   Processes   system/create.c and kill.c, as far as the process table goes.
--   Ports       include/ports.h, system/ptinit.c, ptcreate.c, ptsend.c, ptrecv.c; the child Clear has
--               system/ptclear.c, ptreset.c, ptdelete.c and ptcount.c.
--   Buffers     include/bufpool.h, system/bufinit.c, mkbufpool.c, getbuf.c and freebuf.c.
--   Dates       include/date.h, system/ascdate.c; the child Calendar has the proofs.
--   VirtualHeap system/vmhinit.c, system/vmhgetmem.c: a process's virtual heap. Children: Release
--               (system/vmhfreemem.c), Free (the free list as a list of blocks), Found and Split (the
--               two ways to find a block), Get and Covers (the proofs for `vmhgetmem`).
--   Udp         include/udp.h, net/udp.c without the functions that send: `udp_init`, `udp_in` and
--               `udp_register`. Children: Receive (`udp_recv`, `udp_recvaddr`, `udp_release`, `udp_ntoh`,
--               `udp_hton`), and for the proofs Fifo (the queue of packets), Slots and Register.
--   Lexan       shell/lexan.c, with the constants of include/shell.h. Children for the proofs: Bounds,
--               RoundTrip.
--   Terminal    include/tty.h, and the parts of `erase1`, `echoch` and `eputc` of device/tty/ttyhandle_in.c.
--               Children: Input (`ttyhandle_in`), Output (ttyinit.c, ttygetc.c, ttyputc.c,
--               ttyhandle_out.c, ttycontrol.c), and for the proofs Ring (the buffer with the line that
--               is typed), Typed, Erased, Editing, Reading, Wrapped (what leaves the buffer).
--   Tests       concrete states, and the theorems applied to them.
--
-- Representation. The inverted page table is keyed by frame number: `invpt[INIDX(f)]` is `invpt f`,
-- a `frame_t *` is a frame number, NULL and the SYSERR of a function that returns a frame are
-- `none`. An `int16` is its bit pattern, so that negative numbers are those from 2^15 on, but for the
-- indices of the queue table, whose only negative value, EMPTY, is `none`. Physical
-- memory is seen frame by frame, by three views (directory entries, table entries, bytes), of which
-- a frame uses one at a time: directories and tables are in D, bytes in E1 and E2. The functions
-- run with interrupts disabled, one at a time; the macros that log are empty in the kernel's
-- configuration. What the code does on frame numbers outside 1024..4095, which name memory outside
-- the table, is not described.
--
-- Scheduling. `resched` goes up to the context switch: in the state that it leaves, the chosen process
-- runs. A function that returns after it goes on when its process is chosen again; where it still does
-- something then, it is two functions (`receive`, `recvtime`, `ptsend`, `ptrecv`,
-- `getbuf`, `udp_recv`) or three (`kill`,
-- `_ptclear`), each on the state at its beginning. The count of
-- a semaphore goes round at the ends of `int32`; the other counts and priorities are integers.
--
-- Loops. All are over counted ranges but these, which run on fuel. The search of `vmhgetmem` and the walk
-- of `vmhfreemem` have MAXHSIZE + 1 steps: the blocks of a well-formed heap are whole pages that do
-- not overlap, so there are at most MAXHSIZE. The walks of `insert`, `insertd`, `framewakeup` and
-- `semreset` have NPROC + 1 steps and that of `wakeup` NPROC: a queue holds each process at most once, and
-- each step passes or removes one. The walks of the allocator and of a port's messages have 2^29 + 1
-- steps: a block or a node takes 8 bytes of an address space of 2^32. The loop of `lexan` has one round more
-- than the line has characters, since each round passes one. The loop over the years in
-- `ascdate` has 137 steps, more than the years of a `uint32` of seconds.
--
-- Not modelled: the hardware's part (CR3, the interrupt vector and the entry code in assembler, the
-- enabling of paging), context switches, the image that `create` builds on a new stack, start-up
-- (`clkinit`, `setsegs`, `initialize`), the backing store of paging/, which the fault handler does not
-- use, the output of dates, the device drivers but for the console (of which `ttyread`, `ttywrite`,
-- the dispatch of interrupts and the settings of the UART are left out), the network code but for the
-- endpoints of UDP (`udp_send` and `udp_sendto` fill a packet and hand it to IP), the shell but for
-- its lexer, the remote disk server, and the programs that configure and build the kernel. The calls
-- of `close` in `kill`, which go through a table of drivers that the configuration generates, are a
-- parameter.
pub mod Base
pub mod Frames
pub mod Memory
pub mod Kernel
pub mod Paging
pub mod FrameBlock
pub mod Queues
pub mod VirtualHeap
pub mod System
pub mod Allocator
pub mod Processes
pub mod Ports
pub mod Buffers
pub mod Dates
pub mod Udp
pub mod Lexan
pub mod Terminal
pub mod Sched
pub mod Semaphores
pub mod Messages
pub mod Tests

-- ===== src/Lib.antt =====
-- RIBDriver: two Linux character drivers, for a routing table and a MAC table, with the list and
-- queue code that they share. Processes write updates, poll for them and read them, or take turns as
-- blocking writers and subscribers that a worker thread schedules.
--
-- Base holds what the files share: Boolean tests, arrays, sets of numbers as lists, and 32-bit
-- counters. A counter of type unsigned int wraps around at 2 ^ 32.
--
-- Queue is common/Queue.c, the circular queue of 50 pointers; Queue/Fifo is its abstract view.
--
-- Memory is the heap of common/LinkedListApi.c: descriptors, nodes and data blocks at addresses,
-- where a NULL or dangling pointer is a fault. LinkedList has the operations, under the names of the
-- source. An address that kmalloc returns is an argument. A loop over the nodes has as fuel the node
-- count and one round more, which the theorems show to be enough for a well-formed list.
-- Memory/Chain says what a well-formed list is. LinkedList/Delete and the modules beside it have the
-- deletion, LinkedList/Remove the removal, which leaves the node to the caller, and
-- LinkedList/Reverse the three reversals. A recursive reversal recurs on the fuel, of which the node
-- count is enough.
--
-- Table is RT/rt_table.c and MAC/mac_table.c, which are the same code for different entries: a
-- Layout says in what they differ, and the definitions carry the routing table's names. It works on
-- the lists' contents: a table is the sequence of its nodes' data blocks, newest first, as
-- LinkedList shows the operations to keep them. The blocks stay addresses, because the change list
-- points to the same ones. Fops is the polling part of RT/rt_fops.c: rt_write, rt_poll and rt_read,
-- whose error paths at a signal are arguments. Scheduler is its blocking part: rt_worker_fn and the
-- commands of ioctl_rt_handler1 that wait, as a step relation. A step is what one thread does
-- between two points at which it can wait; in the relation of Scheduler itself a reader's way out is
-- one step. Scheduler/Race has the way out as the code has it: the last reader completes the worker
-- in one step and decrements its counter in a later one, and a signal makes a reader go on without
-- rt_serialize_readers_cs_sem. Scheduler/Prompt says which of those runs are spared the race, and
-- reduces them to the first relation. Scheduler/Invariant and Scheduler/Steps have its invariant,
-- Moves what a step changes, Work how much is left to do, Steady and Settling the runs in which no
-- thread comes in and none gives up, Sound the faults, Order the order of service, and Stall what a
-- signal and a full queue cause.
--
-- Fops/Reads lets several calls of rt_read overlap: a call is three steps, one for each section
-- under the semaphore and one for the copy. Fops/OnHeap has the lists of polling and of black-listed
-- readers as lists of common/LinkedListApi.c on the heap, and compares them with the lists of Table
-- and Fops. Table/OnHeap does the same for add_rt_table_entry_by_val, delete_rt_table_entry and
-- rt_get_updated_rt_entries: the change list holds addresses of blocks, and the updates are read
-- through them. Memory/Encoding has the bytes of numbers and pointers, which are those of a 64-bit
-- little-endian machine.
--
-- Files is the opening and the closing of a device, rt_open and rt_release, with the struct kernthread
-- of common/kernthread.c. Files/Closed is about what processes can do through other files after that.
--
-- Mac/Table and Mac/Fops give the names of MAC/mac_table.c and MAC/mac_fops.c to the same
-- definitions at the MAC table's layout, so that a theorem for every layout is one for both drivers.
-- Info is the command that counts the lists' nodes, which differs between the two drivers.
--
-- ThreadPool is userspace/threadApi.c, which no driver uses: the pool of blocked threads and the
-- flags of wait_t and signal_t. Under the pool's mutex an operation is one step, and the variants of
-- a search that take the mutex themselves are the same definition. The array has 100 slots, so a
-- pool_size above that is out of bounds.
--
-- Registration is rt_register_drv.c and mac_register_drv.c, the loading and the unloading of the
-- modules, with cleanup_rt_table. The kernel's device numbers are an interface, Chrdev; the objects
-- that a module allocates are counted by kind.
--
-- DrTest is userspace/dr_test.c, the user program of both drivers: the lines that it reads from
-- standard input, the updates that it sends, and the rows that it prints of what it reads. fgets and
-- the formats of printf are taken as the C library documents them, and select says which of the files
-- are ready. DrTest/Menu gives the menu's names to the functions at each driver's layout, and has the
-- menu's loop, for which scanf is a parameter.
--
-- Not modelled: common/kernutils.c, which prints and wraps the kernel's semaphores; the log and the
-- layout of what is printed; the child process and the thread that userspace/dr_test.c creates. The
-- kernel's semaphores, completions and copies to and from user space, and the thread
-- library's mutexes and conditions, are taken as documented.
pub mod Base
pub mod Queue
pub mod Memory
pub mod LinkedList
pub mod Table
pub mod Files
pub mod Fops
pub mod Scheduler
pub mod Mac
pub mod Registration
pub mod DrTest
pub mod ThreadPool
pub mod Info

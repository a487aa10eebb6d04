-- ===== src/Lib.antt =====
-- Verification of parts of the Phlox microkernel. Each part is a shallow embedding of its C code:
-- state is a record that routines take and return, `unsigned int` arithmetic is on natural numbers
-- with `% 2 ^ 32` written out, errors and panics are values. Signed numbers of
-- ticks and priorities are integers without bounds, which the code stays clear of.
--
-- * XList (phlox/kernel/util/list.c): the doubly linked list `xlist_t`. The links of all elements are
--   two functions on addresses. XList.Represents says what it means that a header represents a
--   sequence; the laws of the routines are in Ends, Splice, Insert and Search. A loop over the list
--   runs on `count + 1` rounds, enough for a well-formed list.
-- * Pages (phlox/kernel/vm/vm_page.c): the allocator of physical pages. A page is its index in
--   `all_pages`, and a page list is the sequence of its pages: the list routines of XList, seen from
--   above. Alloc has the allocators of one page and Range those of ranges.
--   Invariant ties the state of each page to the counters and lists. Transition, Single, AnyPage and
--   GivenPage follow one page; Sweep, FirstFit, Claim and GivenRange follow ranges. BootArgs and
--   BootPages are about the pages that are taken from the boot loader's tables. The search of
--   `vm_page_alloc_range` runs on fuel of one more than the number of pages: each round moves its
--   start forward. `clear_page`, which maps the page and writes zeros, is recorded by its argument.
-- * Klog (phlox/kernel/klog.c): the cyclic log of 128 rows of 64 characters. Window is about reading
--   by row counters that wrap around, Writer about `klog_puts`.
-- * Bytes (phlox/lib/string): `memcpy`, `memmove`, `memset`, `memcmp`, `memchr`, `memscan`, `bcopy`
--   and `bzero` on a memory of bytes, with their loops over bytes and words. These are the C bodies:
--   phlox/include/arch/i386/string.h defines _ASM_MEMCPY and _ASM_MEMMOVE, which puts assembly in the
--   place of those of `memcpy` and `memmove` on i386.
-- * Strings (phlox/lib/string): the routines on strings that end in NUL, on the same memory. Their
--   loops run on fuel that is given; more than the length of the strings is enough.
-- * SinglyQueue (phlox/kernel/util/queue.c): the singly linked queue. Refines and Remove relate it to
--   sequences.
-- * HashTable (phlox/kernel/util/hash_table.c): the chained hash table over a function of links, with
--   its iterator in Iterate and its hash functions in Hash. Valid relates a table to its chains. The
--   loops over a chain and over the table run on fuel of one more than the number of elements, enough
--   for a well-formed table; `hash_table_resize`, whose loop need not end, takes its fuel.
-- * Scheduler (phlox/kernel/scheduler.c): the run queue, bonuses and quanta, the timer tick and the
--   switch of threads, for one processor. Timer has `scheduler_timer` and Switch `sched_reschedule`;
--   RunQueue, Reschedule, Resume and Tick carry the invariant through them, and Steps puts all
--   operations together as steps. Choice, Aging and Priority are about which thread runs, how waiting
--   threads move up, and the ranges of the numbers. No loop needs fuel: they run over queues.
-- * Sem (phlox/kernel/sem.c): counting semaphores. Sem has the ids, the table and `sem_up`, Down the
--   waiting of threads: `sem_down_ex` is cut where the thread gives up the processor. Ids and Created
--   are about ids, Wake about the order of waking up, Valid, Keep and Steps about the invariant.
--   `get_next_gid` runs on fuel of three rounds, which are enough, and the loop of `sem_up` on as many
--   rounds as there are waiters. The tree of names is an argument; `sem_get_by_name` is left out.
-- * Timer (phlox/kernel/timer.c): the queue of events by deltas, and the tick. Deltas reads the deltas
--   as times, Tick is about what a tick leaves and runs. Events are not allocated or looked up.
-- * Mutex (phlox/kernel/util/mutex.c): mutexes and recursive mutexes on the semaphores of Sem. Count is
--   about the count of their semaphore, World has the threads that are inside and the steps, Exclusion
--   their invariant, and Created is about a mutex from its creation on and about nested calls.
-- * Heap (phlox/kernel/heap.c): `kmalloc` and `kfree` in 32 bins. Owner says to which bin and block
--   each address belongs, Sizes and Table are about the sizes of bins and the table of pages; Claim,
--   Alloc, Grow, Malloc and Free carry the owners through the routines, Apart compares blocks, and
--   Init starts them.
-- * Aspace (phlox/kernel/vm/vm_address_space.c): the mappings of an address space. Gap is about the
--   search for a free place, Search about the place that the tree's search gives with
--   `compare_mapping`, Place, Create, Align and Aligned about new mappings, Lookup about the mapping at
--   an address. Spaces has the list of address spaces, and Spaces.Use the routines that use one;
--   References and Deletion are about their references, Creation about their ids, Names about their
--   names. The search of the trees is an argument, with the laws FindsPlace and FindsId. FindsPlace is
--   about `avl_tree_find` with any comparator whose values for the mappings in order never rise: it
--   gives a mapping for which the comparator says 0, or else the neighbour at the change of sign. What
--   that means for addresses is shown from `compare_mapping`. FindsId gives the space with the id. The
--   loop that deletes mappings runs once for each of them.
--
-- Locks and interrupt flags are left out: each routine holds its lock from its first to its last
-- access. Pointers do not wrap around the end of memory. Not modelled: hardware access, assembly, glue,
-- third-party code, among it the balanced trees of phlox/kernel/util/avl_tree.c, and the components
-- that build on those above, such as threads, processes and memory objects.
pub mod Common
pub mod Aspace
pub mod Bytes
pub mod HashTable
pub mod Heap
pub mod Klog
pub mod Mutex
pub mod Pages
pub mod Scheduler
pub mod Sem
pub mod SinglyQueue
pub mod Strings
pub mod Timer
pub mod XList

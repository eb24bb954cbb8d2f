-- ===== src/Lib.antt =====
-- Cpp-Util: data structures in C++11.
--
-- A call of the program is a function from the state before it to a `Run`, which is `ok` with the
-- state behind it or a `fault`: a failed UASSERT, an exception of `at`, undefined behaviour such
-- as an access through a pointer to no live object, or too little fuel, which is the model's own.
-- The model is of a build in which UASSERT ends the program. A `size_t` is a natural number whose
-- sums and differences are taken modulo 2 ^ 64. The types that the templates take are parameters.
--
-- - Prelude: numbers, Boolean tests, lists (std::vector) and `Run`.
-- - Dict: std::unordered_map, as a list of pairs under a decidable equality of the keys.
-- - Caches/Cache (src/caches/cache.hpp): the abstract `cache`, a record of its methods and the laws
--   that it documents.
-- - Caches/HeapCache (src/caches/lfu_cache.hpp, heap_cache.tpp): `heap_cache`. The state is
--   `keymap`, `heap` and `max_size`; the functions are the methods, without their underscores.
--   `std::hash` has no part in it. The two loops over the heap go upwards from an item's place or
--   delete one place a turn, and their fuel is that place, or the length of the heap. The
--   children: Invariant (what the cache keeps true), Trade and Sift (`increase_key`), Remove,
--   Evict and Resize (what goes), Push and Insert, Lookup, Contract (the interface of Caches/Cache
--   filled) and Print (`_print_cache`, with the logarithm as a parameter). A double's product
--   max_size * 0.5 is taken as max_size / 2, rounded down.
-- - Fibheap (src/fibheap/fibheap.hpp, fibheap.tpp): `fibheap`. Memory has the nodes, one map for
--   each field, and which of them are live; Nodes has the static helpers, Methods the methods, Pop
--   `pop` and `_join_nodes`. Fuel bounds the depth of the trees and the length of the rings; for
--   `decrease_key` it is enough that it is the changed node's rank, a number that grows from each
--   parent to its children. Rings, Family and Forest are the invariants: rings, all roots and all
--   children of one node in one ring, `down` and the number of children, live parents nearer to the
--   root, the heap order, a least root at `min`, the size. Newborn, Push, Cascade and Decrease are
--   the proofs. The memory logs the deletions. Clear has the nodes as trees; there it is enough that the fuel is not below their number.
--   The logarithm in `approx_childnum` is a parameter. Inspect is the range constructor, the
--   destructor, the check of a build with FIB_CHECK and the printing.
-- - Synchro/Hazard (src/synchro/hazard.hpp, hazard.tpp, hazard.cpp): hazard pointers. The state
--   has the list of records, the retired pointers of each thread and of none, and the calls of
--   deleters so far. A call is one step of one thread, but in Held, where the reads of a scan are
--   steps of their own among the calls of other threads. The memory orders are not modelled: all
--   threads see one sequence of writes. Pointer is `hazard_ptr`; what the loads of
--   `acquire` give is a parameter, which may depend on what is published. The children Scan,
--   Schedule, Exit, Records and Held are the proofs.
-- - Synchro/Latch (src/synchro/countdown_latch.hpp, countdown_latch.cpp): `countdown_latch`; each
--   call is one step under its mutex, and the condition variable is the list of blocked threads.
-- - Queues/Queue (src/queues/queue.hpp): the abstract `queue`, a record of its methods and the laws
--   of an unbounded queue. Client is any calls of the methods.
-- - Queues/HazardQueue (src/queues/hazard_queue.hpp, hazard_queue.tpp): `hazard_queue`, with one
--   thread at a time in its methods. Fifo says which values a queue holds (Take what `try_dequeue`
--   makes of them), Contract fills the interface, Print is `operator<<`, and Interleaved has
--   `try_dequeue` in the steps that other threads can come between. One turn is enough for the loop
--   of `enqueue`, and two for that of `try_dequeue`. Threads has any number of threads in both
--   methods, step by step, with an allocator that gives any address not in use, and hazard pointers
--   that delete any retired node that no thread protects. Its children: Shape (the invariant of the
--   nodes), Facts (what the locals of a thread say of them), Grow, Shrink, Retired and Free (the
--   changes of the nodes), Kept and Link (the values), Sound, Kinds, Insert and Remove (the steps),
--   Safe, Line, Ends, Moves and History (what follows).
-- - Queues/SharedQueue (src/queues/shared_queue.hpp, shared_queue.tpp): `shared_queue`, likewise; its
--   loops take the old tail and head as arguments, and `try_dequeue` may take a third turn.
--   Print is `operator<<`. Destroy is the destructor, with the number of shared pointers to each node;
--   its fuel is above the number of nodes, and the end of a shared pointer takes at most two steps, as
--   the node's own `next` is null by then. Its children are the proofs. Threads is like that of
--   HazardQueue, and uses its proofs.
-- - Synchro/AtomicShared (src/synchro/atomic_shared.tpp): the atomic operations on a shared pointer
--   that has its own mutex, whose locking is written out.
-- - Synchro/RwLock (src/synchro/rwlock.cpp, rwlock.hpp): `locks::rw`, with the calls of pthread as
--   parameters, each of which gives an error number and the object it leaves. A std::system_error is
--   the result `threw`. Constructor says what a constructor leaves behind.
-- - Util/Container (src/util/util.hpp): `container_print`, as the list of what it writes.
-- - Util/Radix (src/util/radix.tpp): the in-place radix sort, on an array with iterators as indices;
--   the body of `msd_in_place_recursive` is `find_last`, `pass` and `sort_runs`, and the two arrays of
--   counts, which each call clears, are locals of `pass`. Fuel bounds the depth of the recursion, by
--   the length of the longest key; the turns of the loops over a bucket and over the runs, by the
--   number of keys. The children: Shuffle (arrays that differ by the order of a range), Digits (the
--   counts), Fill (the swaps), Pass, Runs, FindLast and Sort (the recursion).
-- - Util/Optional, Util/AtomicOptional (src/util/optional.hpp, optional.tpp, atomic_optional.hpp,
--   atomic_optional.tpp): containers of at most one object, by the object that lives in them.
--
-- How they interact: `hazard_queue` protects the head it reads by a hazard_ptr and retires a head it
-- moved off; its nodes hold an atomic_optional. In Queues/HazardQueue both are fields of the state.
--
-- In Threads a hazard_ptr is a local of the thread, by what Synchro/Hazard shows of it.
--
-- Not modelled: interleavings of the queues' other methods, `is_lock_free`, assertions' output and
-- the small utilities (src/util), and the tests.
pub mod Prelude
pub mod Dict
pub mod Caches
pub mod Fibheap
pub mod Synchro
pub mod Queues
pub mod Util

-- ===== src/Lib.antt =====
-- seqc, a C library of collections: what is modelled, how, and what is proved.
--
-- Paths are from the repository's root. Every collection stores elements of a fixed number of
-- bytes by value, takes its memory from an `allocator_t` that the client gives, and reports
-- failure by a `seqc_status_t` (include/seqc/status.h) or by NULL.
--
-- Parts and files
--
--   Prelude     the shared names and lemmas. Prelude/Memory: the statuses, `size_t` arithmetic, the
--               allocator as an interface, blocks of memory as lists of slots, memcpy and memmove,
--               seqc_copy_out of src/collection.h, and the two shapes that outcomes have.
--               Prelude/Lists, Tests, Int, Bits: arrays, comparisons, C's `int`, masks.
--               Prelude/Drain and Collect: the loop over an iterator, on fuel, without and with an
--               allocator.
--   Samples     an allocator, memory and an order, for the tests.
--   Vec         src/vec/vec.c: Vec (the operations), Vec/Valid (the invariant, creation, moving the
--               block), Vec/Grow (push, reserve, insert), Vec/Edit (set, remove, truncate, pop),
--               Vec/Search (get, find), Vec/Iter (the slice of a vector and its iterators).
--   Stack       src/stack/stack.c, on Vec: each operation calls the vector's as the code does.
--               Stack/Iter: the iterators, which are the vector's.
--   Fifo, Queue src/queue/queue.c and what it promises. Window is the sequence of slots that a
--               circular block holds, which Queue and Ringbuf share.
--   Deque,      src/ringbuf/ringbuf.c and what it promises: Ringbuf/Valid (the masks as remainders),
--   Ringbuf     Ringbuf/Grow (laying out the elements again), Ringbuf/Refine, Ringbuf/Iter.
--   Order       the client's compare_fn, its laws, ascending lists as sets (Order/Sorted,
--               Order/Sets), all elements of a list (Order/Bags), and where a test cuts a list (Order/Cuts).
--   Avl         src/avl/avl.c: Avl (the tree and its rotations), Avl/Api (insertion, deletion,
--               search), Avl/Balance, Avl/Inorder, Avl/Insert, Avl/Remove, Avl/Methods, Avl/Ends,
--               Avl/Height, Avl/Iter (the in-order iterators and, below it, what a loop over them
--               collects; Avl/Iter/Range is the range iterator).
--   Bstree      src/bstree/bstree.c: Bstree (the tree and its operations), Bstree/Refine,
--               Bstree/Remove, Bstree/Methods, Bstree/Iter (its iterators, as those of Avl).
--   Iter        src/iter/iter.c and src/slice/slice.c. Iter: an iterator is a `Source` (its functions)
--               and a state. Iter/Slice (the slices and the sources), Iter/Each, Iter/Prefix,
--               Iter/Suffix, Iter/Select, Iter/Pair, Iter/Group, Iter/Peek (the adaptors), Iter/Sift
--               (the loop that three of them share), Iter/Adaptors (what they yield), Iter/Build (how
--               they are made; Iter/Build/Account is what they hold), Iter/Terminal and Iter/Collect
--               (the terminals).
--   Pqueue      src/pqueue/pqueue.c, on Vec: Pqueue/Order (the heap order and the swaps), Pqueue/Up and
--               Pqueue/Down (the two sifts, and Floyd's heapify), Pqueue/Push, Pqueue/Pop, Pqueue/Drain,
--               Pqueue/Build (a heap from a vector), Pqueue/Iter.
--   Omap        src/omap/omap.c, on the trees of Avl, whose balance functions the file repeats:
--               Omap/Entries and Omap/Puts (maps as ascending lists of entries), Omap/Set,
--               Omap/Delete, Omap/Methods, Omap/Remove, Omap/Laws, Omap/Iter.
--   Extend      src/collection.c, and the X_extend functions of the collections: Extend/Adds,
--               Extend/Trees, Extend/Vectors.
--
-- A definition has the name of the C function without the collection's prefix, and the whole name
-- in Iter and Extend. A handle is an `Option` of the struct's record, with `none` for NULL, and so
-- is a pointer to an element. A function that mutates returns the new handle, one that allocates
-- or frees takes and returns the heap `H`. What goes through an `out` parameter is a component of
-- the result.
--
-- Bounds and fuel
--
-- `size_t` has 64 bits and every sum and product that can wrap is written with its remainder. The
-- invariants ask that a block has at most PTRDIFF_MAX bytes, which holds of every object of a C
-- program; that the allocator refuses larger requests is the hypothesis IsBounded. An element's
-- size times the initial capacity must not wrap. Loops are structural recursion on the tree or on
-- the rounds that are left; only a loop over an iterator, or inside one, takes fuel, and the
-- theorems ask for more rounds than there are elements, which is enough. The heights of a tree are
-- natural numbers: an `int` does not overflow before the memory is used up.
--
-- Not modelled
--
-- iter_range and iter_flat_map of src/iter, src/list, src/dlist, src/hashmap, src/set and src/string.
-- qsort is a parameter of Vec.sort and of iter_sort. The functions of a client of src/iter are pure.
-- The allocator comes from another project.
pub mod Prelude
pub mod Samples
pub mod Vec
pub mod Window
pub mod Stack
pub mod Fifo
pub mod Queue
pub mod Deque
pub mod Ringbuf
pub mod Order
pub mod Avl
pub mod Bstree
pub mod Iter
pub mod Extend
pub mod Pqueue
pub mod Omap

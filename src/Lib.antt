-- ===== src/Lib.antt =====
-- boltdb-cpp, a key-value store in one file after the design of Bolt: pages of a file hold the nodes of
-- a tree, two meta pages and the list of free pages.
--
-- The parts and how they interact. `open_db` (src/db/db.cpp) opens and locks the file
-- (src/fs/file_system.cpp), writes the first four pages of a new one, and reads the meta page of an
-- old one, whose numbers are in the byte orders of include/boltdb/util/binary.hpp and whose checksum is
-- that of src/util/crc64.cpp. A transaction takes pages from the FreeList (src/page/freelist.cpp) and
-- gives pages back to it, for good once no reader is left. A Node (src/page/node.cpp) is a page of the
-- tree in memory; it is split when it is written. The bytes of keys and values are slices
-- (include/boltdb/util/slice.hpp) with counted references (src/util/ref_count.cpp) in memory of the
-- pool (include/boltdb/alloc).
--
-- The files and the code that they model:
--   FreeList and its children: include/boltdb/page/freelist.hpp, src/page/freelist.cpp. A FreeList is the
--     record of `ids_`, `pending_` and `cache_`; the functions have the names of the methods and return
--     the object with the result, also where they throw. `free_loop` is the loop of `free`,
--     `find_block` that of `allocate_contiguous`. FreeList.Persist has `read_from`, `write_to` and `reload`.
--     FreeList.Pages states what holds between the calls, FreeList.History sequences of allocations, frees,
--     releases and rollbacks, FreeList.Outcomes what a caller sees of `free`.
--     FreeList.Spec is the abstract free list, a status for each page with the calls, their answers and the
--     changes that they may make, and the same calls on the object;
--     FreeList.Spec.Statuses, Blocks, Refinement and Progress relate the methods to it.
--   Node and its children: include/boltdb/page/node.hpp, src/page/node.cpp. Node.Split has `split` and
--     `split_two` over the nodes that pointers reach (Node.Split.Nodes), Node.Serial `read` and `write`,
--     Node.Spill the loop at the end of `spill`, which gives the pages of the nodes to the FreeList.
--   Bucket and its children: src/db/bucket.cpp with include/boltdb/db/bucket.hpp, and `root`, `child_at`,
--     `child_index`, `next_sibling` and `prev_sibling` of include/boltdb/page/node.hpp and
--     src/page/node.cpp, which work on the cache of nodes that the bucket keeps. A pointer to a node is its
--     place in the store of nodes.
--   Cursor and its children: `ElemRef` of include/boltdb/db/cursor.hpp and its `is_leaf` in src/db/cursor.cpp.
--   Transaction.Txn: `page` of src/transaction/txn.cpp and the fields of Txn that buckets and nodes use.
--     Transaction.Stats: TxnStats of include/boltdb/transaction/txn.hpp.
--   Page and Page.Memory: include/boltdb/page/page.hpp, src/page/page.cpp. A page is the fields of its
--     header and the bytes behind it; the casts of the source are loads and stores.
--   Binary and its children: include/boltdb/util/binary.hpp.
--   Db.Meta: include/boltdb/db/db_meta.hpp and the methods of Meta in src/db/db.cpp. Db.Open: `init` and
--     `open_db` in src/db/db.cpp. Db.Options: include/boltdb/util/options.hpp.
--   Fs.FileSystem and Fs.Locks: src/fs/file_system.cpp. The system calls and the timer are fields of the
--     record Posix, functions of a world outside the program.
--   Alloc and its children: include/boltdb/alloc/memory_resource_tracker.hpp and memory_pool.hpp, over
--     upstream resources that are parameters.
--   Util.Slice: the comparisons of include/boltdb/util/slice.hpp, on the bytes that a slice shows.
--     Util.Slice.Buffers: include/boltdb/util/slice.hpp and src/util/slice.cpp with the memory under them:
--     a heap of buffers, a heap of counters, and slices that are views of a buffer with a pointer to a
--     counter. Its siblings say what the calls keep (Shape), how each call does so (Moves, Release,
--     Growth, Appending, Lifetimes, Assignments), and what the slices show before and after (Bytes,
--     Content, Room); Util.Slice.Calls puts the calls together.
--   Util.RefCount and its children: include/boltdb/util/ref_count.hpp, src/util/ref_count.cpp, over a heap
--     of counters and a list of the objects that point to them.
--   Util.Crc64 and Util.Crc64.Table: src/util/crc64.cpp; Util.Crc64.Bitwise is the checksum bit by
--     bit, in the register of Util.Crc64.Register.
--   Util.IRange and its children: include/boltdb/util/irange.hpp at `T = int`, over the integers of
--     Base.Int, with the conversions to `size_t` and back. Util.Status: include/boltdb/util/status.hpp.
--     Util.Rounding: `round_up_to_power_of_two` of include/boltdb/util/util.hpp.
--   Base and its children: what the others share: lists and their updates, maps, sorting, counting, bits,
--     the exclusive or and integers.
--   The modules Tests run the definitions and the theorems on small inputs.
--
-- Bounds and fuel. Numbers are natural numbers; where the source wraps around, `% 2 ^ w` is written out.
-- Sizes and counts that the source keeps in an `int` are taken to fit. `free_loop` has two rounds more
-- than there are overflow pages, which is enough when the ids stay below 2 ^ 64 - 1. `split_nodes` has one
-- round more than the node has inodes, each round but the last leaves two inodes behind. `flock_loop` is
-- given its number of rounds by the caller, and one is enough where the system call does what its manual
-- says. `root` needs one round for each node that is older than the one it is asked of, and one for that.
-- The loop over a range (`walk`) has one round more than the range has values. A buffer of a slice is shorter
-- than 2 ^ 31 bytes.
--
-- Not modelled: the recursion of `spill` over the children of a node, and its return, which the source does
-- not have; `page_node` of a bucket, which uses names that it does not declare; the functions of the cursor,
-- which break off; `Txn::allocate` and `DB::allocate`, which are
-- declared and not defined; the classes of exceptions, since each component here has its own type of what
-- it throws; the wrappers of the clock and of memory maps; output for debugging; the texts of messages
-- that show numbers.
mod Base
pub mod Util
pub mod Fs
pub mod Db
pub mod Binary
pub mod Transaction
pub mod Page
pub mod Alloc
pub mod Node
pub mod FreeList
pub mod Bucket
pub mod Cursor

-- ===== src/Lib.antt =====
-- The Merkle Patricia trie of depend/monad/category/mpt: sequences of nibbles, updates, and the
-- insertion into and the search of a trie that is in memory, the copy of a part of it, and the Merkle
-- commitments of its nodes; the versions that a database on disk keeps, with the words in which it keeps
-- offsets; and RLP and the cache of a fixed size of depend/monad/category/core.
--
-- A caller gives `upsert` a root and a list of updates, each with a key, a value or none, and a
-- nested list for the trie below the key. `split_into_sublists` deals the updates to the 16
-- branches of one nibble; the functions of trie.cpp walk the old trie and the updates together and
-- build the new nodes from the leaves up; `find_blocking` walks a trie down one key.
--
-- Files, with the code that each is about:
--   Prelude     tests on numbers, lists with the library's names over the native numbers
--   Nibbles     core/nibble.h, mpt/nibbles_view.hpp. A view is a buffer with two indices; its
--               meaning is the list of its nibbles, in Nibbles/Sequence. Bytes, Halves,
--               Compare and Concat hold the laws of set_nibble, of get, of the comparisons and of
--               the copies, Runs small inputs.
--   Update      mpt/update.hpp, mpt/request.hpp
--   Node        mpt/node.hpp, mpt/node.cpp: the tree, with `create_node_from_children_if_any` of
--               mpt/trie.cpp
--   Result      a finished value, a failed MONAD_ASSERT, or a model out of fuel
--   Upsert      mpt/trie.cpp: `upsert`, `upsert_`, `create_new_trie_`,
--               `create_new_trie_from_requests_`, `dispatch_updates_impl_`, `mismatch_handler_`,
--               `update_value_and_subtrie_`. Its children prove what each function makes, from the
--               loop over branches (Build) up to the whole recursion (Laws).
--   Find        mpt/find.cpp, mpt/node_cursor.hpp
--   CompactEncode  mpt/merkle/compact_encode.hpp, with the laws and small runs
--   Rlp         core/rlp/encode.hpp: what is written into a span of bytes. Rlp/Decode is a reader of
--               RLP that does not use the encoder.
--   Merkle      mpt/compute.cpp, mpt/merkle/node_reference.hpp: the pieces of a commitment.
--               Merkle/Base and Merkle/VarLen are the classes of mpt/compute.hpp, Merkle/Spec the
--               tries of Ethereum as RLP items, Merkle/Commit the order in which mpt/node.cpp and
--               mpt/trie.cpp commit to nodes, from the leaves up.
--   Copy        mpt/copy_trie.cpp: the copy of a subtrie to another prefix, in memory. Copy/Merge and
--               Copy/Steps are about one step of the walk, Copy/Contract about the whole.
--   Offset      mpt/util.hpp, async/util.hpp, `node_disk_pages_spare_15` of mpt/node.hpp: words with bit
--               fields, their order, alignment, and the number of disk pages in fifteen bits
--   RootOffsets  mpt/trie.hpp, `root_offsets_delegator`: the ring of the offsets of the roots. Window says what
--               a ring holds, Scan is about its lower bound, History and Rewind about the operations.
--   Metadata    mpt/update_aux.cpp and mpt/trie.hpp: the operations on versions over the two copies of the
--               metadata of a database on disk
--   Lru         core/lru/static_lru_cache.hpp. A node is an index into the array; Lru/Spec is the
--               list of entries in order of use, Lru/Contract the theorems, Lru/Runs small runs.
--   Lookup      the meaning of a trie: a partial map from keys to values
--   Apply       the meaning of a list of updates: a change of such a map
--   Examples    runs on small inputs
--
-- Bytes and nibbles are numbers; the 8-bit sizes of a view wrap as in the code. A key, a path and a
-- value are lists. Every child is in memory, so the steps that read from or write to disk, compact
-- or expire are left out, with the caches and the file format. MONAD_ASSERT is a check; a
-- MONAD_DEBUG_ASSERT is none, with two exceptions that are checks too: in the commitments, where it
-- guards a buffer, and where the paths of a node and its only child are joined, where concat of
-- mpt/nibbles_view.hpp guards a length in 8 bits.
-- keccak256 is a parameter, of which the theorems use that it writes 32 bytes; so are
-- TComputeLeafData, a function of a node's value and intermediate data, and LeafDataProcessor.
-- The C++ recursion becomes recursion on fuel: one unit is one call or one round of a loop.
-- `fuel_for us` of Upsert/Grow, three units for each nibble of a key and four for
-- each level of nesting, is enough.
pub mod Prelude
pub mod Nibbles
pub mod Result
pub mod Update
pub mod Node
pub mod Upsert
pub mod Find
pub mod Copy
pub mod Lookup
pub mod Apply
pub mod Lru
pub mod Offset
pub mod RootOffsets
pub mod Metadata
pub mod CompactEncode
pub mod Rlp
pub mod Merkle
pub mod Examples

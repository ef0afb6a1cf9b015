-- ===== src/Lib.antt =====
-- DBPlayground: a storage engine for key-value pairs and tables, from the pages of a database file up
-- to a B+ tree and a row codec, and a table format on object storage on top.
--
-- The parts that are modelled, each file with the code that it is about:
--   * Base: numbers, words, lists, arrays as functions, results.
--   * Replacer: src/Storage/BufferPool/LRUReplacer.cpp. The frames that may be evicted, as lists with
--     maps of what is in them.
--   * Disk: src/Storage/Disk/DiskManager.cpp. The file as a list of pages.
--   * Pool: src/Storage/BufferPool/BufferPoolManager.cpp, `FetchPage` and its parts; Pool.Methods has
--     the other operations. The pool uses the replacer and the disk. Pool.Runs has the calls as a
--     step relation, with what the pool asks of its users: a page is unpinned as clean only if it is.
--   * Rid: src/Common/RID.h. Codec: src/Common/Codec.h, src/Common/Slice.h, src/Common/EncodedKey.h.
--   * KeyOrder: what the tree's pages ask of a key. Codec.Order fills it with the encoded keys.
--   * TreePage, Leaf, Internal: src/Storage/Page/BPlusTreePage.cpp, src/Storage/Page/BPlusTreeLeafPage.cpp
--     and src/Storage/Page/BPlusTreeInternalPage.cpp. A page is a record with a header and an array as
--     a function from an index.
--   * Value, Column, RowCodec: src/Table/Value.h, src/Table/Column.h, src/Table/RowCodec.cpp.
--   * PlainCodec: src/Storage/Encoding/PlainCodec.cpp, a column as its values one after the other.
--   * Metadata: src/Metadata/MemMetadataStore.cpp, values with versions under compare and exchange.
--   * MemStorage: src/Storage/File/MemStorage.cpp, files in memory with the streams that write them.
--   * BPlusTree: src/Container/BPlusTree.cpp, the tree over the pages of Leaf and Internal, which are a
--     function from a page id. Descent has the search, Insertion the insertion with its splits,
--     Siblings and Removal the removal with its merges and borrowings.
--   * TupleStore: src/Storage/TupleStore/TupleStore.cpp, values in slotted pages that are a chain.
--   * Wire: src/Cloud/SequentialProtocol.cpp, the classes Writer and Reader. Protocol: the state, the
--     manifest and the batch index of a cloud table; Protocol.Decoders has the decoders.
--   * Tests: the theorems at concrete inputs.
--
-- A C++ function keeps its name in snake case. A function that changes an object takes it and returns
-- it; a pointer that may be null, and an exception of the disk, is an option; the exceptions of the
-- codecs are a result. Each call of an object with a mutex is one step. A page id, an int64 and a
-- double are bit patterns.
--
-- Bounds: the theorems on the pool and the file are about files of fewer than 2 ^ 17 pages, since
-- `ReadPage` has the offset of a page and the size of the file as ints: at 2 ^ 17 pages the size is
-- negative and every read throws. The binary search of a leaf has the size of the page for fuel, which
-- is enough because each round leaves fewer pairs; loops run on the number of rounds that the source
-- gives them.
--
-- A descent in the tree and the recursion up the tree are on fuel; a tree of height `h` needs `h + 1`
-- rounds for a descent. The walk over the pages of the tuple store has a round for each page.
--
-- Not modelled: the engine over the tree, the codec registry and file formats, the write-ahead log and
-- the transitions of the cloud tables, and what is I/O. The casts between float and double are a
-- parameter: a float that is widened and narrowed comes back, but for a signalling NaN, which comes
-- back quiet. Whether the pool has a frame for a new page is a parameter of the tree and of the tuple
-- store. Pins are left out above the pool, and so are page latches, but for the set of the pages that
-- a descent holds, and the failed state of a stream.
pub mod Base
pub mod Replacer
pub mod Disk
pub mod Pool
pub mod Rid
pub mod Wire
pub mod BPlusTree
pub mod TupleStore
pub mod PlainCodec
pub mod Protocol
pub mod Metadata
pub mod MemStorage
pub mod KeyOrder
pub mod TreePage
pub mod Codec
pub mod Value
pub mod Column
pub mod RowCodec
pub mod Leaf
pub mod Internal
mod Tests

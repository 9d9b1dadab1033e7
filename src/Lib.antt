-- ===== src/Lib.antt =====
-- The store is a map from byte keys to byte values. Values and keys live in a log of mapped files
-- (src/minweight_store/store.cc); an ordered Patricia index (src/minpatricia) keeps one 64-bit record
-- position for each key. The index asks a record store for the key at a position; the store appends to
-- the log first and then puts the position into the index, and on opening replays the log into an
-- empty index.
--
-- Files and what they model (paths from the repository's root):
-- Base: Boolean tests, lists measured by native numbers, bits and words, shifts of array parts, and
--   tables of slots with a free list.
-- Patricia/Status: src/minpatricia/include/minpatricia/status.h, as a result type. `stuck` is no
--   C++ value: a read past an array, or a loop that ran out of the rounds it was given.
-- Patricia/Key: diff.h, position.h, and GetDiffBit of node_page.h. A ByteView is the list of its bytes.
--   CompareKeys is `compare_keys`, CompareAndDiffBit is `compare_and_diff_bit` with its loop `diff_from`.
-- Patricia/Route: the classes Rep and Route of node_page.h, words of 64 and 32 bits.
-- Patricia/Page: NodePage of node_page.h. Lookup, RouteDiffs and IsDirectRoutePair are `lookup`,
--   `route_diffs` and `is_direct_route_pair`; Page/Edit has `insert_slot_above_path`, `insert_route` and
--   `delete_route`. Page/Tree is the binary tree whose preorder the routes are; the theorems on pages are about
--   pages that encode a tree. Every loop gets as many rounds as the page has entries, and the
--   theorems show that this is enough on such a page; on a damaged page the C++ loops can run on.
-- Patricia/Records: HeapRecordStore of record_store.h. Key, Value and Record are one function,
--   `find_record`, since they differ in the part of the record they answer.
-- Patricia/Nodes: HeapNodeStore of node_store.h. Root, Get, Alloc and Free are `root`, `get_node`, `alloc` and
--   `free_node`; a page pointer is an optional page.
-- Patricia/Index: the class Index of index.h, as a record of the node store, the root's id and the count; a
--   page pointer is the page's id, and `write_page` is a write through it. The record store's Key is the
--   parameter `records`. Index/Path is IterPath; Read has Probe, Get and MinPos; Diffs, Routing and
--   Rebuild the routes of a page from its records' keys (BuildDiffs, BuildCartesian, WritePreorderRoutes,
--   RebuildNode); Split the choice of a range; Writes InsertAtPath, PropagateBoundary and
--   the writes of full pages; Puts has Put, Deletes and Merges have Delete, Seek the seeks and
--   the steps NextPath and PrevPath, Walk the scans. A loop down the pages gets a number of
--   rounds, the same for each loop of a call; the theorems ask for one for each page on the longest way,
--   and in a scan for one for each record. scratch_ is not state between calls. Forest is the tree of pages
--   and their records, and `Holds` says that an index stores it and that each key leads to its record.
-- Store/Status: src/minweight_store/include/minweight_store/status.h.
-- Store/Bytes, Store/Crc, Store/Position: the words, checksums and record positions of store.cc.
-- Store/Segment: WalSegment of store.cc. The mapping is the list of its bytes; the path and the
--   descriptor are not modelled. Open, Append, RecordAt, RecordAtOffset and Replay are `open_segment`, `append`,
--   `record_at`, `record_at_offset` and `replay`. Replay's callback is a parameter with a state. A record
--   is 13 bytes at least, so the used offset bounds the rounds of the loop. Segment/Append has
--   the invariant `IsSegment`; Segment/Log the chain of records; Segment/Contract, History, Open and Recovery
--   the theorems.
-- Store/Records: SegmentedRecordStore of store.cc: Append, DeleteRecord, AddSnapshotRecord, Key, ValueView
--   and Rollover are `append_record`, `delete_record`, `add_snapshot_record`, `key_at`, `value_view` and
--   `rollover`. The map of segments is an association list, and `files` is what the directory has in
--   files that are not mapped. Records/Rolling has the invariant `IsOpen`.
-- Store/Recovery: SegmentedRecordStore's Open, ReplayAll and ResetToSnapshot are `open_store`, `replay_all` and
--   `reset_to_snapshot`; the listing of the directory is an argument. ReplayAll's callback runs Put and
--   Delete of the index with the store's Key, and FromMinpatriciaStatus is `from_minpatricia_status`.
--   Its loop is over the sorted file numbers; `rounds` is what Put and Delete get. Recovery/Changes reads
--   a log as the calls of Put and Delete that it stands for.
-- Store/Snapshot: WriteSnapshot and ReadSnapshot of store.cc, on the bytes of the file. The loop of
--   ReadSnapshot is by recursion on the count in the header.
-- Store/Manifest: ReadManifest and WriteManifest of store.cc, on the bytes of the file.
-- Store/Names: WalSegmentName, FixedWidthID, SnapshotFileName and their parsers of store.cc.
--
-- The modules called Runs apply the theorems to sample data.
--
-- Subtraction of uint64_t and uint32_t is written with its wrap-around; sums of offsets stay below
-- 2 ^ 64 by the limits on a segment's size, but for the end of a record, whose remainder is written out.
--
-- Not modelled: system calls and their failures (a call is taken to succeed), messages of errors,
-- locks and the runtime, Sync and Close, and the handlers of Store::Impl.
pub mod Base
pub mod Patricia
pub mod Store

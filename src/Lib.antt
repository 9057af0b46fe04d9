-- ===== src/Lib.antt =====
-- The storage engine's core, a key-value store with versioned keys, snapshot transactions and a
-- log-structured merge tree: the parts that decide what a reader sees and what a crash leaves.
--
-- A transaction (txn.go) reads at a timestamp that the oracle (txn.go) gives out once every
-- earlier commit is visible, which two watermarks (y/watermark.go) tell. It buffers its writes,
-- and the oracle refuses its commit where a later commit wrote a key that it read. Its entries
-- (structs.go) get keys with the commit timestamp (y/y.go) and go to the write channel (db.go).
-- Tables (table/table.go) with their Bloom filters (y/bloom.go) are merged by compactions, which
-- the compaction status (compaction.go) keeps apart; the manifest (manifest.go) records the
-- tables and their levels. A lookup goes through the hot tiers and the levels (levels.go), whose
-- tables each level keeps in order (level_handler.go); a compaction chooses tables, and drops what no
-- reader needs any more (levels.go). An iterator (iterator.go) goes over all sources, merged
-- (table/merge_iterator.go), and chooses the version of each key that its transaction sees.
--
-- The files and the code that they model:
--   Base        numbers, lists, maps with number keys and integers, for all files
--   Bytes       byte slices: their order, big-endian numbers, maps with such keys
--   Keys        y/y.go: KeyWithTs, ParseTs, ParseKey, CompareKeys, SameKey
--   Entry       structs.go, y/iterator.go, value.go, iterator.go: Entry, ValueStruct, flags, sizes
--   Encoding    structs.go, y/iterator.go: header, valuePointer and ValueStruct as bytes
--   Watermark   y/watermark.go: the calls on a WaterMark and the goroutine `process`, each round of
--               which is `process_next` on the state; Watermark/Runs has the interleavings, and
--               Watermark/Ledger the Begins and Dones that were worked off in them
--   Oracle      txn.go: oracle; one function for each operation under its lock; Oracle/History has
--               its life with the commits so far
--   Txn         txn.go: Txn up to its commit; Txn/Commit has commitAndSend with db.go's
--               sendToWriteCh
--   Table       table/table.go: what the levels know of a table
--   Compaction  compaction.go: keyRange, levelCompactStatus, compactStatus
--   Bloom       y/bloom.go: Filter, NewFilter, MayContain, Hash
--   Discard     discard.go: Update and MaxDiscard, with the binary search of Base/Search
--   Trie        trie/trie.go: AddMatch, DeleteMatch and Get
--   LevelHandler  level_handler.go: the tables of a level; LevelHandler/Get has its get
--   Iter        y/iterator.go: an iterator as the pairs that it goes through
--   Iterate     iterator.go: the iterator of a transaction, parseItem as `parse_item`
--   Merge       table/merge_iterator.go: two iterators merged, and the tree of them for any number
--   Subcompact  levels.go: subcompact, with addKeys as `add_keys` and its round as `step`
--   Levels      levels.go: get, checkOverlap, buildChangeSet and dropTree; Levels/Fill has the choice
--               of tables, fillTables and its kin
--   Manifest    manifest.go: Manifest and its changes; Manifest/File has the MANIFEST file, its
--               replay, rewrite and opening
--
-- State is passed along: an operation takes a record and gives the new one, with its answer. A
-- failed assertion, an index out of range and a panic are `none` or an error value. Numbers of a
-- fixed width wrap where the code can reach the width. Maps are association lists with one entry
-- a key; where the code goes through a map, the theorems hold for any order that it takes.
--
-- Loops are recursions on lists or on the rounds left. The loop of subcompact over its tables has a
-- round for every pair and one more, and Subcompact/Visible shows that this is enough; so has the
-- prefetching of an iterator, for which Iterate/Queue shows it. Next of a merge iterator has three
-- rounds, which Merge/Yield shows to be enough for keys in order. The replay of the MANIFEST file
-- runs on fuel, one more than the bytes after the header, and Manifest/File/Total shows that it never
-- runs out, since every round reads at least eight bytes.
--
-- Not modelled: goroutine scheduling within one locked operation, contexts and their cancellation,
-- the file system and its errors (a crash is a write that was cut short), metrics and logging. The
-- protobuf encoding, the checksum, the hash of keys, the clock with what it says of the age of a
-- table, the decimal printing of a number and the floating-point products of the Bloom filter and of
-- the table sizes are parameters. The iterator of a table or of a merge is the list of its pairs; a
-- builder's ReachedCapacity is a test on what was added. The values that an iterator prefetches,
-- tables on disk and their iterators, the value log, memtables and the skip list are not modelled.
pub mod Base
pub mod Bytes
pub mod Keys
pub mod Entry
pub mod Watermark
pub mod Oracle
pub mod Txn
pub mod Table
pub mod Compaction
pub mod Bloom
pub mod Manifest
pub mod Encoding
pub mod Discard
pub mod Trie
pub mod LevelHandler
pub mod Iter
pub mod Subcompact
pub mod Levels
pub mod Merge
pub mod Iterate

-- ===== src/Lib.antt =====
-- A model of rocks, the Rust binding of RocksDB: the crate in src/ and its C++ glue in
-- rocks-sys/rocks/. The crate holds raw pointers to native objects that the glue makes; most of
-- what can go wrong lies in who releases them, and in what crosses the boundary as an integer, a
-- pointer with a length, or a callback.
--
-- The parts, and how they call each other:
-- - Ffi: the native heap and the effects of a call. Ffi/Object lists the native objects
--   (rocks-sys/rocks/ctypes.hpp). Reading or releasing an address that holds no object is a fault;
--   a failed assertion or `expect` is a panic.
-- - Engine: the RocksDB library, which is not in the repository, as a parameter: its calls, with
--   their documented behaviour as laws. WriteBatch has the interface `Batches` for
--   `rocksdb::WriteBatch`, and Statistics/Counters the interface `Counters`.
-- - Error: src/error.rs and rocks-sys/rocks/status.cc. `save_error` is `SaveError` of ctypes.hpp,
--   `from_ll` is `Status::from_ll`; Error/Codes has the enums and their integers.
-- - Db: src/db.rs and rocks-sys/rocks/db.cc. The methods of `DBRef` that report only a status stand
--   in Db under their names, their glue in Db/Glue, `ToCompactRange` in Db/Ranges. Db/Requests
--   says what each asks of the engine. Db/Opening has `DB` with its constructors and its drop; the
--   engine's functions that they call are the interface `Opener`. Db/Family has `ColumnFamily` and
--   its drop, Db/Read the lookups and `PinnableSlice` (src/slice.rs), Db/MultiGet `multi_get`,
--   Db/Property the properties, Db/Dynamic the options that can be set on an open database,
--   Db/Snapshots the snapshots (src/snapshot.rs).
-- - WriteBatch: src/write_batch.rs and rocks-sys/rocks/write_batch.cc. WriteBatch/Raw has the
--   pointer and its drop, WriteBatch/Ops the operations, WriteBatch/Handler the iteration through the C callbacks.
-- - Statistics: src/statistics.rs. The enums are in Statistics/Ticker and Statistics/Histogram.
-- - Options: src/options.rs, src/advanced_options.rs, src/universal_compaction.rs and src/table.rs,
--   with the glue of options.cc, table.cc and universal_compaction.cc in rocks-sys/rocks/. A native
--   options struct is a function from its members (Options/Fields) to values (Options/Struct);
--   Options/Objects lists the structs. The setters stand under their names, those of `DBOptions` in
--   Options/Db, of `ColumnFamilyOptions` in Options/Cf, of `ReadOptions` in Options/Read, of the
--   other small ones in Options/Small, of tables in Options/Table, of compaction styles in
--   Options/Style. `Builder` of Options/Chain is the interface that each type meets with the setters
--   of plain values; Options/Whole has `Options` and its maps. The setters that take other native
--   objects are in Db/Shared, Cf/Traits, Cf/Factories, Read/Bounds and Table/Block/Caches below it.
-- - Cursor: src/iterator.rs. `Cursors` is `rocksdb::Iterator`; the loops of Cursor/Collect have fuel,
--   and one more than the number of entries is proved enough.
-- - Tables: the iterators of src/table_properties.rs and `KeyVersionVec` of src/debug.rs, whose
--   loops have fuel in the same way.
-- - Plugins: user code that the library calls back through rocks-sys/rocks/ctypes.hpp: merge
--   operators (src/merge_operator.rs), compaction filters (src/compaction_filter.rs), and the
--   listener callbacks that hand over native objects (src/listener.rs).
-- - Tests: engines, batches, iterators, counters and options that meet the laws, and the theorems
--   applied to them.
--
-- What a shared pointer in an options struct points to is known by a number; how many share it is
-- kept for the boxes of Rust trait objects only, and `delete` of a struct gives them up. The members' defaults, which RocksDB chooses, are an argument.
-- Bytes and lengths are natural numbers; a `&[u8]` argument is the bytes that its pointer and
-- length delimit, and an options argument is what the native options object holds. Ticker counts
-- wrap at 2^64. Other loops are recursions on a list, which need no fuel. The allocator of the
-- model never gives an address twice and never gives null.
--
-- Not modelled: the text that `Debug` and `Display` write, except for the names of tickers and
-- histograms; the generated bindings rocks-sys/src/c.rs; metadata, live files and approximate
-- sizes; the callbacks of comparators and slice transforms; the read-only information that
-- listeners are given; SST files; the presets (`optimize_*`) and the text of options, which RocksDB
-- computes, and the shared default instances. Threads are not modelled: calls happen one after
-- another.
pub mod Common
pub mod Ffi
pub mod Engine
pub mod Error
pub mod Db
pub mod WriteBatch
pub mod Statistics
pub mod Cursor
pub mod Tables
pub mod Plugins
pub mod Options
pub mod Tests

-- ===== src/Lib.antt =====
-- ZenoDB, a time series database: the parts that hold, encode and combine its data.
--
-- A point that is inserted updates the accumulators of a row. A row is kept under its key in a byte
-- tree, as a sequence of accumulators per field, newest first; an accumulator is a run of bytes
-- that an expression updates, merges and reads. Followers and leader tell each other how far they
-- have read by the offset of each source. A table keeps its newest rows in memory, in a tree, and
-- flushes them to a file together with the rows of the file before; a query, and a flush, reads the
-- file and merges each row with what is in memory for its key. The model has the way of a point
-- through the write-ahead log, the rows in memory and in files, the tree, the expressions with their
-- bytes, the encoding of numbers and times, the sequences, the offsets, the choice of followers for
-- an entry with their metrics, and the durations of a query.
--
--   Prelude    names and lemmas that the parts share: lists and integers over the native numbers,
--              association lists, Boolean tests, steps that may panic
--   Bytetree   bytetree/bytetree.go: the radix tree. `update`, `remove`, `copy` and `walk` are Update,
--              Remove, Copy and Walk; `split`, `meet` and `common` are edge.split and the parts of
--              doUpdate. A tree is an immutable value, and an operation gives the new one.
--              Bytetree/Radix has the shape, Lookup the map that the tree stands for, Contexts the
--              removals, Walk the traversal, Keys what becomes of the keys
--   Encoding   Encoding/Binary is encoding/encoding.go, Encoding/Time is encoding/time.go, and
--              Encoding/Until has RoundTimeUntilUp and RoundTimeUntilDown of the latter, on the durations
--              of Encoding/Duration
--   Sequence   encoding/seq.go: accumulators, the newest first, behind the time at which they end.
--              `truncate` is Truncate, by its parts cut_newer and cut_older; Sequence/Values has
--              ValueAt, ValueAtTime, UpdateValueAt and UpdateValue with their helpers, and
--              Sequence/Merging has Merge, window by window.
--              Sequence/Periods has what a sequence stands for, a map from times to accumulators
--   Expr       the expressions of expr, without percentiles: `Expr` is the type of all of them, and
--              each method of the interface is a function on it. Expr/Cell has the bytes of an
--              aggregate and of an average (load and save), Expr/Buffer has Update and Get, Expr/Merge
--              has Merge, and Expr/Plain is on DeAggregate
--   Core       of core: the callbacks of limit.Iterate, offset.Iterate and flatRowFilter.Iterate and
--              the guards against timeouts. A callback takes a state, which has all that it changes
--              and the clock; Core/Paging says what rows come through. Core/Compare is
--              core/compare.go, and Core/Sort is orderedRows.Less of core/sort.go. Core/Flatten is
--              flatten.Iterate of core/flatten.go
--   Cluster    cluster_query.go, on the leader: Cluster/Mapper is partitionRowMapper, Cluster/Query the
--              loop of queryCluster over the results, a state (`Progress`) with the events that the
--              loop selects, and Cluster/Sending what the goroutine of a partition sends
--   Sql        Sql/Duration is ParseDuration of sql/duration.go: `component` is a round of its loop
--   Offsets    the offsets by source of common/common.go
--   Metrics    metrics/metrics.go: its variables are a record, and each function gives them anew
--   Following  cluster_follow.go, on the leader: Following has what a follower adds when it joins
--              (onFollowerJoined), Following/Conditions mapPartitionRequest, Following/Dispatch the
--              loops that choose the followers an entry goes to, and Following/Earliest the offset that
--              a stream is read from. Channels and goroutines between these are not modelled
--   Inserts    insert.go: the entry of a point in the write-ahead log (InsertRaw, table.insert), and the
--              inserts that doInsert makes of its values
--   Rowstore   row_store.go. Rowstore/Header has the header of a file (createOutWriter, info, readOffsets,
--              writeOffsets) and Rowstore/Rows a row as bytes (doWrite, and how iterate reads it);
--              Rowstore/Fields brings the columns to the fields asked for (outIdxsFor, rowMapper,
--              rowMerger). Rowstore/Iterate is the loop of fileStore.iterate over a file, Rowstore/Store
--              the whole of it, with what is in memory; Rowstore/Flush is flush, and Rowstore/Process
--              processFlush and the rounds of processInserts. Rowstore/Open is openRowStore, by the files
--              of the directory. A file is the list of its bytes
--   Web        Web/Cache is web/cache.go, the cache of query results: its methods with the entries as
--              bytes and the two buckets as the state
--
-- A byte is a number, a slice is a list of them, and a slice expression that Go would panic on
-- gives none. A write into a buffer is the list of bytes that then stands there, with the untouched
-- part behind it. A Go int is an integer; where it is cut to a word of 16, 32 or 64 bits, the
-- modulus is written out. An instant is a number of nanoseconds since the start of year 1. A duration
-- is an int64 of nanoseconds: a number of periods times the resolution wraps around at 2 ^ 64, and the
-- difference of two instants stops at the ends of int64 (Encoding/Duration). Merge panics where the
-- length of its result is no int; how much memory there is, is not modelled.
--
-- What the code takes from outside is a parameter: the data of a node and its update (`do_update`
-- takes the function of node.doUpdate), the offsets of the write-ahead log (`WalOffset`), float64
-- with the logarithms and the conditions of goexpr (`Outside`), floats and strings with their order
-- (`Scalars`), murmur hashing with the dimensions of a point (`Hashing`), the values in a byte map
-- (`values_of`) and the conversion of an int among them (`float64`), the buckets of the bolt
-- database (`Bolt`), and the reading of a number in a file name (`atoi`). The laws that these
-- records state are documented: that a bucket is a map, where it accepts what is put, that after is
-- an order on offsets with the nil offset first, that a float64 survives its bit pattern of 64
-- bits, and that "less" is asymmetric. Floor and ceiling of a quotient of two durations as float64
-- are the parameter `Quotients`, exact where both are below 2 ^ 53; the fraction of a duration,
-- scaled in float64, is the parameter `scaled`.
--
-- An instant before year 1 is not represented: what Go would put there is at the zero time, which
-- the code reads as no time. Truncate writes the new end into the array that it shares with the
-- sequence it is called on; the field `array` of its result has that array.
--
-- Walk is a loop over a queue of nodes. It is modelled by recursion on fuel, one more than the tree
-- has nodes, which is enough, since the walk takes each node from the queue at most once.
-- ParseDuration is a loop over the text, of which each round takes a character or more: the length
-- of the text is fuel enough.
--
-- The loop of fileStore.iterate runs on fuel as well, one more than the file has bytes: a row takes
-- eight bytes or more. processFlush makes three attempts, each with a clock of its own.
--
-- A field of the row store is the text that it prints as, by which the code compares fields, with its
-- expression. Files are read and written through snappy, which is left out; the external sort of
-- rows is the parameter `sort`, the capacities of sequences the parameter `added`, and the size and
-- the reading of an offset the parameters `offset_size` and `offset_of`. Errors of the file system
-- are left out, but for a file that ends early and one that openRowStore cannot read.
--
-- A query that goes to all partitions runs on the events that come over its channels, in any order;
-- before the last of them the loop waits. What a handler of a partition does is the list of its calls.
-- The loop of flatten.Iterate runs on fuel, one more than there are times in the row.
--
-- Not modelled: SubMerge of sequences, the other sources and transformations of core, the
-- removing of the row store's old files, tables and their schema, the planner, the rest of
-- SQL, the follower's side of replication, the follower's side of queries and the contexts of queries,
-- the servers and commands; in expr, percentiles, the sub merge functions and the decoding from
-- msgpack; printing.
pub mod Prelude
pub mod Bytetree
pub mod Offsets
pub mod Metrics
pub mod Following
pub mod Web
pub mod Rowstore
pub mod Inserts
pub mod Encoding
pub mod Expr
pub mod Sequence
pub mod Sql
pub mod Cluster
pub mod Core

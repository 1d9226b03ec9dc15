-- ===== src/Lib.antt =====
-- stats-rrdb keeps time series in files of fixed size. A metric has a retention policy, a list of
-- pairs of a frequency and a duration; each pair has a block, a circular buffer of tuples, each
-- of which aggregates the values of one slot of time. An update goes to the first block; a block
-- that moves on hands the slot that was current to the next block, which rolls it up. A query
-- walks the blocks from the finest and newest to the coarsest and oldest.
--
-- What models what (paths from the repository's root):
--   Common                src/common/types.h: interval_overlap.
--   Value                 my::value_t, a double, as an interface with the laws that its order needs.
--   Tuple, Tuple/Bounds   src/rrdb/rrdb_metric_tuple.h and .cpp: t_rrdb_metric_tuple and its updates.
--   Block                 src/rrdb/rrdb_metric_block.h: t_rrdb_metric_block_header, t_update_ctx and
--                         the accessors; the constructor of src/rrdb/rrdb_metric_block.cpp.
--   Block/Find            find_tuple; the ring by age and what find_tuple does to it are below it.
--   Block/Update, Block/Select, Block/New
--                         get_tuples and update; select and the walker it calls; the new block.
--   Policy                src/parser/retention_policy.cpp: retention_policy_validate.
--   PaddedString          src/common/utils.h and utils.cpp: padded_string.
--   Metric                src/rrdb/rrdb_metric.h; create, update and select of src/rrdb/rrdb_metric.cpp
--                         are Metric/Create, Metric/Update and Metric/Select; Metric/Create/Written is
--                         the save of a metric that create has made.
--   Rrdb, Rrdb/Lookup     src/rrdb/rrdb.cpp: the map of the metrics, create_metric, drop_metric,
--                         update_metric, select_from_metric and the listings.
--   Rows, Groups          data_walker_select_no_group_by and, with GROUP BY, data_walker_select of
--                         src/rrdb/rrdb.cpp.
--   Rrdb/Disk, Rrdb/Flush, Rrdb/Load
--                         flush_to_disk of src/rrdb/rrdb.cpp, and load_metrics of src/rrdb/rrdb_metric.cpp,
--                         on the files by name.
--   Execute, Execute/Spec statement_execute_visitor of src/rrdb/rrdb.cpp, and what the statements mean.
--   Cache, Cache/Tuples   src/common/lru_cache.h, and src/rrdb/rrdb_metric_tuples_cache.cpp on it.
--   Cache/Files           src/rrdb/rrdb_files_cache.cpp, the cache of the open files, on it too.
--   Text, Tuple/Output    the output buffer, and the lines of a result of src/rrdb/rrdb_metric_tuple.cpp.
--   Bytes                 numbers as the bytes that a stream writes, the low byte first.
--   Block/Disk            write_block, read_block and read_block_data of src/rrdb/rrdb_metric_block.cpp.
--   Metric/File           write_header, read_header, save_file and load_file of src/rrdb/rrdb_metric.cpp.
--   Metric/Flush          save_dirty_blocks, and what a flush makes of the metric's file.
--   Storage               what a write at a position does to a file, and files that a crash leaves.
--   Journal               src/rrdb/rrdb_journal_file.h and .cpp; Journal/Recovery is the recovery that
--                         start of src/rrdb/rrdb.cpp makes.
--   Interval              interval_write, memory_size_write and retention_policy_write of src/parser.
--   Grammar               interval_parse, memory_size_parse, retention_policy_parse and
--                         statement_check_metric_name of src/parser, with their grammars;
--                         Grammar/Behaviour is what Boost.Spirit does for them.
--   Statement             statement_update_parse of src/parser/statements.cpp.
--   Server                server_tcp and server_udp of src/server: their handlers and what they answer;
--                         Status is update_status of server, server_tcp, server_udp and rrdb.
--   Pool                  src/common/thread_pool.h and .cpp.
--   Tests                 runs on small inputs.
--
-- State and calls. A C++ object that an operation changes is a value that the operation takes and
-- returns. An exception is a value of Error; what an operation leaves behind when it throws is modelled
-- for the map of the metrics, for save_file, for save_dirty_blocks and for the steps of the files
-- cache. A lock is held for a whole operation, so that an operation is one step; in the files cache an
-- operation is the steps that it makes under the lock, which those of other threads may come between,
-- and in the thread pool it is its atomic additions. A handler of a server is a step on what is
-- outstanding: the accept, the receive and the reads that Boost.Asio has not yet answered. The
-- array of a block is what the block keeps (`modified`), or else what the tuples cache or the file
-- gives, which is the argument `fetched`. A file is the list of its bytes, and a stream the bytes from
-- its position on. A flush writes the header and the changed blocks of a metric to the journal's
-- buffer, saves the journal, and makes the writes in the metric's file; after a crash the journal's
-- file is loaded and its writes are made again. A double is eight bytes that give it back.
--
-- Numbers. A time_t is an integer and does not overflow, nor does the sum of a timestamp and an
-- interval; a 32-bit position, count or duration is a natural number with its wrap-around written
-- out. A loop over a block has the block's count as fuel, which is a round for every slot; the loops of
-- the walker with GROUP BY have the seconds from the query's begin to their interval. The theorems on
-- them state that they return, so that it is enough.
--
-- Parameters. Boost's trim, to_lower, split, lexical_cast, hash and the order of its containers, the
-- parsers and operators of Boost.Spirit, what a stream writes for a number, in Statement and Server the
-- reading of a policy or a query, what the operating system does with the file that save_file opens
-- and writes (Store), in Rrdb the deletion of a metric's file (delete_file), and in Cache/Files the
-- opening, closing and removing of files, with what the file system may do to them, are arguments of
-- what calls them; a theorem that needs them to succeed, or to do what they document, has that as a
-- hypothesis. `Files can be written` is the law Stores on a Store: every file can be opened anew, and
-- bytes be put in its place. A new metric has no file name before it is created.
--
-- Not modelled: the grammar of the queries and the text of a parser's error; the sockets, the daemon
-- with its signals, and the threads that flush and report at intervals, of which only the work is
-- modelled; the spinlock and the reference counts; the log and the configuration; the opening, renaming
-- and deleting of files by the operating system, which are parameters; what update_status itself does to
-- the caches.
pub mod Prelude
pub mod Common
pub mod Value
pub mod Tuple
pub mod Block
pub mod Policy
pub mod PaddedString
pub mod Metric
pub mod Bytes
pub mod Cache
pub mod Execute
pub mod Grammar
pub mod Groups
pub mod Interval
pub mod Journal
pub mod Pool
pub mod Rows
pub mod Rrdb
pub mod Server
pub mod Statement
pub mod Status
pub mod Storage
pub mod Text
pub mod Tests

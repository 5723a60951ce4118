-- ===== src/Lib.antt =====
-- d-utils, a library of utilities for Go services: models of its components, and their properties.
--
-- Parts and files
--
-- - tscache/partition.go: a partition of the time-series cache, a slice sorted by timestamp beside a
--   map from timestamps to indices. TsCache/Partition has a function for each method (insert_item for
--   `insert`, get, get_nearest, get_range, cleanup), TsCache/Partition/Items the items. The proofs are
--   in its child modules: Order (sorted lists), Replace and Valid (the invariant), Ranges, Neighbours
--   and Nearest, Cleanup.
-- - tscache/cache.go: the cache over the partitions. TsCache/Store has get_partition, set, get_exact,
--   get_nearest, cleanup, flush and clear; each finds its partition by get_partition and calls the
--   function of the partition. Store/Writes and Store/SetGet are about `Set` and `GetExact`,
--   Store/Range is `GetRange`, Store/Delete `DeleteRange`, with the range of items in Delete/Cut, and
--   Store/Cleaning about `cleanup`.
--   Store/Places says in which partition an item lies.
-- - tscache/iterator.go: TsCache/Iterator, whose `Next` reads the cache of its argument. Iterator/Drain
--   is about reading it to the end. tscache/stats.go: TsCache/Stats, with Stats/Extremes.
-- - tscache/config.go: TsCache/Config. tscache/storage.go with tscache/errors.go: TsCache/Storage. A
--   directory (Disk) is a map from names to contents beside the states it went through; each call of
--   the operating system takes its error as an argument (Calls). `SavePartition` and `saveMetadata`
--   write a temporary file and rename it (replace_file); Storage/Opening is `NewStorage`,
--   Storage/Retention `DeleteOldPartitions`, Storage/Names and Storage/Repair `Repair`. Storage/Saving,
--   Storage/Lookups, Storage/RoundTrip and Storage/Atomic hold the proofs.
-- - TsCache/Restart: `NewTimeSeries`, which makes a storage and loads its partitions, and `Close`, which
--   saves them; Restart/Saved and Restart/Reopened put the two together. Restart/Maintenance is about the
--   intervals of the tickers.
-- - apicache/circuit.go: the circuit breaker, ApiCache/Circuit. `Allow` is split into its read (check)
--   and its write (promote), between which other calls may come: Circuit/Schedule has the step
--   relation.
-- - apicache/apicache.go: the cache of API replies. ApiCache/Cache has the map, the eviction and the
--   bound; ApiCache/Fetch has `GetOrFetch`, split where its locks are given up (consult, begin_fetch,
--   finish_fetch), the coalescing of fetches and the batch calls. It asks the breaker before a read
--   and reports to it behind a fetch. Fetch/Consult, Fetch/Replies and Fetch/Batch are about
--   calls that do not overlap, Fetch/Coherence about the values that they store and reply;
--   Fetch/Coalescing has the step relation of many callers.
-- - apicache/middleware.go: ApiCache/Middleware, the key functions and the handler that asks
--   `GetOrFetch` and passes the request on otherwise; the handler behind it has a state of its own.
--   Middleware/Transparent compares the two.
-- - cache/cache.go: a cache with expiry, a file and a NATS bucket, Cache.
-- - limiter/limiter.go: a rate limiter per user and interval, Limiter. `AllowRequest` is
--   allow_request, its loop pass_limits; `NextActionTime` is next_action_time; one round of
--   `cleanupRoutine` is cleanup.
-- - safemap/safemap.go: a map behind a lock, SafeMap; `getKey` is SafeMap/Keys.
-- - completion/completion.go: a flag with a channel that is closed when the flag is set, Completion;
--   its calls are split at the flag's atomic operations in Completion/Schedule.
-- - server/config.go and server/server.go: the options of the HTTP server and what `NewServer` makes
--   of them, Server; Server/Handlers has what its middleware does to paths, statuses and encodings.
-- - json-utils/json-utils.go: JsonUtils.
-- - taskrunner/taskrunner.go: TaskRunner, with the step relation of `RunTasks` in TaskRunner/Schedule;
--   TaskRunner/Errors is about what it returns, TaskRunner/Ending about its end.
-- - env/env.go: Env, over a record of what the operating system returns.
-- - debug/debug.go: Debug/Filter is `shouldIncludeGoroutine` and the loop of the dump, Debug/Sizes
--   `formatSize` and `addCommas`.
-- - jwt/jwt.go: Jwt, over a record of what golang-jwt does; Jwt/Tokens is about a token and its way back.
-- - Base: numbers of Go (Int, Word), times and durations (GoTime), maps (Dict), `sort.Search`
--   (Search), `sort.Slice` (Sort), texts by their characters (Text, Contains), numbers as texts
--   (Decimal), panics as values (Outcome), tests, lists and keys.
--
-- How the code is read
--
-- A method that holds its lock throughout is one function from a state to a state. Where a lock is
-- given up in between, the parts are functions of their own, and a data type Step says which may
-- follow each other; Reach is its closure. Every reading of the clock is an argument, in the order of
-- the code. `int` and `int64` are integers; each sum, difference and product that can leave the range
-- of 64 bits wraps by Word.wrap64, and `time.Time.Sub` saturates. Lengths of slices and maps stay in
-- the range. A time is its distance from the zero time in nanoseconds. A Go map is a list of entries
-- with distinct keys; a loop over a map visits the entries in the order of that list. The index map
-- of a partition is none where it is nil, as in the partition that an empty file is decoded to. An
-- index out of range, a write to a nil map and a negative capacity are the outcome panics.
--
-- Bounds and fuel: Search.search has the number of elements as fuel for the loop of `sort.Search`,
-- whose interval shrinks in each round. The loops of `GetRange` and `DeleteRange` have the number of
-- partition sizes between their ends, and two, as fuel. format_int writes 20 digits at most, enough for
-- 64 bits. The loop of `formatSize` has 7 rounds, enough to bring 64 bits below 1024, and two calls of
-- `addCommas` are enough. The other loops are structural; those of `RunTasks` are steps.
--
-- Outside the model: what the fetch functions of a caller, the file system, the encoders and the NATS
-- bucket return is an argument of the functions that use it. The MessagePack codec of the storage and
-- the date in the name of a partition file are parameters, with the codec's round trip as a
-- hypothesis where it is needed, and so are golang-jwt, the JSON codec of the middleware and the handler
-- behind it. Of chi, which routes a router takes without a panic is a parameter (Router); of Prometheus,
-- whether its registry has the metrics of `NewServer` already.
-- Not modelled: the select loop of the time-series cache's goroutine, and a second call of its `Close`,
-- which panics; the health check, the listener and the compressing writer of server; `getSize` of debug,
-- which walks values by reflection; the durations of utils.
pub mod Base
pub mod TsCache
pub mod ApiCache
pub mod Cache
pub mod Limiter
pub mod SafeMap
pub mod Completion
pub mod Server
pub mod Debug
pub mod Env
pub mod Jwt
pub mod TaskRunner
pub mod JsonUtils

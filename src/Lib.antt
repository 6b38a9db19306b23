-- ===== src/Lib.antt =====
-- Vortex-KV-Cache: a sharded in-memory cache with expiry and eviction, served over RESP.
--
-- The cache is a store (internal/store/store.go) of a power of two of shards
-- (internal/store/shard.go). The hash of a key chooses its shard. A shard is a map from keys to
-- entries (internal/store/entry.go) and, when a factory is configured, an eviction policy
-- (internal/store/eviction.go), of which there is one: the list of the keys in the order of their use
-- (internal/store/lru.go). The store tells its write listeners of every change a client makes.
--
-- Files:
--   Base            shared types: bytes, the tests on numbers, int64 with its wrap-around (Base.Int),
--                   maps as association lists (Base.Dict), masks (Base.Bits)
--   Entry           entry.go; Entry.Expiry: when an entry expires
--   Eviction        eviction.go: the interface `EvictionPolicy`, and the laws that a shard relies on
--   Lru             lru.go on an explicit heap of nodes. Chain, Unlink, Tracks: the pointers of a
--                   list; Recency, History: what the calls do to the order of use; Contract: the laws
--   Shard           shard.go. Invariant, Room, Sections, Interleaving: what every critical section
--                   keeps; View: what a client sees; Sweep, Purge: `activeSweep`; Recency: with
--                   `Lru`
--   Store           store.go. Routing: the choice of a shard; Invariant, Operations, Runs: runs of
--                   calls; Seen, View: what a client sees of a store; Listed: snapshots; Cycle,
--                   Pruned, Sweeper, Sweeping: the background sweeper
--   Resp            internal/resp. Value: value.go; Decimal: the calls of strconv; Writer: writer.go;
--                   Reader: reader.go; Frames, RoundTrip: what is written is read back; Progress:
--                   the reader ends on every input
--   Server          internal/server/handler.go. Args: what the handlers make of their arguments;
--                   Handler: the commands on the store; Dispatch: those that ask the replication, and
--                   `Dispatch`; Registration: the commands other than `PSYNC`; Safety, SetGet,
--                   Lifetimes: theorems. internal/server/server.go. Conn:
--                   `handleConn`; Pipeline, Closing: its replies and its end; Lifecycle: the accept
--                   loop, the connections and `Close` as steps; Shutdown, Waiting: their counters,
--                   and when `Close` returns
--   Replication     internal/replication. Master: master.go; Replica: `applyMasterCommand` of replica.go;
--                   Stream: what a replica makes of the commands of its master; Safety; Failover,
--                   Heartbeat: failover.go; Manager, Sync: the rest of replica.go, with its pointers
--                   as indices and `connectAndSync` cut where other goroutines may run; Steps: all
--                   that may happen to a node; Monitors, Conns: what always holds of it; Promotion,
--                   Stale, StaleSync: failovers; Following, EndToEnd: a replica on what its master sends
--   Dashboard       cmd/vortex-dashboard/main.go. Strings: the functions of Go that it calls; Metric:
--                   `pollNode` and `parseNodeTargets`; Trimmed, Numbers, Reading, Info, Polled: it
--                   reads back what a node says in `INFO`
--   LoadTest        bench/loadtest.go: `calculateMetrics`. Rounding: its float64 indices; Sorting,
--                   Percentiles
--   ServerCommand   cmd/vortex-server/main.go: the start and the end of a server; Serving: with its
--                   connections
--   Tests           the theorems and some runs at concrete inputs
--
-- Correspondence. A Go function keeps its name in snake case; `shard.delete` is `remove`. A method of
-- a struct takes the struct and returns the new one. Each argument `now` is the reading of the clock
-- that the method makes. A method of a shard is split at its locks: each critical section is a
-- function, and a method is their sequence; `Shard.Interleaving` runs the sections in any order. What
-- the Go runtime chooses is an argument: the hash function of the store, and the order in which
-- `range` visits a map. A Go map is an association list without repeated keys. A time or a duration
-- is an int64 of nanoseconds and sums of them wrap.
-- An index out of bounds is the outcome `panic`, and so is a number of shards above the limit of
-- `make`, which is an argument; that the memory does not suffice is not modelled. `strings.ToUpper` is
-- exact as far as its result is compared with a text in ASCII. A round of the inner loop of a sweeper
-- cycle is followed by another only if it removed a key, so a fuel of one more than the number of keys
-- is enough for it.
--
-- The reader works on all the bytes that the connection delivers before it ends, and returns the
-- bytes behind the value; `make` panics above a limit, which is a parameter. Its fuel bounds how deep
-- arrays lie in arrays; each array takes a byte of its own, so the fuel that `read_value` starts with, one
-- more than the number of bytes, is enough. The writer returns the bytes that it adds to its buffer;
-- errors of the connection below are not modelled. The functions of strconv that the reader and the
-- writer call are modelled in Resp.Decimal.
--
-- A command handler takes the store and a state `W` that the write listeners and the replication
-- change. What the goroutine that `PSYNC` starts, and later the write listener, send on the connection
-- is part of `W` (`Replication.Master`), not of the bytes that `handleConn` sends. What it calls of
-- internal/replication is the record `Server.Dispatch.Replication`. The reading of the clock is a
-- function of the number of the call within the command. `int64(d.Seconds())`, which
-- goes through float64, is the arithmetic of `Server.Args.whole_seconds`. Between the cycles of the
-- sweeper the other goroutines do anything to the store; within a cycle they do nothing. The
-- connections of a master are numbers; whether the writes to one succeed is a parameter.
--
-- The loops of `handleConn` and `connectAndSync` take all the bytes of their connection, and what the
-- other goroutines do between two rounds is an argument. A command takes a byte at least, so a fuel of
-- one more than the number of bytes is enough. The state of the server and that of a replica are also
-- modelled as steps of goroutines in any order: `Server.Lifecycle.Step` and
-- `Replication.Steps.Step`. The texts of errors of the network are arguments.
--
-- Not modelled: the mutexes themselves (their effect is the order of the sections and steps); the
-- ticker and the goroutine of the background sweeper; the milliseconds of the last failover in
-- internal/replication/failover.go; the HTTP handlers and the page of cmd/vortex-dashboard/main.go;
-- the workers, the throughput and the printed report of bench/loadtest.go; the flags, signals and
-- printed text of cmd/vortex-server/main.go. They are input and output, or floats that are only printed.
pub mod Base
pub mod Lru
pub mod Eviction
pub mod Entry
pub mod Shard
pub mod Store
pub mod Resp
pub mod Server
pub mod Replication
pub mod Dashboard
pub mod LoadTest
pub mod ServerCommand
mod Tests

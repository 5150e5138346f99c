-- ===== src/Lib.antt =====
-- BoilerPulse: a replicated key-value store. Nodes keep a Raft log (internal/raft), apply what is
-- committed to a state machine over a storage engine (internal/storage), and keep both on disk.
--
-- How the files follow the code:
--
--   Prelude          Boolean tests, lists and 64-bit words that the other files share.
--   Bytes            big-endian numbers and io.ReadFull on a list of bytes. Bytes/Frame is the frame
--                    `length, payload, CRC32` that two formats use, Bytes/LogCodec a file of frames.
--   Wal              internal/storage/wal: Record is record.go, Replay reader.go and writer.go.
--   Storage          internal/storage. Table and Table/Overlay are Go maps as association lists;
--                    SsTable is sstable/, with SsTable/File on the bytes of a file; Lsm is
--                    lsm/engine.go, flush.go, compact.go and recovery.go, with Lsm/Lookup and
--                    Lsm/Compaction on what readers see, Lsm/Durable on the log and the memtable,
--                    Lsm/Client on Put and Delete, and Lsm/Scan on Scan.
--                    MemStore is memstore.go, and Contract relates the two engines. StateMachine is
--                    statemachine.go and command.go, with StateMachine/Replay on commands that are
--                    applied again and StateMachine/Restore and StateMachine/Install on snapshots.
--   Cache            internal/cache/lru.go, with Cache/Eviction on its bounds.
--   Raft             internal/raft. Types is types.go, Interfaces the Storage and StateMachine of
--                    interfaces.go, Node the struct of node.go, and Log, Election, Replication,
--                    Apply and Snapshot the handlers of log.go, election.go, tick.go,
--                    replication.go and apply.go (Apply/Pending is on the loop of applyPending).
--                    Each critical section under `n.mu` is a function
--                    from the node's state to the next one, with the reply or the request that it
--                    yields. Steps is the relation of those sections, in any order and with any
--                    arguments, and Cluster puts the nodes of a cluster together with the requests
--                    for votes and the replies that are under way. EntryCodec is logentry_codec.go and FileStorage filestorage.go, as
--                    the implementation of Storage. Rpc is rpc/: faults.go, client.go and server.go.
--
--   Workload         internal/workload: monitor.go, hotkeys.go, mode.go and engine.go.
--   Gateway          internal/gateway: cluster.go and proxy.go over the cache and the workload engine,
--                    with leader.go in Gateway/Leader, and Gateway/RateLimit ratelimit.go.
--   Events           internal/events: event.go, normalize.go and ingest.go.
--   Api              internal/api: kv_handlers.go and events_handlers.go over an engine and a proposer.
--   Admin            internal/admin/server.go, over the faults of Raft/Rpc.
--
-- A node is generic in the state of its disk and of its state machine; what Storage and StateMachine
-- do is given by records of operations. CRC32 is a parameter of which only its range is used. Times
-- are in nanoseconds, and the current time and random numbers are arguments. In the storage a time is
-- counted from 2^63 ns before 1970, so that a file's int64 of nanoseconds is its value with wrap-around
-- (Storage.unix_nano). Numbers of type uint64
-- wrap at 2^64 as in Go, and a theorem that needs room says so. A Go map is an association list whose
-- keys do not repeat. JSON is a parameter, an encoder and a decoder with `none` for an error, and so is
-- float64, of which each file names the operations that its code uses.
--
-- Fuel: replaying a log file takes one round for each record, and a record has a byte at least, so the
-- length of the file plus one is enough. `apply_pending` takes one round for each entry that is
-- committed and not applied, and one more. A read at the gateway takes one round for each
-- node, and reading an index or a data block one round for each entry, which has a byte at least.
--
-- Not modelled: failing writes to files (the state before a rename is that before the operation), the
-- goroutines and channels between the critical sections, gRPC, the routes and headers of HTTP, metrics,
-- the proxy of the admin server at the gateway, configuration, the load simulator and the prediction model, which are
-- I/O, wiring or numeric code. The JSON files of internal/raft are what they hold, not their text.
pub mod Prelude
pub mod Bytes
pub mod Raft
pub mod Wal
pub mod Storage
pub mod Cache
pub mod Admin
pub mod Api
pub mod Events
pub mod Gateway
pub mod Workload

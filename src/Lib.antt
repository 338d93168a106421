-- ===== src/Lib.antt =====
-- A verification library for GameTrace, which captures the traffic of mobile games through leased
-- proxies, decodes it in plugins, keeps it per project and counts what happens in it.
--
-- The parts, and where they are modelled:
--
-- * Authz models pkg/authz/authz.go. `decide` is `Decide`, with one function per branch of its
--   switch; the control service asks it before every operation on a project's resources.
--   Authz.Matrix states the permission matrix of the plan, and apart from it what the code grants
--   beyond it, independently of the code's order of tests, and Authz.Outsiders what callers outside
--   a project are left with.
-- * Correlation models pkg/protocol/correlation/correlation.go, the requests that wait for their
--   response. `remember`, `look_up`, `forget` and `len` are the methods of `Store`. Fifo has the
--   loop that evicts the oldest keys and its laws.
-- * Lease models cmd/gt-pipeline/proxy_lease.go. A lease is an agent process with an agent port
--   and a control port; a capture on the lease borrows a third port until the session ends.
--   Lease.Ports is `portRange`; Lease.Create, Lease.Start, Lease.Stop and Lease.View are the
--   operations of the service on leases. Lease.Ledger counts who holds a port, Lease.Invariant says
--   when the books agree, and Lease.Conservation, Lease.Flows, Lease.Placement and Lease.Creation
--   prove it of each operation. Lease.History closes the service under all sequences of calls, ends
--   of sessions and exits of agents. Lease.Races interleaves the two locked parts of a start.
-- * Spool models pkg/spool/queue.go, the queue on disk between a capture and the uplink.
--   Spool.Records is the format of a segment and `scanSegment`; Spool has the methods of `Queue`,
--   Spool.Reading `Next`, and Spool.Recovery `Open` on the directory of an earlier run.
--   Spool.Framing and Spool.Scan are about the bytes, Spool.Invariant says when the index, the
--   counters and the disk agree, Spool.Writing, Spool.Appending, Spool.Runs, Spool.Delivery,
--   Spool.InFlight and Spool.Confirming follow the methods, and Spool.History compares the queue
--   with a list and a number. Spool.Restart, Spool.Scanning, Spool.Resume, Spool.Layouts and
--   Spool.Reopen follow the recovery through the segments. Spool.Faults looks at a write that fails
--   part of the way. A packet is the text that `proto.Marshal` gives, and `Next` gives the texts
--   that `proto.Unmarshal` reads. Spool.Retention, Spool.Retaining and Spool.Removed are
--   pkg/spool/retention.go, the archive mode of the queue.
-- * Dispatch models pkg/decode/dispatcher.go, which sends packets to a decoder plugin and gives
--   each answer to the caller that waits. Dispatch has the methods of `Dispatcher` and the
--   conversion to events, Dispatch.Index the `causationIndex`, Dispatch.Events the payloads as far
--   as they are read. Dispatch.Futures closes the dispatcher under all interleavings of callers and
--   stream, and Dispatch.Causation is about the index, the direction of a packet and the events of
--   a response. The loop that evicts from the index is that of Fifo.
-- * WebSocket models plugins/godot-world/ws.go, the frames of a WebSocket: `parse_ws_frames` is
--   `parseWSFrames`, and `next_frame` one round of its loop. WebSocket.Headers and
--   WebSocket.Chunks are about bytes that arrive in pieces.
-- * Godot models the rest of plugins/godot-world, the plugin that reads the traffic of a Godot
--   game. Godot.Buffer is `vbuf` and its reads, Godot.Values what they answer as `any`,
--   Godot.Variant the variants (variant.go). Godot.Wire has the registry of paths and
--   `decodeWireValue`, Godot.Half `f16tof32`, Godot.Blocks the payloads of the state
--   synchronisation (wire.go), and Godot.Packets `parseSm` (sm.go). Godot.Texts, Godot.Events,
--   Godot.Calls, Godot.Rpc and Godot.Session are the events of a packet, and Godot.Stream is
--   `Decode` (decode.go), which hands the frames that WebSocket finds to them. A read is a value
--   and an offset, a failure or a panic. Godot.Bounds, Godot.Nesting, Godot.Payloads,
--   Godot.Answering, Godot.Parsing, Godot.Totality and Godot.Settling follow the offsets through
--   all of it. Godot.Layout is an encoder for the documented layout of a variant, and
--   Godot.Reading, Godot.Cases and Godot.RoundTrip compare the reader with it. Godot.HalfValues
--   gives floats their values, and Godot.Oversized, Godot.Conduct, Godot.Resync and Godot.Commands
--   are about single behaviours.
-- * Access models cmd/gt-mcp/access_code.go and user_store.go, the codes that a new machine claims
--   its configuration with. `create_access_code` and `revoke_user` are the handlers of the tools of
--   the same names, Access.Claims is `handleAccessClaim`. Access.Codes and Access.Invitations are
--   about creations and claims, and Access.Later about any number of them one after the other.
-- * Baseline models pkg/state/baseline.go, the states of game entities that events change, and
--   Baseline.Extraction pkg/event/adapter.go, the changes that a payload declares. Baseline.Past
--   compares the baselines with the history of changes; Baseline.Faults is about deleted values and
--   events that fail.
-- * Analyze models pkg/analyze, the counts, sums and rates of events per window of time.
--   `count_add`, `sum_add`, `flush` and `final_flush` are the methods of the aggregators, and
--   Analyze.Engine is `Engine` with the rules that feed them. Analyze.Counts and Analyze.Windows
--   add up the metrics of a window, and Analyze.Merging is about groups with the same key.
-- * Runs models cmd/gt-mcp/run_registry.go, the runs of a feature that a user begins and ends while
--   traffic is captured. `begin`, `end`, `get` and `recover` are the methods of `RunRegistry`, and
--   Runs.Naming is `GenerateRunID`. Runs.Recovery and Runs.Restart are about a registry that starts
--   on the files of another. A record is taken to be read as it was written: the model writes and
--   reads no JSON.
-- * Auth models pkg/auth/token.go, the static tokens of owners: `parse_tokens` is `ParseTokens`,
--   `resolve` the method of `StaticResolver`, and `parse_bearer` `parseBearer`. Auth.Owners is
--   about whom a token belongs to. Auth.First is the `FirstResolver` of pkg/auth/dbresolver.go,
--   which puts the static table in front of the table of users and of further resolvers.
-- * PluginDev models pkg/plugindev/state.go and activate.go, the processes of plugins that a
--   developer launches. `activate`, `deactivate` and `record_build` are the functions of these
--   names and `wait_done` the goroutine of `trackProc`. `begin_activate` and `finish_activate` are
--   `activate` before the launch and from it on, since nothing is held in between.
--   PluginDev.Tracked and PluginDev.History are about calls one after the other, PluginDev.Racing
--   about two that overlap.
-- * Base has what the parts share: Boolean tests, lists, keys with a decidable equality,
--   association lists in the place of Go's maps, lists without repetition. Tally counts the entries
--   of a map that pass a test.
--
-- Conventions. Go's int and the ports are natural numbers. A map is an association list; an
-- iteration over a map takes its order, and no theorem depends on it unless it says so. A mutex
-- makes a method one step; where a function locks twice, it is two steps. Errors are constructors
-- of a result type. The clock, generated ids, probes of ports, child processes and the answers of
-- other services are arguments, several of them in a record whose name ends in Env.
--
-- Every loop is structural. The search for a free port makes as many rounds as the range has ports,
-- as the code's does. The scan of a segment has a round for every byte of the file and one more,
-- and each round goes past five bytes at least. The recovery has a round for every segment of the
-- directory and one more, and each round takes another segment.
-- The loop over WebSocket frames has a round for every byte and one more, and each round takes two
-- bytes at least. A variant nests at most once for every byte of the buffer, since each level takes
-- four bytes for its type; the loops over counted items are structural in the count. The loop of
-- Decode has a round for every byte of its buffer and one more, and each round takes a byte.
--
-- Not modelled: the storage in SQL, the gRPC and HTTP surfaces and their generated code, packet
-- capture and the child processes, logging, configuration files and the web interface.
pub mod Base
pub mod Fifo
pub mod Tally
pub mod Authz
pub mod Correlation
pub mod Lease
pub mod Spool
pub mod Dispatch
pub mod WebSocket
pub mod Godot
pub mod Access
pub mod Baseline
pub mod Analyze
pub mod Runs
pub mod Auth
pub mod PluginDev

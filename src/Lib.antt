-- ===== src/Lib.antt =====
-- The verification of ferricstore-python, the Python client of FerricStore. The program is in
-- src/ferricstore of the repository; this library models the part of it that decides what goes over
-- the wire and where to.
--
-- Parts and files:
--   protocol_codec.py: Codec. Codec/Value has the Python values and the standard library's encodings,
--     Codec/Encode the bounded writer and `_write_value`, Codec/Decode the budgeted reader and
--     `_decode_value_at`, Codec/Wire the wire format as plain functions, which the theorems of
--     Codec/Laws compare the code with.
--   protocol_framing.py: Framing. `ResponseFrameAssembler` and what it stands on; Framing/Isolation has
--     its specification, one stream of chunks for each response identity.
--   protocol_lifecycle.py: Pending and Deadlines. `PendingRequestBudget`, the admission of requests, and
--     `SyncDeadlineScheduler`; Deadlines/Refinement has the list of deadlines that it is compared with.
--   lifecycle_core.py: Lifecycle. Lifecycle/Coordinator is `SyncCloseCoordinator` for any number of threads,
--     whose schedules are lists of turns and whose waits end by `notify_all`, Lifecycle/Cleanup closes several
--     resources.
--   topology_core.py: Topology. Topology/Endpoints orders control endpoints, Topology/Wake keeps the active
--     wake filter, Topology/Route routes keys to slots and Topology/Command whole commands, Topology/Batch
--     splits a batch over targets and merges the replies.
--   command_core.py, protocol_retry.py and the opcodes of protocol_constants.py: Commands. Commands/Tables
--     has the tables, Commands/Keys the routing keys, Commands/Calls the layouts of calls that it is compared
--     with, Commands/Retry whether a request may mutate.
--   flow_options.py, command_grammar.py and flow_routing.py: Flow. Flow/Options is the analysis of options and
--     Flow/Grammar the grammar it is compared with, Flow/Arguments has counted arguments, markers and stream
--     reads, Flow/Hashing the keys of partitions and ids, Flow/Routing the keys of whole commands.
--   workflow_budget.py: Workflow. `WorkflowBudget`, over a client that may raise at every call.
--   protocol_compact_budget.py: Compact. The size of a compact request, counted before its bytes are made.
--   client_autobatch_queue.py and the queue of client_autobatch.py: Autobatch. Batches of pending operations.
--   langgraph/_locks.py: Locks. `run_sync_with_locks`, with the client's calls as a list of events.
--   http_connection_pool.py: Pool. `_KeepAlivePool`, with its connections as numbers.
--
-- How they interact: a request's payload is written by the codec within a budget that the pending budget
-- reports (`remaining_bytes`), its response comes back in frames that the assembler joins, and the codec
-- reads the body under an item budget. The topology picks the connection; over HTTP the pool lends it.
-- The keys of Flow commands come from Flow/Routing, those of the other commands from Commands/Keys; the
-- topology turns both into slots. The scheduler of deadlines expires requests that are still pending.
--
-- State is passed explicitly: `Base.Exec` is a monad of state and errors whose errors keep the state, as
-- a raised exception does. Numbers are natural numbers; where the source subtracts, a comment says why
-- the result is not negative. Integers of the wire are written modulo 2 ^ 64 by `struct`, in big-endian
-- bytes. Text is its code points and a float its 64-bit pattern. Lists that their owners may change in
-- place stand in a store, in Topology/Wake.
--
-- Bounds and fuel: the decoder recurs on the levels of nesting that are left, 129 less the depth, which
-- is the source's own limit. The loops of the pool recur on a bound of one more than the number of idle
-- connections, since each turn or round that goes on takes an idle connection away. The loops of Flow over
-- arguments carry how many are still to pass. A text is hashed on fuel of its length, since each piece
-- takes a code point. The attempts for a lock are a chain of answers up to the one at the deadline.
--
-- Parameters: the hash of keys to slots, the creation of connections and the test for stale ones, the
-- client's answers to budget calls, Python's `str`, `upper` and `int` on command arguments, the CRC
-- and the hash behind the routing keys, the options object of FLOW.QUERY, the server's answers to the
-- locking commands, and the results of the operation under locks and of the resources' closing.
--
-- Not modelled: sockets, asyncio, TLS, zlib and the primitives of threads, which are other packages' code;
-- mutexes, whose critical sections are single steps here; the waits on conditions outside the close
-- coordinator, where a thread may take its turn at any time; the typed client surface, the workflow and
-- worker layers and the query language, which stand on the modelled parts.
pub mod Base
pub mod Autobatch
pub mod Codec
pub mod Commands
pub mod Compact
pub mod Deadlines
pub mod Flow
pub mod Framing
pub mod Lifecycle
pub mod Locks
pub mod Pending
pub mod Pool
pub mod Topology
pub mod Workflow

-- ===== src/Lib.antt =====
-- A model of the coordination and runtime core of mininet-ai, which runs agents (language models with
-- capabilities) against a network, and theorems about it.
--
-- The parts and how they interact. Events of a run come over the event bus to the dispatcher of the
-- continuous runtime, which matches them with the triggers of agents and puts an item into the queue of
-- each agent that they trigger. The worker of the queue runs its agent under the supervisor, which
-- holds it back while it is paused and retries failures within a budget. The response of an agent proposes actions on the network and updates of the
-- shared state. The arbitrator decides which of the proposals of one request conflict; the admission
-- keeps conflicting actions and commits of different requests apart in time; the shared state applies
-- the updates of a response at once, with optimistic concurrency. Agents send each other messages over
-- the message channel, along the edges of the coordination graph: the routing takes them as slots are
-- free, commits each response and sends the delegations of the response on. The ledger keeps the history of a run.
-- The effect of an action is verified by polling its postconditions.
--
-- Files and code (paths from the repository's root):
--   Coordination/Channel.antt: mininet_ai/coordination/channel.py, `InMemoryMessageChannel`. `send`,
--   `receive` and `close` are the methods; a `receive` is rounds of `poll` and a wait.
--   Coordination/Arbitration.antt: mininet_ai/coordination/arbitration.py, `ConflictArbitrator`.
--   `make_candidate`, `conflicts`, `reject_conflicts` and `arbitrate` are its methods.
--   Coordination/Graph.antt: mininet_ai/coordination/graph.py, `CoordinationGraph`. `new_graph` is the
--   constructor with its validations, `entry_agent`, `destinations` and `authorize` are its methods.
--   Coordination/Admission.antt: mininet_ai/coordination/admission.py, `ActionAdmission`. The context
--   managers `admit` and `decision` are three steps each, `…_enter`, `…_start` and `…_leave`;
--   Admission/Steps.antt has the step relation and reachability.
--   Coordination/Messages.antt: mininet_ai/coordination/contracts.py, the messages and their validators.
--   Coordination/Slots.antt: mininet_ai/coordination/routing.py, the slots of `CoordinationRuntime`, its
--   sessions and `InvocationLease`.
--   Coordination/Commitment.antt: the same file, `_commit_prepared` and `_finish_prepared`.
--   Coordination/Routing.antt: the same file, `_delegate` and the loop of `_coordinate`: to take a
--   message and to settle a future are one step each, in any order, and other requests use the channel
--   between them.
--   Runtime/Events.antt: mininet_ai/runtime/events.py, `InMemoryRuntimeEventBus`.
--   Runtime/State.antt, with the records of mininet_ai/sdk/contracts.py in State/Contracts.antt and the
--   dictionary `_entries` in State/Dictionary.antt: mininet_ai/runtime/state.py,
--   `InMemorySharedStateStore`. `apply` and `snapshot` are its methods. State/Sqlite.antt:
--   `SQLiteSharedStateStore` of the same file, over a table that is a list of rows, with an argument
--   that says which statements raise.
--   Runtime/Supervision.antt: mininet_ai/runtime/supervision.py, `AgentSupervisor`. Each section with
--   the lock held is one step. Supervision/Execution.antt has `execute`, which takes what the other
--   threads do in between as its argument.
--   Runtime/Ledger.antt: mininet_ai/runtime/ledger.py, `SQLiteRunLedger`. The tables are lists of rows;
--   `create_run`, `get_run`, `append`, `records` and `close` are the methods, with an argument that says
--   whether SQLite raises. What pydantic writes for a manifest or a record, and reads back, is the
--   parameter `Codec`.
--   Runtime/Continuous.antt: mininet_ai/runtime/continuous.py, `ContinuousAgentRuntime`. Types.antt has
--   its state, Enqueue.antt `_enqueue` and `_issue`, Dispatch.antt `_matches` and `_dispatch`, Steps.antt
--   the threads: an event that is received, an item that is enqueued and an item that a worker takes
--   are one step each, in any order.
--   Agents/Reconciliation.antt: mininet_ai/agents/reconciliation.py, `reconcile_bundle`.
--   Capabilities/Verification.antt: mininet_ai/capabilities/verification.py, `PostconditionVerifier`.
--   `verify_one` is `_verify_one` on the list of its rounds, `read_path` and `compare` are the helpers.
--   Prelude.antt and its children: tests, lists, integers, dictionaries and a sort, which the parts
--   share.
-- In each part the children that are not listed hold proofs, and Tests.antt runs at fixed inputs.
--
-- State. A class with a lock is a record of its fields, and a method a function from the record to its
-- result and the record after it. Exceptions are values. Callbacks (sinks, clocks, sleepers, the
-- invocation that is supervised) are arguments: a sink may raise, and has a state of its own. Listeners
-- are taken to return, and are left out.
--
-- Bounds. The loop that looks for cycles runs on fuel, one unit for each agent: an agent is visited at
-- most once. No other loop has fuel. A loop that waits on a condition is recursion on the list of its
-- rounds, which say what happens in each wait.
--
-- Not modelled: adapters and input/output (Mininet and Open vSwitch, HTTP, files, sockets, the command
-- line, logging, the audit), the opening of SQLite files, validation by pydantic schemas, the
-- compiler of specifications, the interval threads and the coordinated workers of the continuous
-- runtime, and the real time of clocks, which are arguments. Notifications of a
-- condition only wake threads that test again, so a wait is a step that may come at any time.
mod Prelude
pub mod Coordination
pub mod Runtime
pub mod Agents
pub mod Capabilities

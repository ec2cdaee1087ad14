-- ===== src/Lib.antt =====
-- evoagent-os: the fleet control plane, services/fleet/src/evoagent_fleet; from the realtime service the
-- media packets, the chunker and the tokens, services/realtime/src/echoweave; the agent service with its
-- tools, its approvals and the versions of its prompt, services/runtime/src/evoagent_runtime; and a part
-- of the store of the control plane, apps/control-plane/src/evoagent_os.
--
-- The fleet. A client submits a workflow, a graph of nodes with dependencies; workers register, claim
-- leases on nodes that are ready, and complete or fail them; people approve the nodes that ask for it. All
-- state is in one SQLite database.
--
-- Base: what the parts share. Rows are the tables of the database as lists of rows in the order of
-- insertion, with SELECT, COUNT and UPDATE as functions of a row's test. Action is a method on a store: it
-- returns or raises, and keeps what it wrote before it raised, since the store commits each statement by
-- itself.
--
-- Fleet/Models (models.py): the records of a submission, the constraints of their fields, and
-- `WorkflowSpec.validate_dag`. Its recursive `visit` runs on fuel, which is the depth of Python's stack
-- that is left; running out of it is RecursionError. `visit` never holds a node twice on its stack, so a
-- depth of one more than the number of nodes is enough, and the theorems ask for no more.
--
-- Fleet/Store (store.py): the tables and the event log. JSON columns are the values that they hold, and
-- free JSON objects stay text.
--
-- Fleet/Orchestrator (orchestrator.py): one action for each method of `Orchestrator` that changes state,
-- in Submit (`submit`, `register`), Claim (`claim`, `heartbeat`, `sweep_expired`), Finish (`complete`,
-- `fail`, `approve`, `_lease`, `_artifact`) and Advance (`_advance`, `_record_route`). Steps is the
-- abstract view: a step relation on the table of nodes, its invariant and the life of a node. Refinement
-- serves the calls of clients one after the other and relates them to the steps. Granting, Expiry and
-- Routes are about single methods. Fleet/Tests runs a small workflow.
--
-- Realtime/Protocol (protocol.py): `pack_packet` and `unpack_packet` on lists of bytes, where a byte is a
-- number below 256. Realtime/Chunking (chunking.py): `SemanticChunker`, on texts as lists of code points.
-- The loop of `push` runs on fuel, the length of its buffer; each turn takes a character or more. The
-- gateway and the pipeline of the realtime service call them. Realtime/Tests runs them.
--
-- Realtime/Auth (auth.py): session tokens and consent assertions. Json is the values of `json`, Tokens
-- their encoding and the checks of `_decode_token`, Claims the shapes of claims, Session and Consent the
-- two kinds, where `verify_session_token` and `verify_consent_assertion` are the calls that consume the
-- jti and `verify_session_call` and `verify_consent_call` take any `consume` and `replay_cache`, and
-- `ReplayCache` the list of the jtis that were used. A frozenset of claims is the sorted list without
-- repetition that the code asks for. Times are whole seconds, and the integers of a token may be negative.
-- Replay, Capacity, Genuine, Readings, OneTime, Calls, Accepted, Issued, RoundTrip and Kinds are the
-- proofs.
--
-- The agent service. A channel sends a request; the agent answers it in a run, over turns of a model that
-- may call tools, and a call that the policy holds back waits for an operator.
--
-- Runtime/Store and Runtime/Records (store.py, models.py): the tables, and the methods that write them.
-- Identifiers are drawn from a sequence, and `drawn` counts them. Runtime/Prompts: `active_prompt` and
-- `prompt`. Runtime/Tools (tools.py): the policy and the registry, Tools/Builtins the built-in tools and
-- Tools/Web `http_get`; a tool is an action on the store, which also holds the files. Runtime/Agent
-- (runtime.py): `AgentRuntime`, with the turns of `_drive` bounded by `max_tool_steps`, and Agent/Decide
-- its `decide_approval`. The theorems about it ask of tools only that they leave the tables of runs and
-- approvals alone, and Runtime/Tools/Workspace shows that the built-in ones do. Runtime/Evolution
-- (evolution.py): `EvolutionEngine.propose` and `promote`. The evaluation of candidates is left out, so a
-- candidate's status is what the table says; it may make a promoted candidate pass again.
--
-- Control (store.py of apps/control-plane/src/evoagent_os): the agents, the links of runs, the events and
-- the idempotency keys of `ControlStore`. The API in front of the services uses them. The creation of
-- workspaces is left out.
--
-- What is taken from outside. The clock and the identifiers that a method draws are arguments: one reading
-- of `time.time()` and one of `now()` for a call, and one more of each for the sweep inside `claim`. The
-- last component of a path (pathlib) and the SHA-256 digest (hashlib) are functions in the configuration
-- `Env`; nothing is asked of them. In the agent service the provider, `Path.resolve`, the ranking of the
-- full-text index, `urlparse`, `getaddrinfo`, the answers of servers, the lenient decoding of their bytes,
-- `json.dumps` and SHA-256 are functions in `AgentRuntime` and `Outside`, and nothing is asked of them
-- either; a call reads the clock once. For tokens HMAC, base64, the parser of `json` and random jtis are
-- functions in `Crypto`; only the round trip of a token asks anything of them, for the texts and objects
-- of that token (`Travels`). Costs, qualities and durations are floats in Python and exact numbers of
-- millionths here, so rounding is not modelled; the score of a pool is the exact fraction of the formula.
--
-- Not modelled. Each method is one step: the interleaving of the statements of two threads is left out. So
-- are the views that only read (`view`, `list_workflows`, `route_metrics`), the HTTP layer, the worker's
-- loop, the opening of the database and failures of the disk; and the other services of the repository
-- (the scheduler and the HTTP layer of runtime, forge, observability, the rest of realtime and of the
-- control plane, the contracts package).
pub mod Base
pub mod Control
pub mod Fleet
pub mod Realtime
pub mod Runtime

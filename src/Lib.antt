-- ===== src/Lib.antt =====
-- A verification library for grafast-py, a plan-then-execute engine for GraphQL in Python. A request's
-- document is planned into a graph of steps; the plan is kept in a cache with the constraints that
-- planning recorded, and served to later requests that meet them; the steps run once each over a
-- bucket of entries; connections page through ordered rows by keyset cursors.
--
-- The parts, and the files of this library that model them (paths from the repository's root):
--
-- * Values models what the request inputs hold, and Python's `==` on it (Values/Equality).
-- * Constraints models src/grafast_py/constraints.py. Constraints/Defs has RequestFacts, scope_value,
--   value_at (with its step `child`), values_equal, the four constraint classes as one data type with
--   `matches`, and constraints_match. Constraints/Gate has the methods of ContextToken, ContextGate
--   (`gate_*`, `read`, `eval*`) and TrackedVariables (`variable_*`), each of which takes and returns
--   the list of recorded constraints. Constraints/Resolver ranges over the host's plan resolvers as
--   the reads they make. The laws are in Constraints/Matching, Reads, Mirrored, Replay, Recorded and
--   Scopes.
-- * Constraints/Arguments models FieldArgs of src/grafast_py/schema.py and
--   record_field_args_constraints of src/grafast_py/plan.py; the laws are in Observed and Accesses
--   below it.
-- * Cache models PlanCache of src/grafast_py/cache.py. Cache/Defs has the state and `get`, `put`,
--   `clear`; `get` is its locked blocks `snapshot`, `count_hit` and `count_miss` with the validation
--   between them, and Cache/Interleaving lets the blocks of other requests fall between.
-- * Serving models plan_operation's caching, lookup_cached_plan with its `validate`, and
--   store_cached_plan, of src/grafast_py/plan.py, over Constraints and Cache. Planning a document is
--   a resolver of the host (`Host.planner`); Serving/Fresh has the laws.
-- * Dag models order_steps, order_steps_within (Dag/Defs), _resolve_merged and _compose_remaps
--   (Dag/Merges), and the state of Plan with _register, eradicate, _sweep_dead, dependents_of and
--   tree_shake (Dag/Plan) of src/grafast_py/dag.py. The laws are in Dag/Visit, Emit, Order, Idents,
--   Remaps, Inverse, Rewrites, Reached, Dependents and Shake. tree_shake runs
--   order_steps on the ids of the plan.
-- * Steps models run_steps, _run_steps_async, _bucket_unariness, _gather_cols and _store of
--   src/grafast_py/step_model.py (Steps/Defs). The laws are in Steps/Broadcast and Steps/Lengths.
-- * Completion models the synchronous completion of src/grafast_py/completion.py and the walk of an
--   object's fields of src/grafast_py/execute.py. Completion/Defs has the data and the steps for one
--   value, Completion/Loops the batches (complete_values, walk_fields, execute_object_plan), with the
--   recorded errors as results. The columns that run_layer makes are a parameter, as are the leaf and
--   object types of graphql-core (`Types`). Completion/Reference completes one value at a time; the
--   laws are in Gather, Pieces, Placing, Joins, Batches, and in Conforms, Written, Sound. The
--   exceptions that completion does not catch leave the batch in Completion/Raising
--   (try_complete_values, try_walk_fields, try_execute_object_plan); Completion/Escapes relates it to
--   the batches in which none does.
-- * Loading models the `execute` methods of src/grafast_py/core_steps.py: the transforms in
--   Loading/Defs, LoadStep in Loading/Load, the global ids and NodeStep in Loading/Nodes, EachStep in
--   Loading/Each with its inner run as a parameter. The laws are in Coalesce, Distinct, ByType,
--   Alignment, GlobalId and Regroup.
-- * Incremental models incremental.py of src/grafast_py: the records and the state of IncGraph in
--   Incremental/Defs, _on_stream_items in Pump, the operations of IncGraph in Graph (Records wires,
--   Completing promotes and completes), the filters in Filter, and Publisher, run_incremental and
--   the schedules (`Reached`) in Publisher.
--   The pumps of a stream share its queue: `popped` counts what they took, and `run_task` lets the loop
--   of one go round once. Groups run and streams produce what the record
--   `Records` says. The laws of the ids are in Keys, Frames, Nesting, Promoting, Roots, Ledger,
--   Handlers and Protocol, what a response waits for in Flying, Extends, Stepping, Awaited, Wiring, Promises,
--   Waiting, Taking, Settling, Progress and Liveness, and the rest in Pump/Delivery, Pumping, Ending
--   and Failing. `IsNumbered` says that objects are numbered as they are made, `IsAnswered` that a run
--   answers for its group.
-- * Pg/Ordering models src/grafast_py/pg/ordering.py, and Pg/Cursor src/grafast_py/pg/cursor.py: the
--   keyset predicate in Pg/Cursor/Defs, the codec in Pg/Cursor/Codec. The laws are in
--   Pg/Cursor/Keyset, Pages and Codec/RoundTrip. Pg/Connection models the pages of
--   src/grafast_py/pg/connection.py (Defs); the laws are in Lists, Windows and Walk.
-- * Prelude has the shared names, tests, list and dictionary lemmas. Samples has concrete runs.
--
-- Dictionaries are association lists in insertion order, or functions where order is not read. A
-- step is its identity or its plan id. Exceptions are values. Recursion along the graph (`visit`)
-- and along chains of replacements (`chase`) has fuel: a rank that falls along dependencies, or
-- replacements, bounds the depth, and fuel above it is enough. The search for a free id has the
-- number of used ids plus one. The loop that promotes nodes has the number of nodes, since each is
-- popped once (Incremental/Ending). The other loops recurse on their lists, and completion on the
-- completer.
--
-- Parameters stand for code outside the repository, and `run_layer` for another part: `Host` for the
-- resolvers and customizers of a schema, `Step.execute` for what a step does, `Database` for
-- Postgres' evaluation of predicates and its order of rows, `Encoding` for JSON, base64 and sha256,
-- `Types` for the types of graphql-core, `GlobalIds`, `Keys` and `Access` for Python's JSON, hashing
-- and lookups.
--
-- Not modelled: GraphQL syntax and execution of graphql-core and the modules that adapt it (_compat,
-- context, entry); the planning of deferred groups, the defer sinks and the consumer's futures of
-- incremental.py; the completion of interfaces and unions, of awaitables, the hoist channel, serial
-- mutation fields, @defer and @stream of completion.py and execute.py; the peer keys and
-- constructors of the steps; planning of fields and the hoisting pass of plan.py; the fixpoints
-- deduplicate and optimize of `Plan` in dag.py; building the cache key and the constraints of
-- directive variables; tracing and the semaphore; the SQL-emitting modules of pg other than
-- ordering, cursor and the pages of connection. Floats and tuples are not among the values, nor
-- objects whose class defines an `__eq__` of its own: an object of the host equals itself alone.
pub mod Prelude
pub mod Values
pub mod Constraints
pub mod Cache
pub mod Serving
pub mod Dag
pub mod Pg
pub mod Steps
pub mod Completion
pub mod Incremental
pub mod Loading
pub mod Samples

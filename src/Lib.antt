-- ===== src/Lib.antt =====
-- Atlas agent control plane: how a run moves, what lets it finish, and what bounds it.
--
-- The program executes a plan step by step. `stream` of
-- backend/api/app/application/agent_execution_machine.py dispatches on the phase of a run: it executes
-- a step, lets a critic reflect on it, replans, and at the end runs an acceptance chain (a command gate,
-- a scope audit, a coverage review) before it summarises. The tools that a step calls are limited by a
-- budget, ordered by the tags that they provide and require, cached, and retried, once a policy lets them
-- run. A todo board follows the steps of the plan. A queue of background tasks hands plans to a runner.
--
-- Files and code:
--   Prelude: what the parts share, namely Boolean tests, lists over native numbers, `dict` as an
--     association list, JSON payloads, `str.strip`, and a result that is a value or an exception.
--   Agent/Entities: backend/api/app/domain/agent_runtime/entities.py, the run state and its start.
--   Agent/Router: backend/api/app/domain/agent_runtime/router.py, `AgentStateRouter`.
--   Agent/Machine: agent_execution_machine.py, agent_execution_types.py and
--     agent_execution_event_writer.py of backend/api/app/application. Types holds the snapshot, the
--     events and the answers of the collaborators; Events the events of a reflection; Nodes
--     `_execute_node`, `_reflect_node` and `_replan_node`; Chain `_summarize_node` with its three stages
--     and their transitions; Run `_dispatch` and `stream`. Stages, Trace, Budget, Resume and Progress
--     hold proofs.
--   Acceptance/Config, Acceptance/Gate, Acceptance/Scope: the reading of a plan's `acceptance` and
--     `scope` (backend/api/app/application/acceptance_gate_service.py, coverage_review_service.py),
--     backend/api/app/domain/acceptance/gate.py and scope.py.
--   Tools/Budget, Tools/Cache, Tools/Deps, Tools/Resilience: tool_budget.py, tool_cache.py,
--     tool_deps.py and tool_resilience.py of backend/api/app/domain/agent_core, and the use of the budget
--     in `_execute_with_budget` and the batch loop of backend/api/app/application/agent_loop.py.
--   Agent/Loop: `run_step`, `_run_loop` and `_plan_batches` of backend/api/app/application/agent_loop.py,
--     the turns of a step over the plan of Tools/Deps and the calls of Tools/Budget.
--   Agent/Context, Agent/Granularity: context_budget.py and plan_granularity.py of
--     backend/api/app/domain/agent_core.
--   Tools/Policy: `ToolPolicyEngine` of backend/api/app/application/tool_runtime_support.py and
--     backend/api/app/core/module_policy.py.
--   Tools/Runtime: backend/api/app/application/tool_runtime.py, with the parts of a call in
--     Tools/Runtime and `_execute_one` and `execute` in Tools/Runtime/Execute. A record `Runtime` holds
--     what a runtime is made of and a `RuntimeState` what its calls change, with the tools whose handlers
--     ran. Permitted, Clean and Replay hold proofs.
--   Tasks/Entities, Tasks/Queue: backend/api/app/domain/tasks/entities.py and
--     backend/api/app/infrastructure/tasks/local_queue.py, its two tables as lists of rows. Calls makes
--     each operation a step, and a history is a list of calls; Histories, Contract and Recovery prove the
--     contract of backend/api/app/domain/tasks/queue.py for messages, Table and Retry that for tasks.
--   Tasks/Runner: backend/api/app/application/agent_task_runner.py, from a message to its
--     acknowledgement, with the calls that others make of the queue while a plan executes.
--   Todo: backend/api/app/domain/agent_core/todo.py; Todo/Service and Todo/Sync:
--     backend/api/app/application/todo_service.py, the replay of the events and the marks that it adds.
--   Memories/Lifecycle: backend/api/app/domain/memories/lifecycle.py over the rows of
--     backend/api/app/infrastructure/repositories/memory_repository.py. A confidence is a number of
--     units; the exponential and the rounding are parameters.
--
-- How the model corresponds to the code. A function that may raise answers `Result`: `ok` with the value,
-- `err` with the exception's text. A node answers the events that it yields and the snapshot of its
-- NodeTransition. What the executor, the critic, the replanner, the gate, the auditor, the reviewer and
-- the summarizer answer is an argument, one `Answers` for each node, so that a statement over all lists of
-- answers is one over all behaviours of the collaborators. `stream` takes as many nodes as there are
-- answers; a list that is too short gives a prefix of the run. The parsers of UUIDs, Python's `str` of a
-- payload value, `fnmatchcase` and `str.lower` are parameters. A UUID is a number, and a time or a delay is
-- a number of ticks.
-- Calls that run in parallel are started in order, and each is answered at once or suspends in the
-- runtime, itself (a parameter) or on the lock that an earlier one holds; those that suspend are recorded
-- after all have started.
--
-- Fuel. The loop of `plan_parallel_batches` runs on as much fuel as there are calls, and each round
-- takes one call at least; the proofs of Tools/Deps carry that this is enough. The loop of `compress` runs
-- on the sum of what can be tightened, `fuel_of`, from which each round takes at least one. The turns of a
-- step and the retries of a call run on the limits that the settings give them. The other loops are
-- structural.
--
-- Not modelled: streamed text, reasons of results, stage summaries, the search that words a dependency
-- cycle, the topology check of a todo board, the hash of a cache key, the checks of arguments and the
-- redaction and storing of outputs (parameters of a runtime), sleeping between retries, the strategies
-- that talk to a model, tasks that end while the runner asks the queue, the Redis adapter of the queue,
-- the start and stop of the runner's loop, the HTTP routes, the database, the clients of models and
-- search, the other parts of memories, retrieval, the sandbox and the user interfaces.
pub mod Prelude
pub mod Tools
pub mod Acceptance
pub mod Agent
pub mod Todo
pub mod Tasks
pub mod Memories

-- ===== src/Lib.antt =====
-- Autonomous Enterprise AI OS: the control plane of a platform that runs agents over the data of
-- an enterprise. The paths below are from the root of the repository.
--
-- A run is a task with its records: artifacts, graph nodes and events. The repository
-- (src/aeai_os/runs/repository.py) keeps them, and with them the workflow jobs: workers claim a
-- queued job, send heartbeats, and report completion or failure; a failed job is requeued while
-- it has attempts left and is then a dead letter, which an operator retries or dismisses; a job
-- whose heartbeat is too old is recovered. A planner hands over an execution graph, which is
-- validated before anything runs (src/aeai_os/orchestration/graph.py). Before an agent uses a
-- tool, the policy decides (src/aeai_os/security/policy.py), and what is stored is redacted
-- (src/aeai_os/security/redaction.py). The orchestrator (src/aeai_os/orchestration/service.py)
-- runs the nodes of the graph in rounds: it asks the policy for the tools of a node, calls the
-- node's agent, writes the node and a checkpoint, and waits where a person has to decide. The
-- queues (src/aeai_os/workflows/queue.py) hand the jobs to the workers, over the repository
-- alone or with an index in Redis.
--
-- The files:
--   Base, Base/*: tests, lists, `dict` as an association list in insertion order, texts, and
--     the results of actions that may raise.
--   Json: the values of `dict[str, Any]`. Numbers are natural numbers.
--   Platform: what Python's library does for the program (regular expressions, URLs, the clock,
--     `str` and `int`, fnmatch). It is a parameter of every definition that needs it.
--   Redaction, Redaction/Clean: src/aeai_os/security/redaction.py.
--   Runs/Models, Runs/JobStatus, Runs/Errors: src/aeai_os/schemas/enums.py, the records of
--     src/aeai_os/runs/models.py and the exceptions of src/aeai_os/runs/repository.py.
--   Runs/Repository: the state of `InMemoryRunRepository`, the clock, and the methods on runs.
--   Runs/Jobs: the methods on workflow jobs. Records has what they share, Queue the enqueue and
--     the claims, Recovery the failures and timeouts, Outcomes the heartbeats, completions and
--     the work of the operator. Invariant, Ownership, Order, Retries and Timeouts are proofs.
--   Runs/Artifacts, Runs/History, Runs/Checkpoints: the methods on artifacts, on graph nodes and
--     events, and on checkpoints, with their proofs.
--   Orchestration/Graph: the validation of the execution graph, with its proofs below.
--   Agents: the interface of src/aeai_os/agents/base.py.
--   Orchestration/State: src/aeai_os/orchestration/state.py, as a JSON object.
--   Orchestration/Service: src/aeai_os/orchestration/service.py. The parent has what its methods
--     share; Context, Decisions and Authorization ask the policy, Execution runs one node, Resume
--     is the loop, and Entry has execute_run, approve_node and retry_failed_node. The others are
--     proofs: Keeps, which parts write no graph node; Reading, which parts write nothing; Ensures,
--     what an action makes of the graph nodes;
--     Work, Picked, Attempts, Settled and Rounds, the attempts left; Termination, Started, Reports,
--     Completed and Allowed.
--   Security/Policy: the decision of the policy; Defaults has the default registry and the
--     registry of configured rules, Contexts the dumps. Priority, Decisions and Destructive are
--     proofs.
--   Workflows/Queue: src/aeai_os/workflows/queue.py; Simulation, Refinement and Claims are proofs.
--   Workflows/Worker: the class of src/aeai_os/workflows/worker.py.
--   Deployments/Approvals, Deployments/Policy: src/aeai_os/deployments/approvals.py but for the
--     request; Refusals is a proof.
--   Tests/*: small inputs and the theorems at them.
--
-- A method of the repository is an action: a function from the state to a result or an exception,
-- and the new state. The source holds a lock in each method, so the steps are whole methods.
-- Python's `dict`, a missing key and the exceptions are written out. A time is a number of
-- microseconds, and each reading of the clock moves it by a parameter.
--
-- An agent is a parameter: what it does to the repository, and its answer or exception. Redis is
-- a parameter too: what its two commands do to its data, with any answer or exception. So are,
-- for the worker, the two workflows and the check of the evidence after a run.
--
-- Redaction raises where the port of a URL with credentials cannot be read (Python's ValueError), so
-- it is a step that may raise in each method that stores what it redacts.
--
-- There are two kinds of fuel. The search for a cycle has one call more than there are nodes,
-- since each nested call adds a new node to the path. The loop of the orchestrator has a number
-- of rounds: one more than the attempts that the nodes have left is enough, since each round that
-- goes on uses one up. The pops of a claim from Redis are bounded in the source.
--
-- Not modelled: restore_run, list_runs and the evaluations of the repository, the validators of
-- pydantic, spans and logs, the SQLAlchemy repository, the two workflows and the functions that
-- enqueue them, the choice of a queue from the settings, the request for a deployment, the
-- language models, the HTTP interface, and the packages of agents, data, analytics and
-- visualization, which are drivers of databases, data frames and network services. In the state of
-- a run, a task that is no text is an error.
pub mod Base
pub mod Json
pub mod Platform
pub mod Redaction
pub mod Agents
pub mod Runs
pub mod Orchestration
pub mod Security
pub mod Deployments
pub mod Workflows
mod Tests

-- ===== src/Lib.antt =====
-- durallm is a gateway between coding agents and language model providers. It routes each request to
-- an endpoint, protects the endpoints by circuit breakers, fails over to another endpoint when one
-- fails, and keeps ledgers so that no tool call of an agent takes effect twice.
--
-- The parts, with the files that model them and the code:
-- - Breaker/Metrics: src/durallm/breaker/metrics.py, `SlidingWindowMetrics`; `record` is `record_call`.
-- - Breaker/State and Breaker/Circuit: src/durallm/breaker/state.py and circuit_breaker.py. A method is
--   a function on the record of the breaker's fields, and `Readings` holds what the clock and the
--   cluster store answer during the call. OPEN is `opened`. The events that the listeners were given and
--   what the cluster store was sent are fields, so theorems can speak of them.
-- - Breaker/Calls: a run is a list of calls of the methods, each with its readings.
-- - Breaker/Registry: src/durallm/breaker/registry.py.
-- - ToolLedger: src/durallm/agent/idempotency.py, the ledger in memory.
--   Persistence and Lifecycle say what stays in it.
-- - DurableStore: the durable operations and leases of src/durallm/storage/sqlite.py and
--   contracts.py. A table is a dictionary by its primary key. A method is one transaction, and one that
--   raises leaves the tables as they were, so the processes that share the database are a list of calls.
-- - Routing/Budget, Routing/Lanes, Routing/Keys: the stores that routing asks, in budget.py, resources.py,
--   cache.py and keys.py of src/durallm/routing.
-- - Classifier: src/durallm/classifier.py and models.py. Each `if ...: return` of `classify_failure` is a
--   rule, a function that answers or does not, and `classify` takes the first answer. Regex is a
--   backtracking matcher for the regular expressions of the source, by recursion on the expression;
--   Numbers writes those expressions in it. A failure holds the message in lower case, as the code
--   makes it, and a delay in seconds is a fraction.
-- - Streaming: src/durallm/streaming/parser.py, `SSEStreamParser` on bytes; Utf8 decodes a line.
-- - Continuation: src/durallm/continuation/store.py and models.py. A method on a session is a function of
--   the session that is there or is not, and the store is the dictionary of the sessions.
--   Waiting and Opening are about the handshake of checkpoint and acknowledgement.
-- - Execution/Attempts: src/durallm/execution/ledger.py, with the limits of policy.py.
-- - Execution/Deadline: src/durallm/execution/deadline.py; each reading of the clock is an argument.
-- - Routing/Selection: `select_candidate` of src/durallm/routing/router.py. What it asks the other stores
--   is a `View`; a score is a number in the order of the source's float.
-- - Pools: src/durallm/pools.py. Manager has the methods of `IsolatedPoolManager`, each with one reading of
--   the clocks; Routes has the default routes; View is what one pool sees of the
--   manager, Others and Isolation are about calls on the other pool.
-- - Cluster: src/durallm/storage/cluster.py without a Redis client. Tokens of a bucket are counted in units
--   of which the rate is a whole number for a millisecond.
-- - Execution/Executor: `execute` of src/durallm/execution/executor.py. A round of its loop is `round`, on
--   the variables of the loop (`Progress`); `Turn` holds what the round reads: the clock, and the answers
--   of the stores, of the budget, of the breaker's admission, of compaction, of the validator and of the
--   provider. `Flow` says whether a part of the round goes on, continues, returns or raises. The calls
--   on other components are kept in order in a list, as if a pool manager and an attempt store were
--   there; a call on the attempt store that raises is not modelled. Selection, the attempt ledger, the
--   deadline and the classifier are those of the other modules.
-- - Common: helpers. Tests: runs at concrete inputs.
--
-- Conventions. A method is one step: those of the source run under a lock, but for the cluster
-- store's. Times are natural numbers of milliseconds, where the source has floats of seconds; a rate is the exact fraction that
-- the source rounds to a float. A dictionary is an association list in order of insertion. The loops are
-- over lists and need no fuel, but for that of `execute`, which recurs on the list of the rounds to
-- come; Execution/Executor/Ends proves how many are enough. SHA-256, the reading and writing of JSON,
-- the clocks and what a breaker reads of the cluster store are parameters or inputs. Logging has no effect on the state and is left out.
--
-- Not modelled: the HTTP gateway, provider clients, the scores and hard constraints of the router, the
-- native streams of the executor and the costs in its ledger, protocol translation,
-- the assembler of wire streams, the older `classify_api_error` with its effects on the key pools, the
-- reading of HTTP headers, the sessions, attempts and lockouts of the SQLite store, the mirroring of the
-- cluster store into Redis, and the environment and files that the pools are filled from.
pub mod Common
pub mod Breaker
pub mod ToolLedger
pub mod DurableStore
pub mod Pools
pub mod Cluster
pub mod Routing
pub mod Classifier
pub mod Streaming
pub mod Continuation
pub mod Execution
pub mod Tests

-- ===== src/Lib.antt =====
-- The resilience and workflow core of a multi-tenant agent platform, as its Python code in libs/
-- has it. Services call their tools and their databases through the adapters, which break
-- circuits, retry, limit rates and isolate load; workflows run as sagas, which undo the steps done
-- when a later one fails, and their specifications are merged and validated when they are loaded;
-- events go through a store, and those that cannot be delivered through a dead-letter queue; quotas
-- and cost ceilings decide which tenant may do more; a request to a service has a timeout, may be
-- hedged and is cancelled at all its services; a region that fails is replaced by another. Each part
-- keeps its own state and is reached by calls only, so that the parts are modelled one by one: a part
-- that calls another takes what comes of that call, or calls its model (Resilience/ToolAdapter).
--
--   Prelude       the names that all modules share: Boolean tests, lists, integers, dicts
--   Adapters      libs/adapters: CircuitBreaker (circuit_breaker.py), RetryPolicy
--                 (retry_policy.py), RateLimiter (rate_limiter.py), Saga (saga_pattern.py)
--   Reliability   libs/reliability: SagaManager (saga_manager.py)
--   Resilience    libs/resilience/tool_adapter_base.py: CircuitBreaker, BulkheadPool, ToolAdapter
--   Events        libs/events: DlqHandler (dlq_handler.py), EventStore (event_store.py), Lock
--                 (the asyncio.Lock that both hold)
--   Clients       libs/clients: QuotaEnforcer (quota_enforcer.py), Http.CoordinatedCancellation
--                 (http/coordinated_cancellation.py), Http.TimeoutManager
--                 (http/timeout_manager.py), Http.RequestHedging (http/request_hedging.py)
--   Workflows     libs/workflows/workflow_loader.py: WorkflowLoader with the search for cycles
--                 (Cycle), the validation, the merges, the documents, the loading and the
--                 mutations; Json (the parsed values)
--   Infrastructure libs/infrastructure: FailoverManager (failover_manager.py)
--   Performance   libs/performance: CostCeilingManager (cost_ceiling_manager.py)
--   Utils         libs/utils: ResiliencePatterns (resilience_patterns.py)
--   Tests         runs on concrete inputs, and each theorem with hypotheses at one of them
--
-- A module is named after the class or the file that it models. A record has the attributes of the
-- class under their names, and a definition has the name of its method, without a leading
-- underscore. A method takes the record and returns the record after it, with its answer. What it
-- reads from outside is an argument: the clock, the random draws, what the function that it awaits
-- returns or raises (Result), what Redis, the database and the event bus answer. Log lines change no
-- state and are left out.
--
-- A method that awaits in the middle is cut there: a circuit breaker's call is admit and one of
-- settle_ok and settle_err (on_success and on_failure in Resilience), and the theorems on
-- runs let the pieces of any number of calls interleave. Other operations run without an
-- interruption, which is said where they are defined. A lock that is not reentrant is modelled where
-- a task may wait for a lock that it holds: such an operation is stuck, and all later ones with it.
--
-- Numbers: floats are whole numbers of a unit that each file names (milliseconds, seconds, cents,
-- thousandths of a token, hundredths of a ratio), so that there is no rounding but where a file says
-- so; Python's ints are unbounded as the naturals are. A difference that may be negative is an
-- integer (Prelude/Int), or the comparison is written with the subtraction on its other side. Dicts
-- are association lists in the order of insertion (Prelude/Dict).
--
-- Fuel: a Python loop over a list or a range is a recursion on the list or on the passes left.
-- attempts_from has fuel for tenacity's loop, which is given the number at which tenacity stops.
-- has_cycle has fuel for the depth of the search, which is given the number of step ids and of
-- transitions: each nested call visits a new one of these names, so that it never runs out. No other
-- definition has fuel.
--
-- Not modelled: the cancellation of tasks from outside; the loops that sleep and repeat a round for
-- ever, with the start and the stop of their tasks; the write-ahead log of the tool adapters and
-- the hash of their keys; the adapters for HTTP and databases, health checks and timeouts of the
-- adapters; the YAML files of the workflow loader; the listings, statistics and recommendations of
-- the cost ceilings, which are queries in SQL; the router, security, contracts, the rest of the
-- performance library, of the infrastructure and observability; the services under apps/, the
-- migrations, scripts, tests and the front end. event_types.py does not define the class of the
-- events that the store and the queue import, so that its conversions are parameters there.
pub mod Prelude
pub mod Adapters
pub mod Reliability
pub mod Resilience
pub mod Events
pub mod Clients
pub mod Workflows
pub mod Infrastructure
pub mod Performance
pub mod Utils
pub mod Tests

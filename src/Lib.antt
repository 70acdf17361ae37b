-- ===== src/Lib.antt =====
-- Nova: the core that runs tasks, guards actions and routes work to AI providers.
--
-- Parts and files. The task engine (core/queue) keeps tasks in a database, picks the next one and runs
-- it through an executor. The permission gate (core/permissions) decides whether an action of an
-- executor may proceed, and keeps approvals that the owner gives once. The provider router
-- (models/router) serves a request by the best provider that can, and keeps a circuit breaker for each.
-- The scheduler (core/scheduler) creates tasks when the time of a job has come. A skill's tool
-- (core/skills) acts only through the runner, which asks the gate and keeps a ledger of side effects.
-- The privileged broker (workers/privileged-broker) runs administrator operations, and checks the
-- owner's approval again itself. The notifier (core/notify) throttles the messages to the owner. The updater
-- (core/supervisor) replaces the program by an approved version, or brings the old one back.
--   Prelude, Exec, Json      shared names; methods that change a state and may raise; JSON values
--   Db                       the rows of core/db/models.py and the database
--   Queue/States             core/queue/states.py
--   Queue/Store              core/queue/store.py, with Steps, Control and Messages for its methods;
--                            the other files below it hold lemmas
--   Queue/Engine             core/queue/engine.py: Work and Context for TaskContext, Require for its
--                            gate, Execute for TaskEngine._execute and run_once
--   Permissions              core/permissions: Engine, Audit, Approvals for requests, Decide for
--                            decisions, single use and expiry
--   Routing                  models/router: Provider for the types, Circuit for circuit.py, Registry
--                            for capabilities.py, Router for router.py
--   Scheduling               core/scheduler: Times for next_occurrence of parse.py, Schedules for
--                            store.py, Runner for runner.py
--   Skills                   core/skills: Ledger for ledger.py, Api for api.py, Loading for
--                            registry.py, Prepare and Runner for runner.py
--   Broker                   workers/privileged-broker: Ops and Handlers for ops.py, Approvals for
--                            approvals.py, Server for server.py
--   Notify                   core/notify/notifier.py
--   Updater                  core/supervisor/updater.py
--   Tests                    the theorems at concrete inputs
--
-- How the code is read. A method that reads or writes the database is a function from the database to
-- a result and the database; what was written before an exception stays written. A function of the
-- models has the name of the method it models; a helper that takes the row that was looked up has the
-- method's name with `_row` or `_found`. A view of a row is the row. Times are natural numbers, read
-- from a clock that stands in the state; ids and priorities are natural numbers. An executor is three
-- arbitrary functions on the state; `others` is what other coroutines do to the engine while a
-- checkpoint waits. A provider's adapter is two arbitrary functions on the router's state. Hashing,
-- redaction of secrets, methods of str and the text of an exception are parameters of the gate.
-- Windows, git and the hooks of the supervisor are operations on an arbitrary state.
-- A session that an exception leaves is rolled back, which the model takes from SQLAlchemy: `transition`
-- then gives the database that it began with. Its keyword arguments are the columns that the program's
-- calls of it set, and a name that is no column. A local time of the scheduler is what the clock on the
-- wall shows.
--
-- Loops are recursion on a list, but for the retries of one provider: that loop runs on fuel, the sum
-- of the retries that the configuration allows, since each further call uses up one of them.
--
-- Left out: the polling loop around a round of the dispatcher, the pipe of the broker, the loop of
-- the supervisor, cancellation by asyncio, failures of the database itself, the column updated_at,
-- log lines and the texts of messages to the owner; all other parts of the program, which are
-- clients of services and of the operating system, or prompts.
pub mod Prelude
pub mod Exec
pub mod Json
pub mod Db
pub mod Routing
pub mod Scheduling
pub mod Skills
pub mod Broker
pub mod Notify
pub mod Updater
pub mod Queue
pub mod Permissions
pub mod Tests

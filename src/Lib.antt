-- ===== src/Lib.antt =====
-- PoundCake: the decisions of its control plane.
--
-- An alert makes an order; an order runs a recipe as a dish; a dish is a list of service executions
-- (rows of dish_ingredients). Cook advances a dish by one segment of rows at a time, the expediter
-- runner executes them, Timer polls and reconciles them and asks Cook to advance, and the end of a
-- dish settles its order. Every call passes the authorization of the API. The parts:
--
-- - Status: api/core/statuses.py and api/plugins/state.py, the statuses of executions and orders,
--   their transitions and the verdict on an outcome. Json: decoded JSON and the comparison of
--   outcomes of api/plugins/contract.py.
-- - Tables: the rows of api/models/models.py.
-- - Segments: kitchen/execution_segments.py, which rows of a dish run next.
-- - Cook: api/api/cook.py. `plan` is the decision of _advance_dish; Cook/Claim has the writes of
--   the claim and of the finished dish, Cook/Finalize what follows for order and scheduled task,
--   Cook/Suppress the end of a dish whose alert is suppressed.
-- - Dishes: api/api/dishes.py with the claimability of api/api/expediter.py; Dishes/Routes has the
--   transactions (claim, release, reconcile) as functions from the rows to a reply with the rows
--   that are committed, or an HTTP error, which rolls back.
-- - PreHeat: api/services/pre_heat.py, what one alert does to the orders, as a function from the
--   orders, newest first, to the reply and the orders after it (PreHeat/Process), and the attempts
--   around it, whose errors are given as data (PreHeat/Retry).
-- - OrderTypes: api/services/order_types.py, the type of an order in its raw_data.
-- - Suppressions: api/services/suppression_service.py. The root has the windows, the matchers and the
--   choice of a suppression, Suppressions/Events the saved events and their statistics, and
--   Suppressions/Lifecycle the pass over expired suppressions, on a store of events, summaries and
--   orders.
-- - ScheduledTasks: api/api/scheduled_tasks.py. The root has creation and the run-now request,
--   ScheduledTasks/Changes the claim, the changes, the disabling and what the intake of an order does
--   to its task (api/services/order_intake.py), and ScheduledTasks/Lifecycle all of these and the end
--   of a task's order (api/api/cook.py) as a step relation.
-- - Dispatch: api/services/dish_planner.py, the rows that a recipe gives a dish; Dispatch/Orders and
--   Dispatch/Transaction have _dispatch_order_once of api/api/orders.py, as a function from the
--   kitchen to the committed kitchen or an error.
-- - Timer: kitchen/timer.py. The root has _poll_row with the routes of Dishes that it calls,
--   Timer/Context the context updates that an outcome carries, Timer/Groups the group of rows that
--   lie in one bucket of a dish with the cancellation of the rows behind a failure, and
--   Timer/Monitors the passes. Dishes/Listing has the list of a dish's rows that Timer reads.
-- - Incidents: api/plugins/bakery/incident_reconciliation.py, the pass that compares active orders
--   with the alerts of Prometheus and the tickets of Bakery. Incidents/Notes has the metadata that a
--   step keeps on its ticket's notes, Incidents/Alerts the match of alerts, Incidents/Tickets the read of a
--   ticket and its notes, Incidents/Reopening its reopening or successor, Incidents/Reconciling the
--   two loops over an order's tickets, and Incidents/Pass the order and the pass.
-- - Runner: kitchen/expediter_runner.py, _execute_row with the routes of Dishes that it calls.
-- - OrderLife: the intake, the dispatch, the end of dishes, suppressions, the pass over expired
--   suppressions and the reconciliation as steps of one relation on the kitchen. OrderLife/Stages has
--   four stages, which the eight statuses of an order are seen as, and the edges between them. Other
--   work on dishes and rows is one step, of which it is assumed that it adds no active dish: the
--   routes change the dishes that are there (Cook, for one, sets a dish that it advances to
--   processing).
-- - Auth: api/services/auth_service.py, from the roles to ensure_request_authorized; Auth/Routes has
--   the route predicates and Auth/Access the decision. Auth/Areas lists the parts of the API that the
--   services work on.
-- - Prelude: numbers, lists and Python's text methods. Examples: the theorems at concrete data.
--
-- Choices. A column with a check constraint is a data type of its values; another text is a String.
-- Instants are seconds on one UTC clock, and columns never hold negative numbers, so numbers are the
-- naturals; where the source subtracts it bounds the result by 0 as the naturals do, or compares an
-- instant with one that lies lock_timeout_seconds back. The case methods of texts map ASCII. No
-- function takes fuel but the printing of a number, whose fuel exceeds its digits, and the loop of
-- attempts, which the source bounds by three. A transaction is one function; concurrent calls are
-- sequences of transactions.
-- Bakery is a function from the calls made so far to the answer to the last of them, so that it may
-- answer each call as it likes.
--
-- Not modelled: logging, metrics, the read-only lists of the API, sessions and identity
-- providers, plugins (their calls are input and output), the command line, the UI and deployment,
-- the retry around a dispatch and the payloads of its steps, the queries of the communication
-- policy, the texts of notes and tickets, the routes of suppressions with their synchronisation,
-- the creation of orders by hand beyond the write of their task, the tasks that plugins register
-- or write (api/services/plugin_bootstrap.py, api/services/plugin_operations.py), and the refusal
-- of a request's body by its schema (422). What these return is a parameter where modelled code
-- uses it, as are re.search, the digest of a payload and the validation against a schema.
pub mod Prelude
pub mod Json
pub mod Status
pub mod Tables
pub mod Segments
pub mod Cook
pub mod Auth
pub mod Dishes
pub mod OrderTypes
pub mod PreHeat
pub mod Suppressions
pub mod ScheduledTasks
pub mod Dispatch
pub mod Timer
pub mod Runner
pub mod Incidents
pub mod OrderLife
pub mod Examples

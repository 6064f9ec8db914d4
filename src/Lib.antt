-- ===== src/Lib.antt =====
-- Verification of lapinq, a task queue over PostgreSQL: the Python package python/lapinq. A file
-- below is `<Module>.antt` beside this one; a path is from the root of the repository.
--
-- The parts of the program and how they interact. A client (python/lapinq/client.py) posts a task to
-- the HTTP server (python/lapinq/server.py), which checks the request and stores a row through
-- `Storage` (python/lapinq/storage.py). Workers (python/lapinq/worker.py) claim pending rows, run the
-- user's function in a process of its own or inline (python/lapinq/execute.py), and report its end
-- through `Storage` again. The scheduler (python/lapinq/scheduler.py) enqueues rows by cron expressions.
-- All parts meet only in the tables, so the storage is modelled first: a table is the list of its rows
-- in the order of insertion, and a statement is a function from the table to its answer and the next
-- table.
--
-- Which file models what:
--   Prelude        shared names, Boolean tests, lists, signed integers, `UPDATE ... WHERE`, look-ups, texts
--   Json           the values of Python's json module and of JSONB columns
--   Storage/Task   the table lapinq_tasks; Storage/Enqueue, Batch, Claim, Finish, Retry, Expiry, Queries
--                  model the methods of `Storage` of these names; Storage/Lifecycle has every statement
--                  as a step `Op` and a history as a list of steps
--   Storage/Migrations  _apply_migrations with MIGRATIONS (storage.py); Storage/Connection: Storage.create
--   Storage/Users  the table lapinq_users, passwords, log-in, the list of the users (Shown)
--   Scheduler      _parse_cron and _should_run (Cron), Scheduler._tick (Tick)
--   Worker         execute_task and execute_task_inline, the latter with its twin in src/lib.rs (Execute);
--                  process_task and subprocess_execute (Process); the loop of _worker_loop as a step
--                  relation with its semaphore (Loop); any number of workers on one table (Fleet)
--   Server         RateLimitMiddleware (RateLimit), session tokens, AuthMiddleware and
--                  DashboardAuthMiddleware (Session), log-in (Login), the handlers enqueue (Enqueueing),
--                  enqueue_batch (Batching), of lists and deletion (Listing), of one task (Handlers), and
--                  those that write the users (Administration), and metrics (Metrics); ws_endpoint,
--                  its page (Page) and its conversation (Socket); _serialize_task and _format_ttl (Remaining)
--   Client         TaskQueue.task with its payload (Payload), TaskRef.wait against the handler that it
--                  polls, and both with a server and a worker between them (Delivery)
--   Dashboard      _queue_cards_html and _tasks_table_html (python/lapinq/dashboard.py)
--   CommandLine    the command `lapinq task` (python/lapinq/__main__.py)
-- Children of these modules are named for what they prove; the modules Examples and Samples have the
-- tests and the sample runs.
--
-- Representation. Identifiers are natural numbers. Instants are whole microseconds from a fixed epoch
-- (in Server/Session, whole seconds; in Server/Remaining the epoch is datetime.min); delays and TTLs are
-- integers in microseconds; a float of the API is a whole number of millionths. Texts that the code takes
-- apart (cron expressions, passwords, tokens, paths) are lists of code points, others are strings.
--
-- What comes from outside is an argument: the identifiers and the instants that PostgreSQL draws, the rows
-- that other transactions hold (`locked`, which SKIP LOCKED passes over), PostgreSQL's ILIKE, `||` on
-- JSONB, the text of a JSONB value and its collation, the user's modules and functions, PBKDF2, HMAC,
-- Base64 and the JSON text of a token, float(text) and datetime.fromisoformat, str() of a JSON value. The
-- hypotheses on them are that an encoding is undone by its decoding and avoids the separators, and that a
-- collation is a total order; each has an instance among the examples.
--
-- Bounds and fuel. There is fuel in `range_from`, the members of a Python range, for which the number of
-- values between the bounds is enough since the step is at least one, and in `decimal_from`, for which
-- the number itself is enough since it has no more digits than its value and one. Storage.create recurs on its
-- own count of attempts. Every other loop is structural: over rows, characters, requests, polls,
-- migrations. Numbers are unbounded, but for the 32-bit check that the driver makes of max_retries and
-- priority in Server/Enqueueing and the 64 bits of a LIMIT in Server/Listing.
--
-- JSON bodies are modelled without the literals NaN and Infinity, which Python reads too, but for the
-- progress of a task (Server/Handlers). Whether Starlette's JSONResponse writes a NaN is an argument.
--
-- Not modelled: failures of the connection, DB_TIMEOUT and transactions, except where a theorem speaks of
-- an error of a statement; archive_old_tasks, whose DELETE ... LIMIT PostgreSQL refuses; the overflow
-- of INT columns in other places; the timers of the heartbeat, recovery, clean-up and scheduler loops; the
-- connection that LISTENs; the handler health; the templates of the pages, with
-- their CSS and JavaScript; argparse, the commands that start a process, and log.py; the worker
-- in src/main.rs.
pub mod Prelude
pub mod Json
pub mod Storage
pub mod Server
pub mod Scheduler
pub mod Worker
pub mod Client
pub mod CommandLine
pub mod Dashboard

-- ===== src/Lib.antt =====
-- Verification of WOMS, a work-order management service: its scheduler, its in-memory store,
-- its tokens, and the worker that runs schedule jobs against the database.
--
-- The program. An order is created by sales, planned on the days of a production line, produced and
-- confirmed. internal/scheduler/scheduler.go is a pure planner. internal/api/server.go holds the state
-- (`MemoryStore`) under one mutex: the HTTP handlers call its methods, which validate, write orders,
-- allocations, previews, jobs, users and audit entries, and bump the revision of a line. A preview runs
-- the planner and stores the plan; a job is created for an unchanged preview, and its execution runs the
-- planner again, splits orders that need several days, and stores the allocations. With a database the
-- jobs are run by cmd/scheduler-worker/main.go instead: it takes a job from a message or from the
-- backfill, locks the line in Redis (internal/lock/redis.go), and runs the job in one transaction, which
-- persists the allocations of its preview and either completes it, puts it back, or fails it.
--
-- The files.
-- - Base (and Base/*): results, maps keyed by text, lists, decimal texts, tests.
-- - Clock (and Clock/Calendar): Go's time and the date helpers. A time is the number of nanoseconds
--   since the start of the year 0, in UTC; dateKey is the number of the day.
-- - Domain: internal/domain/types.go. The strings of roles, priorities and statuses are constructors.
-- - Scheduler: internal/scheduler/scheduler.go. Types, Sorting (sortedOrders), Ledger
--   (buildCapacityLedger, availableCapacity), Plan (Plan, planOrder, estimateFinishDate, the
--   conflicts), Confirm (ConfirmProduction); the others prove.
-- - Api: internal/api/server.go. Requests and State (the types, MemoryStore, audit and revisions),
--   Validation, Allocations, OrderIds (nextRemainderOrderID), Orders, Production, Users, Inputs and
--   Planning (planLocked), Splits (persistAllocationsLocked), Jobs, Previews (ConfirmPreviewOrder),
--   Views (calendar and history), Operations (all of them as types); Lifecycle, Evolution, Freshness,
--   Persisting, JobOutcome, Creating, Confirming and Accounts prove. Demo, HpaDemo and HpaSummary are the
--   initial store, with internal/api/demo.go, and the demonstrations; HpaClear, HpaRestore and References
--   prove.
-- - Auth: internal/auth/jwt.go (Token: CreateToken, VerifyToken, BearerToken),
--   internal/auth/password.go (Passwords) and the session store in memory of
--   internal/api/token_session.go (Sessions) and the one in Redis (RedisSessions); RoundTrip and
--   RedisCalls prove. HMAC, bcrypt, SHA-256, base64, JSON and
--   the digest of a token are parameters.
-- - Http: the server of internal/api/server.go. Messages (zhUserMessage), Store (the interface, and
--   MemoryStore as one), Server (claimsFromRequest, writeError and the helpers of the handlers),
--   Handlers and Scheduling (the handlers), Routes (routes, ServeHTTP), Access (a table of who may
--   change the store); Guards, RouteGuards, OrderRoutes, ScheduleRoutes, Admission, LoggedOut and
--   Unpublished prove.
-- - Startup: internal/startup/startup.go (RetryDependency, SplitCSV, PingAnyTCP).
-- - Healthcheck: cmd/healthcheck/main.go, with its client as an argument.
-- - Lock: internal/lock/redis.go. Protocol (command, readValue, and their copies in
--   internal/api/token_session.go), Provider (the interfaces), Redis (Acquire, Refresh, Release);
--   RoundTrip, Documented and Exclusion prove.
-- - Worker: cmd/scheduler-worker/main.go. Database (the tables of db/migrations/001_init.sql,
--   transactions and faults), JobStore (the statements on jobs), LineSchedule (persistLineSchedule),
--   PreviewSchedule (persistPreviewAllocations), JobRun (runLockedJobState, processDBJobLocked),
--   Delivery (processJobPayload, acquireLineLock, startLockRenewal, runMessageLoop), Backfill,
--   Environment and Config (the configuration). Effects, JobRows, Persisting, Endings, Steps, Healthy and
--   the rest prove; Ticket is what a client sees of a job.
-- - Tests: the theorems at concrete inputs.
--
-- How the code is read. The mutex makes an operation a function from the state to the state and its
-- answer; an error that comes after a write keeps the write. An operation reads the clock once. A
-- function that returns an error has a `Result`. Maps are association lists, and a range over a map
-- takes their order; sort.Slice and sort.SliceStable are a stable insertion sort. Numbers of requests
-- are integers, stored quantities are natural numbers, and sums of them stay below 2^63. What the code
-- takes from outside is the record `Env`: the clock, the time zones, the cryptography of passwords, the
-- digest of a request.
--
-- The worker. An SQL statement is a function on the tables, which runs unless its transaction is
-- aborted or the statement has a fault: a list of faults to come stands for lost connections, cancelled
-- contexts and violated constraints. A fault aborts the transaction, whose later statements and commit
-- then fail, as in Postgres; a commit that fails changes nothing. NULL is the empty text or the zero
-- time. Timers are inputs: how often one fires before a context is over. The Redis server is a
-- parameter, a function from the arguments of a command to the bytes of a reply, with what its
-- documentation says, for times to live that it takes, as the hypotheses `IsRedis`, `ForgetsSessions`
-- and `KeepsSessions`; the tests hold a server that has them. The renewal of a lock during a run changes the locks; that a failed one cancels the run is
-- one of the faults.
--
-- The HTTP layer. A request is its method, path, Authorization header, query and body; a reply is its
-- status and the value that is encoded as JSON. The store, the sessions, the codec of tokens, the
-- publisher and the JSON reader are fields of the server. Errors of a token are told apart by their text.
--
-- Fuel. The loops of the planner run on `search_bound`, one more than the quantities that are booked
-- from the day on and twice the quantity of the order; the search for an order ID runs on one more than
-- the number of IDs in use. A round of the planner either passes a full day, which uses up booked
-- quantity, or allocates a part of the order; and of one more different candidates than there are IDs
-- one is free.
--
-- Not modelled: the headers of replies, the counters of requests, the Postgres store of the API, the publisher, metrics, the wiring of
-- the commands, opening connections, the web client. They are I/O around the modelled parts or repeat
-- them in SQL. The conversion of a suffix beyond 2^63 - 1 in nextRemainderOrderID is an error as in the
-- source, but the next number is not wrapped. The loop of the backfill runs on fuel.
pub mod Base
pub mod Clock
pub mod Domain
pub mod Scheduler
pub mod Startup
pub mod Healthcheck
pub mod Http
pub mod Lock
pub mod Worker
pub mod Tests
pub mod Api
pub mod Auth

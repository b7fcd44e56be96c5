-- ===== src/Lib.antt =====
-- WoL-Monkey wakes machines over the network: a FastAPI application with a setup wizard, accounts,
-- API tokens and a list of machines, and a worker process that takes wake jobs from a table of the
-- same database. This library models the Python code below app/, worker/ and migrations/versions/.
--
-- Parts. An endpoint (app/api) checks its request (app/security), and calls a service
-- (app/services), which reads and writes rows through a repository (app/persistence) and reaches
-- the network through app/infra. The endpoint POST /machines/{id}/wake commits a pending attempt
-- and enqueues a job; the worker (worker/main.py) claims the job (worker/job_queue.py), wakes the
-- machine by the same service, and follows it until it is online or its time is over.
--
-- Files.
--   Common, with Lists, Members and Dict below it: Boolean tests, lists of rows, dictionaries.
--     Common/Text: the methods of Python's texts that the program uses, and `int` of a text.
--   Domain: the statuses, strategies and probe states of app/domain; the records of
--     app/domain/ports.py, which stand for the rows of app/persistence/models.py too; and in Ports the
--     repository interfaces.
--   Host: what the program calls and does not implement. IsLawful says what is relied on: generated
--     UUIDs are canonical and differ, and the clock does not run backwards.
--   World: the tables as the session sees them and as they are committed, the calls made to the
--     outside, the time slept, the packets sent, the limiter's buckets.
--   Exec: a coroutine takes the world and returns or raises; what it wrote before an exception stays
--     in the session until a rollback. with_session is get_db_session of app/persistence/database.py.
--     Exec/Saved: which actions leave the committed tables alone; Exec/Reads: which change nothing;
--     Exec/Keeps: which keep a property of the tables.
--   Persistence: one module for each repository of app/persistence/repositories.py, with the methods'
--     names, and the table's constraints where a row is flushed. Ports: how they implement the
--     interfaces. Persistence/Machines/Flush and Table: what the constraints keep true.
--     Persistence/Links: the foreign keys that name a machine or an attempt.
--   Migrations: the revisions of migrations/versions as lists of operations (Initial, Revisions), the
--     operations on a database (Schema, Database, Tables) and the tables that
--     app/persistence/models.py declares (Models). Head compares the two; Owners, Strategies and
--     Installed follow the rows.
--   Infra: app/infra/wake_strategy.py (Strategy, Packet) and app/infra/state_probe.py (StateProbe).
--   Services: app/services/wake.py, ensure_online.py, auth.py (with app/security/password.py and
--     tokens.py), setup_state.py and settings.py, with the methods' names. The settings service takes
--     any repository of its interface; the others call the SQL implementations.
--   Worker: worker/job_queue.py (Queue) and worker/main.py (Process). Queue/Workers: the same
--     claims made by several workers, each in two steps, with the row locks of the database.
--     Process/Round takes a job from the request to the end of the worker's round. Process/Jobs: a
--     job leaves the table of jobs alone while it runs. Process/Follow: a job that follows its
--     machine. Process/Fuel: how much fuel is enough. Process/Shutdown: the end of the worker's
--     loop.
--   Api: app/security/dependencies.py and csrf.py (Security), _check_login_rate of app/api/auth.py
--     (RateLimit), the endpoints of app/api/auth.py, setup.py, machines.py and wake.py. Api/Atomic
--     gathers the endpoints that answer in one session. Api/Web: the wizard of app/api/web.py, and in
--     Forms its login and the pages behind it; Gate, Views, NewMachine, Edit, FirstAdmin and Groups hold
--     their theorems. Api/System: app/api/system.py, with what it makes of one line (Lines), the
--     routing table (Routes), the counters (Flags) and the ARP table (Hosts); Addresses, Status and
--     Discovery hold the theorems. Api/App: the middleware and the error handlers of app/main.py.
--   Tests: the theorems at concrete inputs.
--
-- Conventions. A method that decides in the middle is cut into helpers at the decision. Times are
-- natural numbers of microseconds. The clock's reading is that of the host after as many calls, plus
-- the time slept. Ids are texts; a UUID column encodes a text by its canonical form, or raises.
--
-- Fuel. The polling of app/services/ensure_online.py takes fuel, one for each round, and answers none
-- when it runs out. The worker hands this on: the handling of a job, the round and the loop are then
-- unfinished, and no job is marked. Each round of the polling sleeps for five seconds, so the number
-- of rounds up to the deadline, and one more, is enough; this is proved, and in Worker/Process/Fuel
-- that for every host, job and world some fuel is enough, and more of it changes nothing. The worker's
-- loop takes a list that tells of each round
-- whether a signal arrives in it, and ends with the list at the latest.
--
-- A machine with attempts is not deleted: where a relationship has neither a cascade nor
-- passive_deletes, SQLAlchemy sets the children's foreign keys to NULL before it deletes the parent,
-- and the column machine_id of wake_attempts refuses this.
--
-- Simplifications. A template is the values that it is given, and a number in a form is a natural
-- number. The files below /proc/net are answers of the host. Only ASCII digits are read as digits. A
-- set of texts is a list in the order of insertion, so the order of an interface's addresses is one of
-- those that Python may give.
--
-- The operations of Alembic do what its documentation and PostgreSQL's say: one that is refused ends
-- the revision, and a revision that ends so is rolled back. A database is the list of its tables, the
-- newest first. The SQL of the revisions is a data type with one constructor for each kind of UPDATE.
-- autoincrement, and the indexes that a unique constraint makes, are left out.
--
-- Not modelled: HTTP itself, logging, SQLAlchemy's engine, migrations/env.py, the lengths of text
-- columns where a row is written, the two concurrent calls of a probe (they are made one after the
-- other), the commit that follows a failed insert of machine_new_post, the wiring of app/main.py and
-- app/config.py.
pub mod Common
pub mod Domain
pub mod Host
pub mod World
pub mod Exec
pub mod Persistence
pub mod Migrations
pub mod Infra
pub mod Services
pub mod Worker
pub mod Api
pub mod Tests

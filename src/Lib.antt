-- ===== src/Lib.antt =====
-- FlightPulse: a model of the telemetry pipeline and the theorems about it.
--
-- The collector polls OpenSky and posts batches of events to the load balancer, which forwards each
-- request to one of several ingestion services. These queue a job for each batch, and the worker
-- stores the events of a job in PostgreSQL. The replay player sends captured events the same way, which
-- an export has written; the fault scenarios break a part of the running system and watch it recover.
--
-- Files, and the code that they model:
--   Base            lists, dicts, sorting, text and results, as Python has them; Base/Chunks is also
--                   `chunk` of replay/player.py
--   LoadBalancer    Config, Metrics, Health, Router: load_balancer/config.py, metrics.py, health.py and
--                   router.py;
--                   Server with Proxy and Endpoints: load_balancer/server.py with the constants
--                   of config.py
--   Ingestion       Schemas, Routes: ingestion/schemas.py, ingestion/routes.py
--   Worker          Database: what is assumed of PostgreSQL; Persistence: worker/persistence.py;
--                   Processor: worker/processor.py; ExtractionLog: the functions of both files for
--                   the extraction log
--   Collector       Normalizer, OpenSky, Producer: collector/normalizer.py, opensky_client.py and
--                   producer.py, with Producer/Loop for run_forever and Producer/Environment
--   Replay          Player, ExportFixture, Report: replay/player.py, export_fixture.py, report.py;
--                   FaultInjection, with a child for each scenario: replay/fault_injection.py
--   Pipeline        one batch from the load balancer to the table, through the modules above
--   Tests           runs on small inputs
-- A module's children hold the lemmas about it, named for what they show.
--
-- State is passed explicitly. A class is a record with its attributes and a method a function on
-- it; what a lock protects is one step. A thread that runs at the same time is a list of steps
-- between those of the function at hand: the checks of the polling thread in Server, the events of
-- Health/History, the runs of Ingestion/Routes/Interleaving. What raises returns an `Option`, a
-- `Result` or a type of its own. The network, the database, the clock, random ids, floats,
-- pydantic's validation and SHA-1 are parameters: a function of the number of the attempt where a
-- call may answer differently each time, and for PostgreSQL the records `Database` and `LogTable`
-- with the documented behaviour of INSERT ... ON CONFLICT DO NOTHING RETURNING.
-- Worker/Database/Rows shows that `Database` can be met.
--
-- The producer's endless loop is run for any finite number of rounds. Loops are recursion on the
-- list or on the number of rounds that the code itself counts. Three functions have rounds of
-- their own: `slices` of Base/Chunks, where the length of the list is enough, `decimal_digits` of
-- Base/Format, where the number is, and `exponent_from` of Base/Double, where 64 are for any
-- double from 2 ^ -12 up.
--
-- Numbers are natural numbers where the code has counts; the values of an event are integers and an
-- abstract type of floats. Where the rank of a percentile is computed in doubles, Base/Double has their
-- rounding. Python's integers do not overflow.
--
-- The polling loops of FaultInjection, which end by the clock, have fuel: two rounds more than the
-- timeout has intervals, which is enough since each round sleeps for one. Times are in milliseconds.
--
-- Not modelled: HTTP and process plumbing (ingestion/app.py, worker/consumer.py, the constant
-- endpoints of the ingestion service), environment variables but the list of backends and those of
-- the producer, command lines, logging, printing and rates that depend on timing, starting
-- processes, and the SQL models of dbt. The load balancer's `proxy` blocks its event loop, so
-- requests to it follow one another; Ingestion/Routes/Interleaving interleaves those of one
-- ingestion service. In the fault scenarios the replay in the background is what its summary shows
-- at each round.
pub mod Base
pub mod LoadBalancer
pub mod Ingestion
pub mod Worker
pub mod Collector
pub mod Replay
pub mod Pipeline
pub mod Tests

-- ===== src/Lib.antt =====
-- The control plane of tenantflow, as definitions that run and theorems about them.
--
-- The program. A tenant's life is driven by workflows (internal/workflow), which an executor
-- (Temporal) runs: a workflow calls activities (internal/activities) one after another, and on an
-- error its deferred function calls the compensations. An activity reads and writes the
-- control-plane database (internal/repository) and calls two providers: one for tenant databases
-- (internal/cloud) and one for users (internal/identity).
--
-- The parts.
-- - Prelude: names and lemmas that all files share; a string is a list of bytes (Prelude/Bytes).
-- - Model: the records and constants of internal/model and internal/billing.
-- - World: the tables of the database, its answers to the statements to come, the providers' state,
--   and the monad of a call that changes them and may fail. What a failed call wrote stays written.
-- - Repository: the statements of internal/repository, one function each. A statement runs, is
--   refused, or takes effect while its answer is lost, as the world's list of answers says.
--   Repository/Memory is the quota store in memory (internal/billing/quota.go). Repository/Sorted has
--   the lemmas on ORDER BY and WHERE, Repository/Listed the order of the lists.
-- - Cloud: the names of databases, roles and files of internal/cloud/docker.go, the interfaces of the
--   two providers (internal/cloud/provider.go, internal/identity/provider.go), and in Cloud/Docker the
--   provider over Docker: how it runs a command (Client), its statements (Sql) and methods
--   (Operations), an abstract server (Server) with a reader of the statements (Reads), what the methods
--   promise of it (Promised, Spec), that they keep it (Simulation, Owned, Refines), what they refuse
--   (Guards), and the repair of a database by the activity over this provider (Repairs, Converges).
--   Cloud/Contents is a view of the databases behind the two providers, with those that a method
--   touches. Cloud/Journal puts a journal before any provider: what it was asked, and how it answered.
-- - Call, Strings: the monad of a call on any state, and functions of Go's package strings.
-- - Activities: internal/activities, one module for each file; Common has the error mapping that
--   the transitions of a status share.
-- - Workflow: internal/workflow, one module for each workflow. `Temporal` is the executor.
--   Workflow/Sweep is the loop of sweep.go: Ends has how a run ends, Batch which children a tick starts.
-- - Lifecycle: the step relation on worlds that every statement, activity and workflow follows
--   (Steps, Follows and the modules named for the parts), and what it preserves (Status, Records,
--   Integrity); Guarantees has the conclusions for whole runs.
-- - Contracts: rules for what holds behind a call whatever it answers and what its success tells,
--   with the contracts of transitions (Status), deletion and provisioning (Endings), the upgrade
--   (Plans, Upgrade), a reconciliation that cannot restore (Missing, Escalation) and a backup that
--   cannot be verified (Unverified). Stages has the rules for stages of a workflow. Migration and
--   Restoration, with their children, have the order of a run's requests to the provider, by its
--   journal.
-- - Isolation: which databases a run for one tenant may touch (Activities, Workflows, Deletion), and
--   that those of other tenants are kept (Tenants).
-- - Handlers: the endpoints of internal/handler/tenant.go that start or signal a workflow (Retry has
--   the answer to a retry); Guards has what they require of a tenant, Permitted puts these together,
--   and Replay joins the retry with the rows of the recorder. Reads has the endpoints that only show
--   something, ReadOnly that they do.
-- - Cost: internal/cost, the estimate and the collector; Cost/Measured has the queries of
--   internal/repository/tenant.go for it, the endpoint CostTenant and the loader of cmd/api/main.go,
--   and Cost/Agrees compares the endpoint with the metrics.
-- - Auth: the bearer token, the role and the routes of internal/auth and internal/router; Access has
--   who reaches a handler.
-- - Keycloak: internal/identity/keycloak.go; Retry counts its requests, Unauthorized has when a 401
--   surfaces.
-- - Config: internal/config/config.go; Accepted has what an accepted configuration satisfies.
-- - Worker: cmd/worker/main.go, the start of the sweep at boot; Worker/Interceptors has the chain of
--   interceptors that internal/worker/worker.go puts around an attempt of an activity.
-- - Chaos: internal/chaos, the choice of the activities to fail.
-- - Recorder: internal/instance/recorder.go, the mirror of the runs (Recorder/Mirror, Recorder/Rows),
--   and the queries of internal/repository/workflowinstance.go for failed runs (Recorder/Queue).
-- - Fixture: an executor with three attempts, a server with databases, files and users, a Docker host
--   with a container in which psql reads and performs statements (Fixture/Host), a server whose
--   databases have contents (Fixture/Disk), and worlds to start from. Tests: runs and instances of the theorems on them.
--
-- Conventions. A `(T, error)` is a `Result`; wrapping an error keeps its identity, so it is left
-- out, and so are messages but for those that the recorder stores. Dates are numbers, given by the database's clock at each statement. A
-- backup's id is the serial's next number. A quota's numbers are patterns of 64 bits (Go's int).
-- `deferred` compensations are written out at each return, at the values that their variables have
-- there. Functions are structural but for the loop of the sweep, whose fuel is the number of sweeps
-- that a run makes before it continues as new: the theorem on its end shows that this is enough.
--
-- Parameters. The executor (`Temporal`, with `TemporalLaws`: an execution is any number of runs of
-- the activity with steps of other workflows between), the two providers, the selector of the grace
-- period and the version marker of a deletion are arguments. The laws are met by the stand-in of
-- Fixture/Executor.
--
-- Beside these, the calls of the Docker client, the server behind psql (`RunsPostgres`, met by
-- Fixture/Host), HTTP with JSON, the verification of a token, the environment, the parsers of
-- numbers and the generator of random numbers are arguments.
--
-- Of Isolation the providers are arguments too, with the databases that each method may touch as
-- hypotheses, which Fixture/Disk meets. Of the requests of a migration and of a restore nothing is
-- assumed of the provider: what a request does to the data is not part of those theorems, and that an
-- answer can come before the work is done is a matter of the provider (internal/cloud/docker.go:317).
-- The server behind RunsPostgres has sessions that others have opened; none is opened between the
-- statements of one call. In Cost, float64 with its operations, the sizes of databases and the length
-- of 30 days are arguments.
--
-- Not modelled: log lines, metrics other than the cost and the counter of attempts, the wiring of the
-- processes and the load test, which call libraries and measure. The parsing of HTTP bodies, the
-- matching of paths and the OpenID flow stand in libraries. The scripts for dumps and restores in
-- Cloud/Docker are texts only. Keycloak's calls run alone: the mutex of the cached token, and what other
-- calls do between, are left out. Timeouts of an activity appear as what an execution may do.
pub mod Prelude
pub mod Model
pub mod World
pub mod Repository
pub mod Call
pub mod Cloud
pub mod Strings
pub mod Activities
pub mod Workflow
pub mod Lifecycle
pub mod Cost
pub mod Contracts
pub mod Isolation
pub mod Handlers
pub mod Auth
pub mod Keycloak
pub mod Config
pub mod Chaos
pub mod Worker
pub mod Recorder
pub mod Fixture
pub mod Tests

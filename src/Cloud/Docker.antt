-- ===== src/Cloud/Docker.antt =====
-- DockerProvider of internal/cloud/docker.go.
--   Client      the Docker client's calls, as parameters, and how a command is run in the container
--   Sql         the statements and scripts that the provider builds
--   Operations  the provider's methods
--   Server      an abstract PostgreSQL server: what the statements mean, and a reader of their text
--   Reads       the server reads each statement as it is meant
--   Promised    what the methods promise of the abstract server
--   Spec        what it means to keep a promise, and what the code relies on
--   Simulation  how calls keep promises, statement by statement
--   Owned       what the server makes of the ownership statements and of an inspection
--   Refines     the methods keep the promises
--   Repairs     a repaired database has no drift
--   Converges   the activity that repairs a database, over this provider, converges
--   Guards      what the methods refuse before they reach the container
pub mod Client
pub mod Sql
pub mod Operations
pub mod Server
pub mod Reads
pub mod Promised
pub mod Spec
pub mod Simulation
pub mod Owned
pub mod Refines
pub mod Repairs
pub mod Converges
pub mod Guards

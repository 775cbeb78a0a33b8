-- ===== src/Cloud/Docker/Spec.antt =====
-- What it means that a call on the Docker host keeps a promise about the server in it, and what
-- internal/cloud/docker.go relies on.
use tenantflow.Prelude.{Text, ◌≡◌}
use tenantflow.World.{ok}
use tenantflow.Call.{Call}
use tenantflow.Cloud.Docker.Client.{
  Docker, find_postgres_container, run_attached, psql, psql_tuples,
}
use tenantflow.Cloud.Docker.Server.{Cluster, Statement, sql, IsSafe, perform, psql_reply}

-- `f` answers as `g` does on the abstract server, and leaves the state that `g` leaves.
pub record Simulates {S A : Type 0} (view : S → Cluster) (f : Call S A) (g : Call Cluster A)
    : Type 0 where
  pub answers : (s : S) → (f s).0 ≡ (g (view s)).0
  pub leaves : (s : S) → view (f s).1 ≡ (g (view s)).1

-- A host with a running postgres container, in which psql performs the statements that it reads.
pub record RunsPostgres {S : Type 0} (docker : Docker S) (view : S → Cluster) : Type 0 where
  pub postgres_id : Text
  pub found : (s : S) → find_postgres_container docker s ≡ (ok postgres_id, s)
  pub executes :
      (st : Statement)
      → IsSafe st
      → Simulates view
          (run_attached docker postgres_id (psql (sql st)))
          (λ c. psql_reply (perform st c) c)
  pub queries :
      (st : Statement)
      → IsSafe st
      → Simulates view
          (run_attached docker postgres_id (psql_tuples (sql st)))
          (λ c. psql_reply (perform st c) c)

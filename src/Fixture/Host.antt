-- ===== src/Fixture/Host.antt =====
-- A Docker host with one container, in which psql reads the statements and performs them.
use tenantflow.Prelude.{
  ℕ, Text, ◌≡◌, refl, [], ◌∷◌, List, Option, none, some, codes, Option-cases, inl, inr, text_eq,
}
use tenantflow.World.{Result, ok, err}
use tenantflow.Call.{Call}
use tenantflow.Strings.{trim_byte}
use tenantflow.Cloud.Docker.Client.{
  Docker, Ended, find_postgres_container, choose_container, first_container, any_name, run_attached,
  psql, psql_tuples,
}
use tenantflow.Cloud.Docker.Server.{
  Cluster, Statement, IsSafe, sql, perform, psql_reply, read_statement,
}
use tenantflow.Cloud.Docker.Reads.{read_statement-sql}
use tenantflow.Cloud.Docker.Spec.{Simulates, RunsPostgres}

-- The server, the command of the last exec, and its exit code.
pub record Host : Type 0 where
  pub cluster : Cluster
  pub command : List Text
  pub exit_code : ℕ

abbrev last_of : List Text → Text
last_of [] = []
last_of (x ∷ []) = x
last_of (x ∷ y ∷ r) = last_of (y ∷ r)

abbrev reply_to : Option Statement → Cluster → Result Ended × Cluster
reply_to none c = psql_reply none c
reply_to (some st) c = psql_reply (perform st c) c

abbrev attach : Result Ended × Cluster → Call Host Text
attach (ok ended, c) h = (ok ended.stdout, record h { cluster = c; exit_code = ended.exit_code })
attach (err e, c) h = (err e, h)

abbrev pub host_docker : Docker Host
host_docker = record {
  container_list = λ h. (
    ok (
        record { id = codes "1f"; names = codes "/web-postgres" ∷ [] }
        ∷ record { id = codes "2e"; names = codes "/tenantflow-postgres" ∷ [] }
        ∷ []),
    h,
  );
  exec_create = λ id cmd h. (ok id, record h { command = cmd });
  exec_start = λ id h. (ok tt, h);
  exec_attach = λ id h. attach (reply_to (read_statement (last_of h.command)) h.cluster) h;
  exec_inspect = λ id h. (ok h.exit_code, h);
  now_stamp = λ h. codes "20240501-120000";
}

-- A command whose last word is a statement performs it.
runs_statement :
    (id : Text) (cmd : List Text) (st : Statement)
    → IsSafe st
    → last_of cmd ≡ sql st
    → Simulates
        (λ h. h.cluster)
        (run_attached host_docker id cmd)
        (λ c. psql_reply (perform st c) c)
unfolding run_attached
runs_statement id cmd st safe e = record {
  answers = λ h. elim (Option-cases (perform st h.cluster)) [
    | inl f ↦ cc (e, f, read_statement-sql st safe)
    | inr (p, f) ↦ cc (e, f, read_statement-sql st safe)
  ];
  leaves = λ h. elim (Option-cases (perform st h.cluster)) [
    | inl f ↦ cc (e, f, read_statement-sql st safe)
    | inr (p, f) ↦ cc (e, f, read_statement-sql st safe)
  ];
}

-- It is one that the provider's theorems speak of.
pub host_docker-RunsPostgres : RunsPostgres host_docker (λ h. h.cluster)
unfolding find_postgres_container choose_container first_container any_name trim_byte text_eq
host_docker-RunsPostgres = record {
  postgres_id = codes "2e";
  found = λ h. refl;
  executes = λ st safe. runs_statement (codes "2e") (psql (sql st)) st safe refl;
  queries = λ st safe. runs_statement (codes "2e") (psql_tuples (sql st)) st safe refl;
}

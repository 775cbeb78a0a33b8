-- ===== src/Fixture/Start.antt =====
-- Worlds to start from, and the whole outside of the stand-ins.
use tenantflow.Prelude.{Text, Bool, true, false, List, [], ◌∷◌, none, some, codes}
use tenantflow.Model.{Tenant, TenantStatus, dedicated}
use tenantflow.World.{World, Answer}
use tenantflow.Cloud.Names.{tenant_database_name}
use tenantflow.Fixture.Server.{Server, server_cloud, server_identity}
use tenantflow.Fixture.Executor.{three_attempts, three_attempts_laws, Alone}
use tenantflow.Lifecycle.Steps.{here}
use tenantflow.Lifecycle.Control.{Outside, OutsideLaws}

abbrev pub acme : Text
acme = codes "acme"

abbrev pub empty_server : Server
empty_server = record { databases = []; roles = []; files = []; users = []; no_rename = false }

-- A server with the database of acme in good order.
abbrev pub acme_server : Server
acme_server = record {
  databases =
      record {
        name = tenant_database_name acme;
        owner = tenant_database_name acme;
        open_to_public = false;
        holds = some (codes "acme data");
      }
      ∷ [];
  roles = tenant_database_name acme ∷ [];
  files = [];
  users = codes "acme-admin" ∷ [];
  no_rename = false;
}

abbrev pub acme_row : TenantStatus → Tenant
acme_row s = record {
  tenant_id = acme;
  status = s;
  isolation_mode = dedicated;
  workflow_id = none;
  created_at = 5;
  updated_at = 5;
}

-- A world with acme in the given status, a server, and the answers that are to come.
abbrev pub acme_world : TenantStatus → Server → List Answer → World Server
acme_world s server answers = record {
  tenants = acme_row s ∷ [];
  audit = [];
  backups = [];
  next_backup_id = 1;
  quotas = [];
  now = 10;
  answers = answers;
  ext = server;
}

-- Before the first tenant.
abbrev pub blank_world : World Server
blank_world = record {
  tenants = [];
  audit = [];
  backups = [];
  next_backup_id = 1;
  quotas = [];
  now = 0;
  answers = [];
  ext = empty_server;
}

-- The timer runs out (`false`) or the operator cancels (`true`).
abbrev pub outside : Bool → Outside Server
outside cancelled = record {
  temporal = three_attempts;
  cloud = server_cloud;
  identity = server_identity;
  wait = λ n w. (cancelled, w);
  versioned = true;
}

abbrev pub outside_laws : (cancelled : Bool) → OutsideLaws Server (outside cancelled)
outside_laws cancelled = record {
  rely = Alone;
  laws = three_attempts_laws;
  others = λ w w' r. absurd r;
  meanwhile = λ n w. here;
}

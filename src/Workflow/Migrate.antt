-- ===== src/Workflow/Migrate.antt =====
-- internal/workflow/migrate.go
use tenantflow.Prelude.{Text, ⊤, Bool, true, false, if◌then◌else◌}
use tenantflow.World.{Act, Error, ◌>>=◌, ◌>>◌, pure, raise, or_else}
use tenantflow.Cloud.Provider.{CloudProvider}
use tenantflow.Workflow.Temporal.{Temporal, joining}
use tenantflow.Activities.Migrate.{
  mark_tenant_migrating, migrate_data, switch_traffic, mark_tenant_migrated,
  drop_tenant_aux_database, mark_tenant_migrate_failed,
}

module _ {S : Type 0} (t : Temporal S) (p : CloudProvider S) where
  unfoldable pub compensate_migrate : Text → Bool → {A : Type 0} → Error → Act S A
  compensate_migrate id switched e = do
    e1 ← (if switched then pure e else joining (t.execute ⊤ (drop_tenant_aux_database p id)) e)
    e2 ← joining (t.execute ⊤ (mark_tenant_migrate_failed id)) e1
    raise e2

  unfoldable pub migrate_tenant_workflow : Text → Act S ⊤
  migrate_tenant_workflow id = do
    or_else (t.execute ⊤ (mark_tenant_migrating id)) (compensate_migrate id false)
    backup_name ← or_else (t.execute Text (migrate_data p id)) (compensate_migrate id false)
    or_else (t.execute ⊤ (switch_traffic p id backup_name)) (compensate_migrate id false)
    or_else (t.execute ⊤ (mark_tenant_migrated id)) (compensate_migrate id true)

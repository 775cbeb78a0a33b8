-- ===== src/Isolation/Deletion.antt =====
-- The workflow of a deletion keeps what its providers' methods and the others keep.
use tenantflow.Prelude.{ℕ, Bool}
use tenantflow.World.{World, Act, Error}
use tenantflow.Cloud.Provider.{CloudProvider, IdentityProvider}
use tenantflow.Workflow.Temporal.{Temporal, TemporalLaws}
use tenantflow.Workflow.Delete.{
  DeleteInput, compensate_delete, pre_delete_backup, teardown, grace, fresh_delete,
  delete_tenant_workflow,
}
use tenantflow.Activities.Deprovision.{mark_tenant_delete_failed}
use tenantflow.Isolation.{Spares, Bystander, Apart, Spares-execute, spare_rules}
use tenantflow.Isolation.Activities.{
  Spares-record_event, Spares-mark_tenant_deleting, Spares-mark_tenant_deleted,
  Spares-restore_tenant_after_cancel, Spares-delete_tenant_identity_by_tenant,
  Spares-deprovision_tenant, Spares-backup_tenant_data,
}

module _ {S : Type 0} {P : S → Type 0} {rely : World S → World S → Type 0} {t : Temporal S}
    {p : CloudProvider S} {k : IdentityProvider S} (laws : TemporalLaws S rely t)
    (others : (w w' : World S) → rely w w' → P w.ext → P w'.ext)
    (wait : ℕ → World S → Bool × World S)
    (meanwhile : (n : ℕ) (w : World S) → P w.ext → P (wait n w).1.ext) (versioned : Bool)
    (a : Apart P k) (i : DeleteInput) (b : Bystander P p i.tenant_id) where
  run : {A : Type 0} (m : Act S A) → Spares P m → Spares P (t.execute A m)
  run m s = Spares-execute laws others m s

  Spares-grace : (n : ℕ) → Spares P (grace t p k wait versioned n)
  unfolding grace
  Spares-grace n = record { keeps = meanwhile n }

  Spares-teardown : Spares P (teardown t p k wait versioned i)
  unfolding teardown pre_delete_backup
  Spares-teardown =
      search
        (
          spare_rules, run, Spares-backup_tenant_data, Spares-deprovision_tenant,
          Spares-delete_tenant_identity_by_tenant, Spares-mark_tenant_deleted,
        )
        depth 9

  Spares-fresh_delete : Spares P (fresh_delete t p k wait versioned i)
  unfolding fresh_delete
  Spares-fresh_delete =
      let torn_down = Spares-teardown in
      search
        (
          spare_rules, run, Spares-grace, Spares-mark_tenant_deleting,
          Spares-restore_tenant_after_cancel,
        )
        depth 9

  Spares-compensate_delete :
      (e : Error) → Spares P (compensate_delete t p k wait versioned i.tenant_id e)
  unfolding compensate_delete mark_tenant_delete_failed
  Spares-compensate_delete e = search (spare_rules, run, Spares-record_event) depth 9

  pub Spares-delete_tenant_workflow : Spares P (delete_tenant_workflow t p k wait versioned i)
  unfolding delete_tenant_workflow
  Spares-delete_tenant_workflow =
      let torn_down = Spares-teardown in
      let deleted = Spares-fresh_delete in search (spare_rules, Spares-compensate_delete) depth 9

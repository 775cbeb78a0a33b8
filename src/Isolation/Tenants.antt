-- ===== src/Isolation/Tenants.antt =====
-- What the workflows of one tenant do to the databases of another: nothing.
use tenantflow.Prelude.{ℕ, Text, ◌≡◌, ◌≢◌, refl, sym, ◌∙◌, ◌++◌, Option}
use tenantflow.World.{World}
use tenantflow.Cloud.Names.{
  tenant_database_name, new_db_name, temp_db_name, new_suffix, temp_suffix,
}
use tenantflow.Cloud.Names.Distinct.{aux_name_taken, tenant_database_name_injective}
use tenantflow.Cloud.Contents.{Contents, Frames, IdentityFrames}
use tenantflow.Workflow.Temporal.{TemporalLaws}
use tenantflow.Lifecycle.Control.{
  Outside, Launch, provision, delete, upgrade, migrate, backup, restore, reconcile, run_workflow,
}
use tenantflow.Isolation.{Spares, Bystander, Apart, Spares-bind, Spares-pure}
use tenantflow.Isolation.Workflows.{
  Spares-provision_tenant_workflow, Spares-upgrade_tenant_workflow, Spares-migrate_tenant_workflow,
  Spares-backup_tenant_workflow, Spares-restore_tenant_workflow, Spares-reconcile_tenant_workflow,
}
use tenantflow.Isolation.Deletion.{Spares-delete_tenant_workflow}

-- The tenant that a workflow is for.
abbrev pub tenant_of : Launch → Text
tenant_of (provision workflow_id id mode) = id
tenant_of (delete i) = i.tenant_id
tenant_of (upgrade id) = id
tenant_of (migrate id) = id
tenant_of (backup id) = id
tenant_of (restore id n) = id
tenant_of (reconcile workflow_id id) = id

module _ {S : Type 0} (o : Outside S) {rely : World S → World S → Type 0}
    (laws : TemporalLaws S rely o.temporal) {P : S → Type 0}
    (others : (w w' : World S) → rely w w' → P w.ext → P w'.ext)
    (meanwhile : (n : ℕ) (w : World S) → P w.ext → P (o.wait n w).1.ext)
    (a : Apart P o.identity) where
  Spares-run_workflow :
      (launch : Launch) → Bystander P o.cloud (tenant_of launch) → Spares P (run_workflow o launch)
  unfolding run_workflow
  Spares-run_workflow (provision workflow_id id mode) b =
      Spares-provision_tenant_workflow laws others b a workflow_id mode
  Spares-run_workflow (delete i) b =
      Spares-delete_tenant_workflow laws others o.wait meanwhile o.versioned a i b
  Spares-run_workflow (upgrade id) b = Spares-upgrade_tenant_workflow laws others b a
  Spares-run_workflow (migrate id) b = Spares-migrate_tenant_workflow laws others b a
  Spares-run_workflow (backup id) b = Spares-backup_tenant_workflow laws others b a
  Spares-run_workflow (restore id n) b = Spares-restore_tenant_workflow laws others b a n
  Spares-run_workflow (reconcile workflow_id id) b =
      Spares-bind _ _ (Spares-reconcile_tenant_workflow laws others b a workflow_id)
        (λ r. Spares-pure tt)

module _ {S : Type 0} (o : Outside S) (v : Contents S) (frames : Frames o.cloud v)
    (apart : IdentityFrames o.identity v) {rely : World S → World S → Type 0}
    (laws : TemporalLaws S rely o.temporal) where
  -- The database `m` holds `c`, or does not exist.
  abbrev Held : Text → Option Text → S → Type 0
  Held m c s = v.database s m ≡ c

  Bystander-Held :
      (id m : Text) (c : Option Text)
      → m ≢ tenant_database_name id
      → m ≢ new_db_name id
      → m ≢ temp_db_name id
      → Bystander (Held m c) o.cloud id
  Bystander-Held id m c not_live not_new not_temp = record {
    created = λ s i. frames.created id s m not_live ∙ i;
    dropped = λ s i. frames.dropped id s m not_live ∙ i;
    role_dropped = λ s i. frames.role_dropped id s m ∙ i;
    new_created = λ s i. frames.created_named (new_db_name id) s m not_new ∙ i;
    temp_created = λ s i. frames.created_named (temp_db_name id) s m not_temp ∙ i;
    new_dropped = λ s i. frames.dropped_named (new_db_name id) s m not_new ∙ i;
    temp_dropped = λ s i. frames.dropped_named (temp_db_name id) s m not_temp ∙ i;
    dumped = λ s i. frames.dumped id s m ∙ i;
    live_restored = λ f s i. frames.restored (tenant_database_name id) f s m not_live ∙ i;
    new_restored = λ f s i. frames.restored (new_db_name id) f s m not_new ∙ i;
    temp_restored = λ f s i. frames.restored (temp_db_name id) f s m not_temp ∙ i;
    promoted = λ s i.
        frames.renamed_others (new_db_name id) (tenant_database_name id) s m not_new not_live ∙ i;
    validated = λ n s i. frames.validated n s m ∙ i;
    inspected = λ n s i. frames.inspected n s m ∙ i;
    role_checked = λ n s i. frames.role_checked n s m ∙ i;
    owned = λ s i. frames.owned (tenant_database_name id) s m ∙ i;
  }

  Apart-Held : (m : Text) (c : Option Text) → Apart (Held m c) o.identity
  Apart-Held m c = record {
    found = λ n s i. apart.found n s m ∙ i;
    user_created =
        λ n email password first last s i. apart.user_created n email password first last s m ∙ i;
    role_given = λ user role s i. apart.role_given user role s m ∙ i;
    user_deleted = λ user s i. apart.user_deleted user s m ∙ i;
  }

  -- Under the laws of an execution, whatever the tables and the providers answer, a run of any
  -- workflow for one tenant leaves the database of every other tenant with what it held, if the
  -- other's ID is not the first one's with _new or _temp behind it. The provider's methods touch the
  -- databases that they are called for, the identity provider touches none, and others leave that
  -- database alone, between the attempts and during a grace period.
  pub other_databases_are_kept :
      (launch : Launch) (b : Text) (w : World S)
      → b ≢ tenant_of launch
      → b ≢ tenant_of launch ++ new_suffix
      → b ≢ tenant_of launch ++ temp_suffix
      → ((u u' : World S)
          → rely u u'
          → v.database u'.ext (tenant_database_name b) ≡ v.database u.ext (tenant_database_name b))
      → ((n : ℕ) (u : World S)
          → v.database (o.wait n u).1.ext (tenant_database_name b)
            ≡ v.database u.ext (tenant_database_name b))
      → v.database (run_workflow o launch w).1.ext (tenant_database_name b)
        ≡ v.database w.ext (tenant_database_name b)
  other_databases_are_kept launch b w other not_new not_temp others meanwhile =
      let id = tenant_of launch in
      let m = tenant_database_name b in
      let c = v.database w.ext m in
      (Spares-run_workflow o laws {P = Held m c} (λ u u' r i. others u u' r ∙ i)
          (λ n u i. meanwhile n u ∙ i) (Apart-Held m c) launch
          (Bystander-Held id m c (λ e. other (tenant_database_name_injective b id e))
            (λ e. not_new ((aux_name_taken id b).0.0 (sym e)))
            (λ e. not_temp ((aux_name_taken id b).1.0 (sym e))))).keeps
        w refl

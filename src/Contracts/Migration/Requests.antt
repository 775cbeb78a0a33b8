-- ===== src/Contracts/Migration/Requests.antt =====
-- The requests of a whole migration.
use tenantflow.Prelude.{Text, Bool, true, false, ◌≡◌, sym, subst, List, []}
use tenantflow.World.{World, Act, Error, ok}
use tenantflow.Cloud.Names.{tenant_database_name, new_db_name}
use tenantflow.Cloud.Provider.{CloudProvider}
use tenantflow.Cloud.Journal.{Entry, Journalled, journalled, IsGuarded}
use tenantflow.Activities.Migrate.{
  drop_tenant_aux_database, mark_tenant_migrating, mark_tenant_migrated, mark_tenant_migrate_failed,
}
use tenantflow.Workflow.Temporal.{Temporal, TemporalLaws}
use tenantflow.Workflow.Migrate.{migrate_tenant_workflow, compensate_migrate}
use tenantflow.Contracts.{
  Holds, Keeps, Holds-pure, Holds-raise, Holds-if, Holds-weaken, Holds-execute,
}
use tenantflow.Contracts.Stages.{Keeps-gives, Holds-then, Holds-next, Holds-stage, Keeps-joining}
use tenantflow.Contracts.Statements.{IgnoresTrail, ignores_ext, Keeps-record_event}
use tenantflow.Contracts.Migration.{
  Of, Guarded, Copied, Switched, IsCopied, IsBehindCopy, EndsSwitched,
}
use tenantflow.Contracts.Migration.Copy.{Keeps-drop_new, Holds-migrate_data}
use tenantflow.Contracts.Migration.Switch.{Holds-switch_traffic}

module _ {S : Type 0} (p : CloudProvider S)
    {rely : World (Journalled S) → World (Journalled S) → Type 0} {t : Temporal (Journalled S)}
    (laws : TemporalLaws (Journalled S) rely t) (id : Text)
    (others : (w w' : World (Journalled S)) → rely w w' → w'.ext.1 ≡ w.ext.1) where
  run :
      {A : Type 0} {I : World (Journalled S) → Type 0} (m : Act (Journalled S) A)
      → ((w w' : World (Journalled S)) → rely w w' → I w → I w')
      → Keeps I m
      → Keeps I (t.execute A m)
  run m stable h = Holds-execute laws stable (λ a w w' r x. x) m h

  stable_Of : (P : List Entry → Type 0) (w w' : World (Journalled S)) → rely w w' → Of P w → Of P w'
  stable_Of P w w' r i = subst (λ j. P j) (sym (others w w' r)) i

  ignores_Of : (P : List Entry → Type 0) → IgnoresTrail (Of {S = S} P)
  ignores_Of P = ignores_ext (λ (s : Journalled S). P s.1)

  Holds-compensate_migrate :
      (switched : Bool) {A : Type 0} (e : Error) {R : A → World (Journalled S) → Type 0}
      → Holds
          (Of (Guarded id))
          (Of (Guarded id))
          R
          (compensate_migrate t (journalled p) id switched {A = A} e)
  unfolding compensate_migrate drop_tenant_aux_database mark_tenant_migrate_failed
  Holds-compensate_migrate switched e =
      Holds-then _ _
        (Holds-if switched _ _ (λ h. Holds-pure e (λ w i. i) (λ w i. tt))
          (λ h. Keeps-joining _ e (
            run _ (stable_Of (Guarded id)) (
              Holds-then _ _ (Keeps-drop_new p id) (λ w i. i)
                (λ a. Keeps-record_event (ignores_Of (Guarded id)) _ _ _)))))
        (λ w i. i)
        λ e1.
          Holds-then _ _
            (Keeps-joining _ e1
              (run _ (stable_Of (Guarded id)) (Keeps-record_event (ignores_Of (Guarded id)) _ _ _)))
            (λ w i. i) λ e2. Holds-raise e2 (λ w i. i)

  Holds-migrate_tenant_workflow :
      Holds
        (Of (Guarded id))
        (Of (Guarded id))
        (λ a. Of (λ j. (f : Text) × Switched id f j))
        (migrate_tenant_workflow t (journalled p) id)
  unfolding migrate_tenant_workflow mark_tenant_migrating mark_tenant_migrated
  Holds-migrate_tenant_workflow =
      Holds-next {Q = λ a. Of (Guarded id)} _ _
        (Holds-stage laws (stable_Of (Guarded id)) (λ a. stable_Of (Guarded id)) _ _
          (Keeps-gives (Keeps-record_event (ignores_Of (Guarded id)) _ _ _)) (λ w i. i)
          (λ e. Holds-compensate_migrate false e))
        λ a.
          Holds-next {Q = λ f. Of (Copied id f)} _ _
            (Holds-stage laws (stable_Of (Guarded id)) (λ f. stable_Of (Copied id f)) _ _
              (Holds-migrate_data p id) (λ w i. i) (λ e. Holds-compensate_migrate false e))
            λ f.
              Holds-next {Q = λ a. Of (Switched id f)} _ _
                (Holds-stage laws (stable_Of (Copied id f)) (λ a. stable_Of (Switched id f)) _ _
                  (Holds-switch_traffic p id f) (λ w i. i.0)
                  (λ e.
                    Holds-weaken (λ w i. i.0) (λ w i. i) (λ a w r. r)
                      (Holds-compensate_migrate false e)))
                λ a.
                  Holds-weaken (λ w i. i) (λ w i. i) (λ a w r. (f, r))
                    (Holds-stage laws (stable_Of (Switched id f)) (λ a. stable_Of (Switched id f)) _
                      _ (Keeps-gives (Keeps-record_event (ignores_Of (Switched id f)) _ _ _))
                      (λ w i. i.0.0)
                      (λ e.
                        Holds-weaken (λ w i. i.0.0) (λ w i. i) (λ a w r. r)
                          (Holds-compensate_migrate true e)))

  -- Under the laws of an execution, whatever the tables and the provider answer, and whatever the
  -- provider does: in the requests of a run of the migration workflow, the tenant's live database is
  -- dropped only behind a copy, that is a dump of it, a fresh _new database, the restore of that dump
  -- into it and its check, one right after the other and all successful; only the _new database is
  -- renamed, to the live name and behind a copy; only the file of a copy is restored into the live
  -- database; and none is created of that name. Others write nothing into the run's journal.
  pub migrate_copies_first :
      (w : World (Journalled S))
      → w.ext.1 ≡ []
      → IsGuarded
          (IsBehindCopy (tenant_database_name id) (new_db_name id))
          (migrate_tenant_workflow t (journalled p) id w).1.ext.1
  migrate_copies_first w e =
      Holds-migrate_tenant_workflow.ends w (subst (λ j. (Guarded id) j) (sym e) tt)

  -- Under the laws of an execution, whatever the provider does: a run of the migration workflow that
  -- succeeds has made a copy, and its last requests dropped the live database and renamed the _new one
  -- to its name, both successfully, or its last request was the inspection that found no _new database
  -- left to rename. Others write nothing into the run's journal.
  pub migrate_success_switches :
      (w : World (Journalled S))
      → w.ext.1 ≡ []
      → (migrate_tenant_workflow t (journalled p) id w).0 ≡ ok tt
      → ((f : Text) × IsCopied
            (tenant_database_name id)
            (new_db_name id)
            f
            (migrate_tenant_workflow t (journalled p) id w).1.ext.1)
        × EndsSwitched
            (tenant_database_name id)
            (new_db_name id)
            (migrate_tenant_workflow t (journalled p) id w).1.ext.1
  migrate_success_switches w e done =
      let (f, switched) =
        Holds-migrate_tenant_workflow.gives w tt (subst (λ j. (Guarded id) j) (sym e) tt) done in
      ((f, switched.0.1), switched.1)

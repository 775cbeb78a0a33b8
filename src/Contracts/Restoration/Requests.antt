-- ===== src/Contracts/Restoration/Requests.antt =====
-- The requests of a whole restore.
use tenantflow.Prelude.{ℕ, Text, Option, refl, Bool, true, false, ◌≡◌, [], sym, subst, ◌∙◌}
use tenantflow.Model.{Backup}
use tenantflow.World.{World, Act, Error, ok, external}
use tenantflow.Cloud.Names.{tenant_database_name}
use tenantflow.Cloud.Provider.{CloudProvider}
use tenantflow.Cloud.Journal.{dumped, Journalled, journalled, IsGuarded}
use tenantflow.Repository.Sorted.{Stands}
use tenantflow.Activities.Restore.{
  mark_tenant_restoring, mark_tenant_restored, restore_rollback, mark_tenant_restore_failed,
}
use tenantflow.Workflow.Temporal.{Temporal, TemporalLaws}
use tenantflow.Workflow.Restore.{restore_tenant_workflow, compensate_restore}
use tenantflow.Contracts.{
  Holds, Keeps, Holds-pure, Holds-raise, Holds-if, Holds-weaken, Holds-execute,
}
use tenantflow.Contracts.Stages.{Keeps-gives, Holds-then, Holds-next, Holds-stage, Keeps-joining}
use tenantflow.Contracts.Statements.{IgnoresTrail, Keeps-record_event}
use tenantflow.Contracts.Restoration.Data.{
  Begun, Dumped, Restored, Ending, Keeps-restore_dump, Holds-dump, Holds-restore_data, Guarded,
}
use tenantflow.Contracts.Restoration.{row_of, IsOwnFile, IsBehindDump, EndsRestored, LeavesRun}

module _ {S : Type 0} (p : CloudProvider S)
    {rely : World (Journalled S) → World (Journalled S) → Type 0} {t : Temporal (Journalled S)}
    (laws : TemporalLaws (Journalled S) rely t) (id : Text) (n : ℕ)
    (others : (w w' : World (Journalled S)) → rely w w' → LeavesRun n w w')
    (found : Option Backup) where
  abbrev live : Text
  live = tenant_database_name id

  abbrev cloud : CloudProvider (Journalled S)
  cloud = journalled p

  run :
      {A : Type 0} {I : World (Journalled S) → Type 0} (m : Act (Journalled S) A)
      → ((w w' : World (Journalled S)) → rely w w' → I w → I w')
      → Keeps I m
      → Keeps I (t.execute A m)
  run m stable h = Holds-execute laws stable (λ a w w' r x. x) m h

  stable_Begun :
      (w w' : World (Journalled S)) → rely w w' → Begun id n found w → Begun id n found w'
  stable_Begun w w' r i =
      (subst (λ j. Guarded id found j) (sym (others w w' r).0) i.0, (others w w' r).1 ∙ i.1)

  stable_Dumped :
      (f : Text) (w w' : World (Journalled S))
      → rely w w'
      → Dumped id n found f w
      → Dumped id n found f w'
  stable_Dumped f w w' r i = (
    subst (λ j. Guarded id found j) (sym (others w w' r).0) i.0,
    subst (λ j. Stands (dumped live f) j) (sym (others w w' r).0) i.1,
    (others w w' r).1 ∙ i.2,
  )

  stable_Restored :
      (w w' : World (Journalled S)) → rely w w' → Restored id n found w → Restored id n found w'
  stable_Restored w w' r (file, own, ending) = (file, own, (ending.0, (others w w' r).0 ∙ ending.1))

  ignores_Begun : IgnoresTrail (Begun {S = S} id n found)
  ignores_Begun = record { of_clock = λ w rest c i. i; of_event = λ w e i. i }

  ignores_Dumped : (f : Text) → IgnoresTrail (Dumped {S = S} id n found f)
  ignores_Dumped f = record { of_clock = λ w rest c i. i; of_event = λ w e i. i }

  stable_Ending :
      (f : Text) (w w' : World (Journalled S))
      → rely w w'
      → Ending id n found f w
      → Ending id n found f w'
  stable_Ending f w w' r i = (stable_Dumped f w w' r i.0, stable_Restored w w' r i.1)

  ignores_Ending : (f : Text) → IgnoresTrail (Ending {S = S} id n found f)
  ignores_Ending f = record { of_clock = λ w rest c i. i; of_event = λ w e i. i }

  -- The compensation, at a stage `I` that a rollback keeps.
  Holds-compensate_restore :
      {I : World (Journalled S) → Type 0} (taken : Bool) (pre : Text) {A : Type 0} (e : Error)
      {R : A → World (Journalled S) → Type 0}
      → ((w w' : World (Journalled S)) → rely w w' → I w → I w')
      → IgnoresTrail I
      → (taken ≡ true → Keeps I (external (cloud.restore_database_from_backup live pre)))
      → Holds I I R (compensate_restore t cloud id taken pre {A = A} e)
  unfolding compensate_restore restore_rollback mark_tenant_restore_failed
  Holds-compensate_restore taken pre e stable ignores rollback =
      Holds-then _ _
        (Holds-if taken _ _
          (λ h. Keeps-joining _ e (
            run _ stable
              (Holds-then _ _ (rollback h) (λ w i. i) (λ a. Keeps-record_event ignores _ _ _))))
          (λ h. Holds-pure e (λ w i. i) (λ w i. tt)))
        (λ w i. i)
        λ e1.
          Holds-then _ _ (Keeps-joining _ e1 (run _ stable (Keeps-record_event ignores _ _ _)))
            (λ w i. i) λ e2. Holds-raise e2 (λ w i. i)

  Holds-roll_back :
      (f : Text) {A : Type 0} (e : Error) {R : A → World (Journalled S) → Type 0}
      → Holds
          (Dumped id n found f)
          (Begun id n found)
          R
          (compensate_restore t cloud id true f {A = A} e)
  Holds-roll_back f e =
      Holds-weaken (λ w i. i) (λ w i. (i.0, i.2)) (λ a w r. r)
        (Holds-compensate_restore true f e (stable_Dumped f) (ignores_Dumped f)
          (λ h. Keeps-restore_dump p id n found f))

  Holds-restore_tenant_workflow :
      Holds
        (Begun id n found)
        (Begun id n found)
        (λ a w. Restored id n found w)
        (restore_tenant_workflow t cloud id n)
  unfolding restore_tenant_workflow mark_tenant_restoring mark_tenant_restored
  Holds-restore_tenant_workflow =
      Holds-next {Q = λ a w. Begun id n found w} _ _
        (Holds-stage laws stable_Begun (λ a. stable_Begun) _ _
          (Keeps-gives (Keeps-record_event ignores_Begun _ _ _)) (λ w i. i)
          (λ e.
            Holds-compensate_restore false [] e stable_Begun ignores_Begun (λ h. absurd (cc h))))
        λ a.
          Holds-next {Q = λ f w. Dumped id n found f w} _ _
            (Holds-stage laws stable_Begun (λ f. stable_Dumped f) _ _ (Holds-dump p id n found)
              (λ w i. i)
              (λ e.
                Holds-compensate_restore false [] e stable_Begun ignores_Begun
                  (λ h. absurd (cc h))))
            λ f.
              Holds-next {Q = λ a w. Ending id n found f w} _ _
                (Holds-stage laws (stable_Dumped f) (λ a. stable_Ending f) _ _
                  (Holds-restore_data p id n found f) (λ w i. (i.0, i.2))
                  (λ e. Holds-roll_back f e))
                λ a.
                  Holds-weaken (λ w i. i) (λ w i. i) (λ a w r. r.1)
                    (Holds-stage laws (stable_Ending f) (λ a. stable_Ending f) _ _
                      (Keeps-gives (Keeps-record_event (ignores_Ending f) _ _ _))
                      (λ w i. (i.0.0, i.0.2))
                      (λ e.
                        Holds-weaken (λ w i. i.0) (λ w i. i) (λ a w r. r) (Holds-roll_back f e)))

module _ {S : Type 0} (p : CloudProvider S)
    {rely : World (Journalled S) → World (Journalled S) → Type 0} {t : Temporal (Journalled S)}
    (laws : TemporalLaws (Journalled S) rely t) (id : Text) (n : ℕ)
    (others : (w w' : World (Journalled S)) → rely w w' → LeavesRun n w w') where
  begins :
      (w : World (Journalled S))
      → w.ext.1 ≡ []
      → IsGuarded (IsBehindDump id (row_of n w) (tenant_database_name id)) w.ext.1
  begins w e =
      subst (λ j. IsGuarded (IsBehindDump id (row_of n w) (tenant_database_name id)) j) (sym e) tt

  -- Under the laws of an execution, whatever the tables and the provider answer, and whatever the
  -- provider does: in the requests of a run of the restore workflow, every restore into the tenant's
  -- database, the rollback's too, stands behind a dump of it that succeeded in the same run, and
  -- takes the file of such a dump or that of the backup's row, if the row is the tenant's; and no
  -- request drops, creates or renames that database. Others write nothing into the run's journal,
  -- and leave the row.
  pub restore_dumps_first :
      (w : World (Journalled S))
      → w.ext.1 ≡ []
      → IsGuarded
          (IsBehindDump id (row_of n w) (tenant_database_name id))
          (restore_tenant_workflow t (journalled p) id n w).1.ext.1
  restore_dumps_first w e =
      ((Holds-restore_tenant_workflow p laws id n others (row_of n w)).ends w (begins w e, refl)).0

  -- Under the laws of an execution, whatever the provider does: a run of the restore workflow that
  -- succeeds ends its requests with a successful restore of a file into the tenant's database and a
  -- successful check of that database, and the file is that of the backup's row, which is the
  -- tenant's. Others write nothing into the run's journal, and leave the row.
  pub restore_success_restores_own :
      (w : World (Journalled S))
      → w.ext.1 ≡ []
      → (restore_tenant_workflow t (journalled p) id n w).0 ≡ ok tt
      → (file : Text) × IsOwnFile id (row_of n w) file
        × EndsRestored
            (tenant_database_name id)
            file
            (restore_tenant_workflow t (journalled p) id n w).1.ext.1
  restore_success_restores_own w e done =
      (Holds-restore_tenant_workflow p laws id n others (row_of n w)).gives w tt (begins w e, refl)
        done

-- ===== src/Contracts/Unverified.antt =====
-- A backup that cannot be restored, or whose restored copy cannot be validated, is never completed.
use tenantflow.Prelude.{ℕ, Text, ⊤, ◌≡◌, ◌≢◌, ◌≤◌, ◌⊎◌, inl, inr, List, [], ◌∷◌, arith}
use tenantflow.Model.{Backup}
use tenantflow.World.{World, Act, Error, Result, ok, external, with_cleanup, ignoring, pure, ◌>>◌}
use tenantflow.Cloud.Names.{temp_db_name, tenant_database_name}
use tenantflow.Cloud.Provider.{CloudProvider}
use tenantflow.Repository.{
  create_backup, insert_backup, mark_backup_failed, set_failed, update_backup,
}
use tenantflow.Activities.Reconcile.{count_completed}
use tenantflow.Activities.Backup.{
  blessed, verify_backup, take_backup, backup_tenant_data, mark_tenant_backing_up,
  mark_tenant_backed_up, mark_tenant_backup_failed,
}
use tenantflow.Workflow.Temporal.{Temporal, TemporalLaws}
use tenantflow.Workflow.Backup.{backup_tenant_workflow, compensate_backup}
use tenantflow.Contracts.{
  Holds, Keeps, Holds-pure, Holds-raise, Holds-if, Holds-external, Holds-statement, Holds-or_else,
  Holds-execute,
}
use tenantflow.Contracts.Stages.{
  Keeps-ignoring, Keeps-joining, Holds-then, Holds-knowing, Holds-with_cleanup,
}
use tenantflow.Contracts.Statements.{IgnoresTrail, Keeps-record_event}

-- At most `n` rows of the table of backups are completed.
abbrev pub CompletedAtMost : {S : Type 0} → ℕ → World S → Type 0
CompletedAtMost n w = count_completed w.backups ≤ n

-- The provider can not check a backup of the tenant: into its auxiliary database no file is ever
-- restored, or that database never proves valid.
abbrev pub NeverVerifies : {S : Type 0} → CloudProvider S → Text → Type 0
NeverVerifies {S} p id =
    ((file : Text) (s : S) → (p.restore_database_from_backup (temp_db_name id) file s).0 ≢ ok tt)
    ⊎ ((s : S) → (p.validate_database (temp_db_name id) s).0 ≢ ok tt)

count_completed-failed :
    (k : ℕ) (bs : List Backup)
    → count_completed (update_backup k set_failed bs) ≤ count_completed bs
unfolding count_completed update_backup
count_completed-failed k [] = omega arith
count_completed-failed k (b ∷ bs) = ground (arith, count_completed-failed k bs)

count_completed-inserted :
    {S : Type 0} (id file : Text) (w : World S)
    → count_completed (insert_backup id file w).1.backups ≡ count_completed w.backups
unfolding insert_backup count_completed
count_completed-inserted id file w = ground arith

-- A call that keeps `I` and never succeeds.
abbrev Fails : {S A : Type 0} → (World S → Type 0) → Act S A → Type 0
Fails I m = Holds I I (λ a w. ⊥) m

module _ {S : Type 0} {n : ℕ} where
  IgnoresTrail-CompletedAtMost : IgnoresTrail {S = S} (CompletedAtMost n)
  IgnoresTrail-CompletedAtMost = record { of_clock = λ w rest c i. i; of_event = λ w e i. i }

  Keeps-external : {A : Type 0} (f : S → Result A × S) → Keeps (CompletedAtMost n) (external f)
  Keeps-external f = Holds-external f (λ w i. i) (λ w a i e. tt)

  Fails-external :
      (f : S → Result ⊤ × S) → ((s : S) → (f s).0 ≢ ok tt) → Fails (CompletedAtMost n) (external f)
  Fails-external f never = Holds-external f (λ w i. i) (λ w a i e. never w.ext e)

  Keeps-with_cleanup :
      (m c : Act S ⊤)
      → Keeps (CompletedAtMost n) m
      → Keeps (CompletedAtMost n) c
      → Keeps (CompletedAtMost n) (with_cleanup m c)
  Keeps-with_cleanup m c hm hc = Holds-with_cleanup m c hm hc

  Fails-with_cleanup :
      (m c : Act S ⊤)
      → Fails (CompletedAtMost n) m
      → Keeps (CompletedAtMost n) c
      → Fails (CompletedAtMost n) (with_cleanup m c)
  Fails-with_cleanup m c hm hc = Holds-with_cleanup m c hm hc

  -- Nothing comes after a call that never succeeds.
  Fails-then : (m k : Act S ⊤) → Fails (CompletedAtMost n) m → Fails (CompletedAtMost n) (m >> k)
  Fails-then m k hm =
      Holds-knowing {F = λ a. ⊥} m (λ a. k) hm (λ w i. i) (λ a none_here. absurd none_here)

  Fails-later :
      (m k : Act S ⊤)
      → Keeps (CompletedAtMost n) m
      → Fails (CompletedAtMost n) k
      → Fails (CompletedAtMost n) (m >> k)
  Fails-later m k hm hk = Holds-then m (λ a. k) hm (λ w i. i) (λ a. hk)

  Keeps-mark_backup_failed : (k : ℕ) → Keeps (CompletedAtMost n) (mark_backup_failed {S = S} k)
  unfolding mark_backup_failed
  Keeps-mark_backup_failed k =
      Holds-statement _ (λ u rest c i. i) (λ u i. i)
        (record {
          ends = λ w i. omega (arith, i, count_completed-failed k w.backups);
          gives = λ w a i e. tt;
        })

  Keeps-create_backup : (id file : Text) → Keeps (CompletedAtMost n) (create_backup {S = S} id file)
  unfolding create_backup
  Keeps-create_backup id file =
      Holds-statement (insert_backup id file) (λ u rest c i. i) (λ u i. i)
        (record {
          ends = λ w i. omega (arith, i, count_completed-inserted id file w);
          gives = λ w a i e. tt;
        })

module _ {S : Type 0} {n : ℕ} (p : CloudProvider S) (id : Text) where
  Keeps-ignoring_then :
      (m c : Act S ⊤)
      → Keeps (CompletedAtMost n) m
      → Keeps (CompletedAtMost n) c
      → Keeps (CompletedAtMost n) (ignoring m >> c)
  Keeps-ignoring_then m c hm hc =
      Holds-then (ignoring m) (λ a. c) (Keeps-ignoring m hm) (λ w i. i) (λ a. hc)

  Fails-verify_backup :
      (row : Backup)
      → NeverVerifies p id
      → Fails (CompletedAtMost n) (verify_backup p (temp_db_name id) row)
  unfolding verify_backup
  Fails-verify_backup row (inl never_restored) =
      search
        (
          Fails-later, Keeps-external, Keeps-with_cleanup, Keeps-mark_backup_failed, Fails-then,
          Fails-with_cleanup, Fails-external, Keeps-ignoring_then, never_restored,
        )
        depth 12
  Fails-verify_backup row (inr never_valid) =
      search
        (
          Fails-later, Keeps-external, Keeps-with_cleanup, Keeps-mark_backup_failed, Fails-then,
          Fails-with_cleanup, Fails-external, Keeps-ignoring_then, never_valid,
        )
        depth 12

  Fails-take_backup : NeverVerifies p id → Fails (CompletedAtMost n) (take_backup p id)
  unfolding take_backup
  Fails-take_backup never =
      Holds-then (external (p.snapshot_database id)) _ (Keeps-external (p.snapshot_database id))
        (λ w i. i)
        λ file.
          Holds-then (create_backup id file) _ (Keeps-create_backup id file) (λ w i. i)
            λ row.
              Holds-knowing {F = λ a. ⊥} (verify_backup p (temp_db_name id) row)
                (λ a. pure (blessed row)) (Fails-verify_backup row never) (λ w i. i)
                (λ a none_here. absurd none_here)

  Keeps-backup_tenant_data :
      NeverVerifies p id → Keeps (CompletedAtMost n) (backup_tenant_data p id)
  unfolding backup_tenant_data
  Keeps-backup_tenant_data never =
      Holds-then _ _ (Keeps-external (p.inspect_database (tenant_database_name id))) (λ w i. i)
        λ state.
          Holds-if state.exists _ _
            (λ there. record {
              ends = λ w i. (Fails-take_backup never).ends w i;
              gives = λ w a i e. tt;
            })
            (λ missing. Holds-pure _ (λ w i. i) (λ w i. tt))

module _ {S : Type 0} {rely : World S → World S → Type 0} {t : Temporal S} (p : CloudProvider S)
    (laws : TemporalLaws S rely t)
    (others : (w w' : World S) → rely w w' → count_completed w'.backups ≤ count_completed w.backups)
    (id : Text) where
  module _ {n : ℕ} where
    run :
        {A : Type 0} (m : Act S A)
        → Keeps (CompletedAtMost n) m
        → Keeps (CompletedAtMost n) (t.execute A m)
    run m h =
        Holds-execute laws (λ w w' r i. omega (arith, others w w' r, i)) (λ a w w' r x. tt) m h

    Keeps-compensate :
        {A : Type 0} (e : Error) → Keeps (CompletedAtMost n) (compensate_backup t p id {A = A} e)
    unfolding compensate_backup mark_tenant_backup_failed
    Keeps-compensate e =
        Holds-then _ _
          (Keeps-joining (t.execute ⊤ (mark_tenant_backup_failed id)) e (
            run (mark_tenant_backup_failed id)
              (Keeps-record_event IgnoresTrail-CompletedAtMost id _ _)))
          (λ w i. i) (λ e1. Holds-raise e1 (λ w i. i))

    Keeps-backup_workflow :
        NeverVerifies p id → Keeps (CompletedAtMost n) (backup_tenant_workflow t p id)
    unfolding backup_tenant_workflow mark_tenant_backing_up mark_tenant_backed_up
    Keeps-backup_workflow never =
        Holds-then _ _
          (Holds-or_else _ _ (run _ (Keeps-record_event IgnoresTrail-CompletedAtMost id _ _))
            (λ w i. i) (λ e. Keeps-compensate e))
          (λ w i. i)
          λ a.
            Holds-then _ _
              (Holds-or_else _ _
                (run (backup_tenant_data p id) (Keeps-backup_tenant_data p id never)) (λ w i. i)
                (λ e. Keeps-compensate e))
              (λ w i. i)
              λ row.
                Holds-or_else _ _ (run _ (Keeps-record_event IgnoresTrail-CompletedAtMost id _ _))
                  (λ w i. i) (λ e. Keeps-compensate e)

  -- Under the laws of an execution, whatever the database and the provider answer, if no file is ever
  -- restored into the tenant's auxiliary database, or that database never proves valid, and others
  -- complete no backup meanwhile: a run of the backup workflow completes none, of no tenant.
  pub unverified_backup_never_completed :
      (w : World S)
      → NeverVerifies p id
      → count_completed (backup_tenant_workflow t p id w).1.backups ≤ count_completed w.backups
  unverified_backup_never_completed w never =
      (Keeps-backup_workflow {n = count_completed w.backups} never).ends w (omega arith)

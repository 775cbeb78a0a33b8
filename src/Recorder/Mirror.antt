-- ===== src/Recorder/Mirror.antt =====
-- What the mirror of a run tells, and when a run has no mirror.
use tenantflow.Prelude.{
  Text, false, Option, none, some, ◌≡◌, refl, List, [], ◌∷◌, ◌++◌, codes, arith, text_eq_refl, true,
}
use tenantflow.Recorder.{
  RunInfo, Recorded, Reached, tenant_from_workflow_id, has_run, run_key, was_seen, mark_running,
  mark_failed, execute_activity,
}

-- The tenant is recovered from the workflow id of every kind of run but a reconciliation, whose runs
-- are recorded without a tenant.
tenant_from_workflow_id-append :
    (id : Text)
    → (tenant_from_workflow_id (codes "provision-" ++ id) ≡ id)
      × (tenant_from_workflow_id (codes "upgrade-" ++ id) ≡ id)
      × (tenant_from_workflow_id (codes "migrate-" ++ id) ≡ id)
      × (tenant_from_workflow_id (codes "backup-" ++ id) ≡ id)
      × (tenant_from_workflow_id (codes "restore-" ++ id) ≡ id)
      × (tenant_from_workflow_id (codes "delete-" ++ id) ≡ id)
      × (tenant_from_workflow_id (codes "reconcile-" ++ id) ≡ [])
unfolding tenant_from_workflow_id
tenant_from_workflow_id-append id = (refl, refl, refl, refl, refl, refl, refl)

-- An attempt of an activity of some run, with how the database answers around it.
pub record Attempt : Type 0 where
  pub info : RunInfo
  pub outcome : Option Text
  pub inserted : Reached
  pub updated : Reached

-- What the recorder does around attempts, one after another.
unfoldable pub execute_all : List Attempt → Recorded → Recorded
unfolding execute_activity
execute_all [] r = r
execute_all (a ∷ as') r = execute_all as' (execute_activity a.outcome a.inserted a.updated a.info r)

-- The recorder has seen the run, and the table has no row of it.
abbrev IsLost : RunInfo → Recorded → Type 0
IsLost info r =
    (was_seen (run_key info) r.seen ≡ true) × (has_run info.workflow_id info.run_id r.rows ≡ false)

-- An attempt that fails leaves the run marked as failed, also if a later attempt succeeds: a later
-- success changes nothing in the mirror.
success_changes_nothing :
    (info : RunInfo) (r : Recorded) (message : Text) (inserted updated again unused : Reached)
    → execute_activity none again unused info
        (execute_activity (some message) inserted updated info r)
      ≡ execute_activity (some message) inserted updated info r
unfolding execute_activity mark_running mark_failed was_seen
success_changes_nothing info r message inserted updated again unused =
    ground (arith, text_eq_refl (run_key info))

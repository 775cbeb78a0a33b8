-- ===== src/Handlers/Replay.antt =====
-- The replay of a failed run: RetryTenant of internal/handler/tenant.go on the rows that the recorder
-- of internal/instance wrote.
use tenantflow.Prelude.{
  ℕ, Text, ⊤, Bool, true, false, ◌≡◌, ◌≢◌, refl, ◌⊎◌, inl, inr, List, [], ◌∷◌, ◌++◌, none, some,
  codes, arith, subst, text_eq_refl, Option-cases,
}
use tenantflow.Model.{Tenant, same_status, failed, deleting, AuditEventType}
use tenantflow.World.{World, Result, ok, err}
use tenantflow.Repository.{get_tenant}
use tenantflow.Repository.Sorted.{
  Stands, first, Stands-sorted, Stands-of_sorted, Stands-matching, Stands-of_matching,
}
use tenantflow.Lifecycle.Status.{status_of}
use tenantflow.Lifecycle.Control.{Launch}
use tenantflow.Recorder.{
  Instance, RunInfo, Recorded, Reached, tenant_from_workflow_id, null_if_empty, has_run, was_seen,
  run_key, insert_running, update_failed, mark_running, mark_failed, execute_activity,
}
use tenantflow.Recorder.Queue.{
  latest_failed, latest_of, find_latest_failed, of_tenant, is_failed_of,
}
use tenantflow.Handlers.{
  allow_duplicate, Start, StartAnswer, started, already_started, start_failed, SignalAnswer,
  with_tenant,
}
use tenantflow.Handlers.Retry.{retry_tenant, resume_delete, answer_retry}
use tenantflow.Handlers.Guards.{retry_needs_failure}

-- DeleteTenantWorkflowName
abbrev pub delete_workflow_name : Text
delete_workflow_name = codes "DeleteTenantWorkflow"

abbrev without_row : Result Instance → Result ⊤
without_row (ok i) = ok tt
without_row (err e) = err e

-- `_, err := h.failedRuns.FindLatestFailed(...)`
unfoldable pub dead_letter_in : Bool → List Instance → Text → Result ⊤
unfolding find_latest_failed
dead_letter_in answers rows id =
    without_row (find_latest_failed answers id delete_workflow_name rows)

-- A failed deletion of the tenant stands in the table.
abbrev pub HasFailedDeletion : Text → List Instance → Type 0
HasFailedDeletion id rows =
    (i : Instance) × Stands i rows × (is_failed_of id delete_workflow_name i ≡ true)

latest_of-Stands : (rows : List Instance) (i : Instance) → latest_of rows ≡ some i → Stands i rows
unfolding latest_of
latest_of-Stands [] i e = absurd (cc e)
latest_of-Stands (j ∷ js) i e = let same : j ≡ i = cc in subst (λ k. Stands k (j ∷ js)) same first

latest_of_some : {i : Instance} (rows : List Instance) → Stands i rows → latest_of rows ≢ none
unfolding latest_of
latest_of_some [] s e = elim s [ ]
latest_of_some (j ∷ js) s e = cc e

found_in_table :
    (id : Text) (rows : List Instance)
    → dead_letter_in true rows id ≡ ok tt
    → HasFailedDeletion id rows
unfolding dead_letter_in latest_failed
found_in_table id rows e = elim (Option-cases (latest_failed id delete_workflow_name rows)) [
  | inl missing ↦ absurd (cc (rw missing at e))
  | inr (i, found) ↦
      let (there, fits) =
        Stands-of_matching (is_failed_of id delete_workflow_name) i rows
          (Stands-of_sorted (λ j. j.started_at) i _ (latest_of-Stands _ i found)) in
      (i, there, fits)
]

dead_letter-ok :
    (id : Text) (rows : List Instance)
    → HasFailedDeletion id rows
    → dead_letter_in true rows id ≡ ok tt
unfolding dead_letter_in latest_failed
dead_letter-ok id rows (i, there, fits) =
    elim (Option-cases (latest_failed id delete_workflow_name rows)) [
      | inl missing ↦ absurd (
          latest_of_some _
            (Stands-sorted (λ j. j.started_at) i _
              (Stands-matching (is_failed_of id delete_workflow_name) i rows there fits))
            missing)
      | inr (j, found) ↦ rw found
    ]

-- The run of a deletion of the tenant.
abbrev pub delete_run : Text → Text → RunInfo
delete_run id run_id = record {
  workflow_id = codes "delete-" ++ id;
  run_id = run_id;
  workflow_type = delete_workflow_name;
}

of_tenant-null : (id : Text) → id ≢ [] → of_tenant id (null_if_empty id) ≡ true
of_tenant-null [] h = absurd (h refl)
of_tenant-null (c ∷ s) h = text_eq_refl (c ∷ s)

-- The first attempt of the run that the recorder sees, if it fails and the recorder reaches the table.
failed_deletion_recorded :
    (id run_id message : Text) (inserted updated : Reached) (r : Recorded)
    → id ≢ []
    → inserted.takes_effect ≡ true
    → updated.takes_effect ≡ true
    → was_seen (run_key (delete_run id run_id)) r.seen ≡ false
    → has_run (codes "delete-" ++ id) run_id r.rows ≡ false
    → HasFailedDeletion id
        (execute_activity (some message) inserted updated (delete_run id run_id) r).rows
unfolding execute_activity mark_running mark_failed insert_running update_failed
    tenant_from_workflow_id
failed_deletion_recorded id run_id message inserted updated r named first_in then_in unseen absent =
    rw
      (unseen, first_in, then_in, absent, text_eq_refl (codes "delete-" ++ id), text_eq_refl run_id)
      (_, first, ground (arith, of_tenant-null id named, text_eq_refl delete_workflow_name))

-- The start that a resumed deletion asks for.
abbrev pub resumed_start : ℕ → Tenant → Start
resumed_start grace t = record {
  workflow_id = codes "delete-" ++ t.tenant_id;
  policy = allow_duplicate;
  launch = Launch.delete (record {
    tenant_id = t.tenant_id;
    grace_period = grace;
    resume = true;
    isolation_mode = t.isolation_mode;
  });
}

module _ {S : Type 0} (start : Start → StartAnswer) (signal : Text → SignalAnswer) (grace : ℕ) where
  answer_retry-asked :
      (id : Text) (kind : AuditEventType) (s : Start) (a : StartAnswer) (w : World S)
      → (answer_retry start signal grace id kind s a w).0.asked ≡ some s
  answer_retry-asked id kind s (started run_id) w = refl
  answer_retry-asked id kind s already_started w = refl
  answer_retry-asked id kind s start_failed w = refl

  resume_delete-asked :
      (r : Result ⊤) (t : Tenant) (w : World S)
      → r ≡ ok tt
      → (resume_delete start signal grace r t w).0.asked ≡ some (resumed_start grace t)
  unfolding resume_delete
  resume_delete-asked (ok a) t w e =
      answer_retry-asked t.tenant_id AuditEventType.tenant_delete_resumed (resumed_start grace t)
        (start (resumed_start grace t)) w
  resume_delete-asked (err x) t w e = absurd (cc e)

  -- A tenant that is stuck in its deletion can be replayed: if the row that the handler reads is
  -- deleting, the ID is not empty, and the recorder, to which the deletion's run was new, saw an
  -- attempt of it fail and reached the table both times, then a retry asks Temporal for the deletion
  -- again, with Resume set, provided that the query for failed runs is answered.
  pub failed_deletion_is_resumed :
      (id run_id message : Text) (inserted updated : Reached) (r : Recorded) (t : Tenant)
      (w : World S)
      → id ≢ []
      → inserted.takes_effect ≡ true
      → updated.takes_effect ≡ true
      → was_seen (run_key (delete_run id run_id)) r.seen ≡ false
      → has_run (codes "delete-" ++ id) run_id r.rows ≡ false
      → (get_tenant id w).0 ≡ ok t
      → t.status ≡ deleting
      → (retry_tenant start signal grace
          (dead_letter_in true
            (execute_activity (some message) inserted updated (delete_run id run_id) r).rows)
          id
          w).0.asked
        ≡ some (resumed_start grace t)
  unfolding retry_tenant with_tenant
  failed_deletion_is_resumed id run_id message inserted updated r t w named one two unseen absent
        got going =
      let rows = (execute_activity (some message) inserted updated (delete_run id run_id) r).rows in
      let whole : same_status t.status failed ≡ false = rw going refl in
      let stuck : same_status t.status deleting ≡ true = rw going refl in
      rw (got, whole, stuck)
        (resume_delete-asked (dead_letter_in true rows id) t (get_tenant id w).1 (
          dead_letter-ok id rows (
            failed_deletion_recorded id run_id message inserted updated r named one two unseen
              absent)))

  -- A retry asks Temporal for a new provisioning only if the tenant's row is failed, and for a
  -- deletion only if the row is deleting and a failed run of a deletion of the tenant stands in the
  -- recorder's table.
  pub replay_needs_failed_run :
      (id : Text) (rows : List Instance) (s : Start) (w : World S)
      → (retry_tenant start signal grace (dead_letter_in true rows) id w).0.asked ≡ some s
      → (status_of id w ≡ some failed)
        ⊎ ((status_of id w ≡ some deleting) × HasFailedDeletion id rows)
  replay_needs_failed_run id rows s w e =
      elim (retry_needs_failure start signal grace id (dead_letter_in true rows) s w e) [
        | inl broken ↦ inl broken
        | inr (going, letter) ↦ inr (going, found_in_table id rows letter)
      ]

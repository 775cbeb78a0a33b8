-- ===== src/Recorder.antt =====
-- internal/instance/recorder.go with internal/repository/workflowinstance.go: the mirror of the runs,
-- which the dead-letter queue reads (Recorder/Queue). The row's own id is left out.
pub mod Mirror
pub mod Queue
pub mod Rows
use tenantflow.Prelude.{
  ℕ, Text, Bool, true, false, List, [], ◌∷◌, ◌++◌, Option, none, some, codes, ◌==◌, ◌&&◌, ◌||◌,
  text_eq, if◌then◌else◌,
}

-- strings.CutPrefix
unfoldable pub cut_prefix : Text → Text → Option Text
cut_prefix s [] = some s
cut_prefix [] (c ∷ p) = none
cut_prefix (d ∷ s) (c ∷ p) = if d == c then cut_prefix s p else none

abbrev pub id_prefixes : List Text
id_prefixes =
    codes "provision-"
    ∷ codes "upgrade-"
    ∷ codes "migrate-"
    ∷ codes "backup-"
    ∷ codes "restore-"
    ∷ codes "delete-"
    ∷ []

unfoldable pub first_cut : List Text → Text → Text
unfolding cut_prefix
first_cut [] id = []
first_cut (p ∷ ps) id = elim (cut_prefix id p) [ some rest ↦ rest | none ↦ first_cut ps id ]

-- tenantFromWorkflowID
unfoldable pub tenant_from_workflow_id : Text → Text
unfolding first_cut
tenant_from_workflow_id id = first_cut id_prefixes id

-- A row of workflow_instances; `has_failed` is the status.
pub record Instance : Type 0 where
  pub tenant_id : Option Text
  pub workflow_type : Text
  pub workflow_id : Text
  pub run_id : Text
  pub has_failed : Bool
  -- the message of the error
  pub error : Option Text
  pub started_at : ℕ
  pub finished_at : Option ℕ

-- activity.Info, as far as the recorder reads it.
pub record RunInfo : Type 0 where
  pub workflow_id : Text
  pub run_id : Text
  pub workflow_type : Text

abbrev pub null_if_empty : Text → Option Text
null_if_empty [] = none
null_if_empty (c ∷ s) = some (c ∷ s)

abbrev pub is_run : Text → Text → Instance → Bool
is_run workflow_id run_id i = text_eq i.workflow_id workflow_id && text_eq i.run_id run_id

unfoldable pub has_run : Text → Text → List Instance → Bool
has_run workflow_id run_id [] = false
has_run workflow_id run_id (i ∷ is) = is_run workflow_id run_id i || has_run workflow_id run_id is

-- InsertRunning at a time: ON CONFLICT (workflow_id, run_id) DO NOTHING
unfoldable pub insert_running : ℕ → RunInfo → List Instance → List Instance
unfolding tenant_from_workflow_id has_run
insert_running now info rows =
    if has_run info.workflow_id info.run_id rows
    then rows
    else (record {
      tenant_id = null_if_empty (tenant_from_workflow_id info.workflow_id);
      workflow_type = info.workflow_type;
      workflow_id = info.workflow_id;
      run_id = info.run_id;
      has_failed = false;
      error = none;
      started_at = now;
      finished_at = none;
    })
      ∷ rows

abbrev pub as_failed : ℕ → Text → Instance → Instance
as_failed now message i = record i {
  has_failed = true;
  error = some message;
  finished_at = some now;
}

-- MarkFailed at a time: UPDATE ... WHERE workflow_id = $2 AND run_id = $3
unfoldable pub update_failed : ℕ → Text → RunInfo → List Instance → List Instance
update_failed now message info [] = []
update_failed now message info (i ∷ is) =
    let rest = update_failed now message info is in
    (if is_run info.workflow_id info.run_id i then as_failed now message i else i) ∷ rest

abbrev pub run_key : RunInfo → Text
run_key info = info.workflow_id ++ (codes "/" ++ info.run_id)

unfoldable pub was_seen : Text → List Text → Bool
was_seen key [] = false
was_seen key (k ∷ ks) = text_eq k key || was_seen key ks

-- The recorder's set of seen runs, and the table.
pub record Recorded : Type 0 where
  pub seen : List Text
  pub rows : List Instance

-- How the database answers the recorder: whether the statement takes effect, and its clock. An error
-- is only logged.
pub record Reached : Type 0 where
  pub takes_effect : Bool
  pub clock : ℕ

-- markRunning
unfoldable pub mark_running : Reached → RunInfo → Recorded → Recorded
unfolding was_seen insert_running
mark_running d info r = if was_seen (run_key info) r.seen then r else record {
  seen = run_key info ∷ r.seen;
  rows = if d.takes_effect then insert_running d.clock info r.rows else r.rows;
}

-- markFailed
unfoldable pub mark_failed : Reached → Text → RunInfo → Recorded → Recorded
unfolding update_failed
mark_failed d message info r = record r {
  rows = if d.takes_effect then update_failed d.clock message info r.rows else r.rows;
}

-- ExecuteActivity around an attempt, which succeeds (`none`) or fails with a message.
unfoldable pub execute_activity : Option Text → Reached → Reached → RunInfo → Recorded → Recorded
unfolding mark_running mark_failed
execute_activity none inserted updated info r = mark_running inserted info r
execute_activity (some message) inserted updated info r =
    mark_failed updated message info (mark_running inserted info r)

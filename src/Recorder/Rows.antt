-- ===== src/Recorder/Rows.antt =====
-- The rows of workflow_instances: one for each run, and what the dead-letter queue shows of them.
use tenantflow.Prelude.{
  ℕ, Text, ⊤, Bool, true, false, ◌≡◌, refl, ◌≤◌, List, [], ◌∷◌, ◌⊎◌, inl, inr, Option, none, some,
  arith, length, Bool-cases, if◌then◌else◌,
}
use tenantflow.Repository.{newest_first, matching}
use tenantflow.Repository.Sorted.{
  Stands, NewestFirst, AllFrom, NewestFirst-sorted, NewestFirst-take, Stands-sorted,
  Stands-of_sorted, Stands-matching, Stands-of_matching, Stands-take, Stands-of_take,
  length-take-le,
}
use tenantflow.Recorder.{
  Instance, RunInfo, Recorded, Reached, has_run, insert_running, update_failed, was_seen, run_key,
  mark_running, mark_failed, execute_activity,
}
use tenantflow.Recorder.Queue.{failed_rows}

-- No two rows are of one run.
abbrev pub HasOneRowEach : List Instance → Type 0
HasOneRowEach [] = ⊤
HasOneRowEach (i ∷ is) = (has_run i.workflow_id i.run_id is ≡ false) × HasOneRowEach is

pub has_run-update_failed :
    (workflow_id run_id : Text) (now : ℕ) (message : Text) (info : RunInfo) (rows : List Instance)
    → has_run workflow_id run_id (update_failed now message info rows)
      ≡ has_run workflow_id run_id rows
unfolding has_run update_failed
has_run-update_failed workflow_id run_id now message info [] = refl
has_run-update_failed workflow_id run_id now message info (i ∷ is) =
    ground (arith, has_run-update_failed workflow_id run_id now message info is)

update_failed-HasOneRowEach :
    (now : ℕ) (message : Text) (info : RunInfo) (rows : List Instance)
    → HasOneRowEach rows
    → HasOneRowEach (update_failed now message info rows)
unfolding update_failed
update_failed-HasOneRowEach now message info [] h = tt
update_failed-HasOneRowEach now message info (i ∷ is) h = (
  ground (arith, h.0, has_run-update_failed i.workflow_id i.run_id now message info is),
  update_failed-HasOneRowEach now message info is h.1,
)

insert_running-HasOneRowEach :
    (now : ℕ) (info : RunInfo) (rows : List Instance)
    → HasOneRowEach rows
    → HasOneRowEach (insert_running now info rows)
unfolding insert_running
insert_running-HasOneRowEach now info rows h =
    elim (Bool-cases (has_run info.workflow_id info.run_id rows)) [
      | inl there ↦ rw there h
      | inr absent ↦ rw absent (absent, h)
    ]

HasOneRowEach-if :
    (b : Bool) (is js : List Instance)
    → HasOneRowEach is
    → HasOneRowEach js
    → HasOneRowEach (if b then is else js)
HasOneRowEach-if true is js h k = h
HasOneRowEach-if false is js h k = k

mark_running-HasOneRowEach :
    (d : Reached) (info : RunInfo) (r : Recorded)
    → HasOneRowEach r.rows
    → HasOneRowEach (mark_running d info r).rows
unfolding mark_running
mark_running-HasOneRowEach d info r h = elim (Bool-cases (was_seen (run_key info) r.seen)) [
  | inl old ↦ rw old h
  | inr new ↦
      rw new
        (HasOneRowEach-if d.takes_effect _ _ (insert_running-HasOneRowEach d.clock info r.rows h) h)
]

-- Whatever the attempt and the database answer, around an attempt of an activity the recorder keeps
-- the table to at most one row for each run.
pub execute_activity-HasOneRowEach :
    (attempt : Option Text) (inserted updated : Reached) (info : RunInfo) (r : Recorded)
    → HasOneRowEach r.rows
    → HasOneRowEach (execute_activity attempt inserted updated info r).rows
unfolding execute_activity mark_running mark_failed
execute_activity-HasOneRowEach none inserted updated info r h =
    mark_running-HasOneRowEach inserted info r h
execute_activity-HasOneRowEach (some message) inserted updated info r h =
    let running = mark_running-HasOneRowEach inserted info r h in
    HasOneRowEach-if updated.takes_effect _ _
      (update_failed-HasOneRowEach updated.clock message info _ running) running

-- The list of failed runs: newest first, no longer than asked for, of failed runs of the table only;
-- and a failed run of the table that it leaves out gave way to as many as were asked for, none of
-- which started earlier.
pub failed_rows-newest :
    (limit : ℕ) (rows : List Instance)
    → NewestFirst (λ (i : Instance). i.started_at) (failed_rows limit rows)
      × (length (failed_rows limit rows) ≤ limit)
      × ((i : Instance) → Stands i (failed_rows limit rows) → Stands i rows × (i.has_failed ≡ true))
      × ((i : Instance)
          → Stands i rows
          → i.has_failed ≡ true
          → Stands i (failed_rows limit rows)
            ⊎ ((length (failed_rows limit rows) ≡ limit)
                × AllFrom (λ (j : Instance). j.started_at) i.started_at (failed_rows limit rows)))
unfolding failed_rows
failed_rows-newest limit rows =
    let date = λ (i : Instance). i.started_at in
    let found = matching (λ (i : Instance). i.has_failed) rows in
    (
      NewestFirst-take date limit _ (NewestFirst-sorted date found),
      length-take-le limit (newest_first date found),
      λ i s.
          Stands-of_matching (λ (j : Instance). j.has_failed) i rows
            (Stands-of_sorted date i found (Stands-of_take i limit _ s)),
      λ i s h. Stands-take date i limit _ (NewestFirst-sorted date found) (
          Stands-sorted date i found (Stands-matching (λ (j : Instance). j.has_failed) i rows s h)),
    )

-- ===== src/Worker.antt =====
-- cmd/worker/main.go: how a worker that boots starts the sweep.
pub mod Interceptors
use tenantflow.Prelude.{
  Text, ⊤, Int64, pos, positive, ◌≡◌, refl, none, some, codes, ap, ◌⊎◌, inl, inr,
}
use tenantflow.World.{World, Error, Result, ok, err, other}
use tenantflow.Workflow.Temporal.{Temporal}
use tenantflow.Workflow.Sweep.{
  SweepInput, SweepEnd, finished, continue_as_new, SweepRuntime, cadence, reconcile_sweep_workflow,
}
use tenantflow.Workflow.Sweep.Ends.{IsProperEnd, reconcile_sweep_workflow-ends}
use tenantflow.Handlers.{
  ReusePolicy, allow_duplicate, StartAnswer, started, already_started, start_failed,
}

-- The call of ExecuteWorkflow with the sweep.
pub record SweepStart : Type 0 where
  pub workflow_id : Text
  pub policy : ReusePolicy
  pub input : SweepInput

abbrev pub boot_input : Int64 → SweepInput
boot_input interval = record { interval = interval; max_sweeps = pos 0; continue_after = pos 0 }

-- A sweep that is already running is no error.
abbrev sweep_answer : StartAnswer → Result ⊤
sweep_answer (started run) = ok tt
sweep_answer already_started = ok tt
sweep_answer start_failed = err other

unfoldable pub start_reconcile_sweep : (SweepStart → StartAnswer) → Int64 → Result ⊤
start_reconcile_sweep start interval = sweep_answer (
    start (record {
      workflow_id = codes "reconcile-sweep";
      policy = allow_duplicate;
      input = boot_input interval;
    }))

-- `if a.Config.ReconcileSweepInterval > 0`
unfoldable pub boot_sweep : (SweepStart → StartAnswer) → Int64 → Result ⊤
unfolding start_reconcile_sweep
boot_sweep start interval = elim (positive interval) [
  | some n ↦ start_reconcile_sweep start interval
  | none ↦ ok tt
]

goes_on :
    (i : SweepInput) (r : Result SweepEnd)
    → positive i.max_sweeps ≡ none
    → IsProperEnd i r
    → ((e : Error) × (r ≡ err e)) ⊎ (r ≡ ok (continue_as_new i))
goes_on i (ok (finished sweeps found)) h p = absurd (cc (h, p.0))
goes_on i (ok (continue_as_new j)) h p = inr (ap (λ x. ok (continue_as_new x)) p.0)
goes_on i (err e) h p = inl (e, refl)

-- A run of the booted sweep ends within the default of 100 sweeps, with an error or by going on with
-- the same input, so that the sweep is never done.
booted_sweep_goes_on :
    {S : Type 0} (t : Temporal S) (sdk : SweepRuntime S) (interval : Int64) (w : World S)
    → (r : Result SweepEnd) × (w' : World S) × (reconcile_sweep_workflow t sdk 100
          (boot_input interval)
          w
        ≡ some (r, w'))
      × (((e : Error) × (r ≡ err e)) ⊎ (r ≡ ok (continue_as_new (boot_input interval))))
unfolding cadence
booted_sweep_goes_on t sdk interval w =
    let (r, w', ran, proper) = reconcile_sweep_workflow-ends t sdk (boot_input interval) w in
    (r, w', ran, goes_on (boot_input interval) r refl proper)

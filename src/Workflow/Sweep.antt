-- ===== src/Workflow/Sweep.antt =====
-- internal/workflow/sweep.go: the loop that reconciles every active tenant at an interval.
pub mod Ends
pub mod Batch
use tenantflow.Prelude.{
  ℕ, zero, suc, Int64, positive, Text, ⊤, Bool, true, false, List, [], ◌∷◌, ◌++◌, Option, none,
  some, ◌||◌, ◌%◌, ◌==◌, leb, length, codes, text_eq, if◌then◌else◌,
}
use tenantflow.World.{
  World, Act, Result, ok, err, non_retryable, invalid_sweep_interval, ◌>>=◌, pure,
}
use tenantflow.Workflow.Temporal.{Temporal}
use tenantflow.Activities.Reconcile.Active.{list_active_tenant_ids}

pub record SweepInput : Type 0 where
  pub interval : Int64
  pub max_sweeps : Int64
  pub continue_after : Int64

-- How a run ends without an error: with a ReconcileSweepResult, or by NewContinueAsNewError.
pub data SweepEnd : Type 0 where
  -- SweepsCompleted, LastTenantsFound
  finished : ℕ → ℕ → SweepEnd
  continue_as_new : SweepInput → SweepEnd

-- A child that a tick starts: its workflow ID and its tenant.
pub record SweptChild : Type 0 where
  pub workflow_id : Text
  pub tenant_id : Text

-- The rest of the SDK that the loop uses: ExecuteChildWorkflow, which only begins a child; the wait
-- for a child's end, which observeSweptReconcile turns into a log line; and Sleep. Meanwhile the
-- world goes on.
pub record SweepRuntime (S : Type 0) : Type 0 where
  pub start_child : SweptChild → World S → World S
  pub await_child : SweptChild → World S → World S
  pub sleep : Int64 → Act S ⊤

-- continueAfter, with defaultSweepsBeforeContinueAsNew for what is not positive
unfoldable pub cadence : SweepInput → ℕ
cadence i = elim (positive i.continue_after) [ some n ↦ n | none ↦ 100 ]

-- `_, ok := started[id]`
unfoldable pub was_started : Text → List Text → Bool
was_started id [] = false
was_started id (s ∷ ss) = text_eq s id || was_started id ss

abbrev pub child_of : Text → SweptChild
child_of id = record { workflow_id = codes "reconcile-" ++ id; tenant_id = id }

-- The children of a tick, in the order of the list: an ID that has been seen is passed over.
unfoldable pub children_of : List Text → List Text → List SweptChild
unfolding was_started
children_of started [] = []
children_of started (id ∷ ids) =
    if was_started id started
    then children_of started ids
    else child_of id ∷ children_of (id ∷ started) ids

abbrev pub for_each :
    {S : Type 0} → (SweptChild → World S → World S) → List SweptChild → World S → World S
for_each f [] w = w
for_each f (c ∷ cs) w = for_each f cs (f c w)

-- `in.MaxSweeps > 0 && sweeps >= in.MaxSweeps`
unfoldable pub is_last : SweepInput → ℕ → Bool
is_last i sweeps = elim (positive i.max_sweeps) [ some max ↦ leb max sweeps | none ↦ false ]

module _ {S : Type 0} (t : Temporal S) (sdk : SweepRuntime S) where
  -- One tick up to the start of its children: how many tenants were listed, and the children.
  unfoldable pub sweep_tick : Act S (ℕ × List SweptChild)
  unfolding children_of
  sweep_tick = do
    ids ← t.execute (List Text) list_active_tenant_ids
    λ w. (ok (length ids, children_of [] ids), for_each sdk.start_child (children_of [] ids) w)

  -- What follows a tick; `again` is the loop with the new number of sweeps.
  unfoldable pub after_tick :
      SweepInput
      → ℕ
      → ℕ
      → List SweptChild
      → (ℕ → World S → Option (Result SweepEnd × World S))
      → World S
      → Option (Result SweepEnd × World S)
  unfolding is_last cadence
  after_tick i sweeps found children again w =
      if is_last i sweeps
      then some (ok (finished sweeps found), for_each sdk.await_child children w)
      else if sweeps % cadence i == 0
      then some (ok (continue_as_new i), w)
      else (let (r, w') = sdk.sleep i.interval w in
          elim r [ ok _ ↦ again sweeps w' | err e ↦ some (err e, w') ])

  -- The loop, with the number of sweeps done and fuel for the ticks to come.
  unfoldable pub sweep_loop : ℕ → SweepInput → ℕ → World S → Option (Result SweepEnd × World S)
  unfolding sweep_tick after_tick
  sweep_loop zero i sweeps w = none
  sweep_loop (suc fuel) i sweeps w =
      let (r, w') = sweep_tick w in
      elim r [
        | ok (found, children) ↦
            after_tick i (suc sweeps) found children (λ n u. sweep_loop fuel i n u) w'
        | err e ↦ some (err e, w')
      ]

  unfoldable pub reconcile_sweep_workflow :
      ℕ → SweepInput → World S → Option (Result SweepEnd × World S)
  unfolding sweep_loop
  reconcile_sweep_workflow fuel i w = elim (positive i.interval) [
    | some _ ↦ sweep_loop fuel i 0 w
    | none ↦ some (err (non_retryable invalid_sweep_interval), w)
  ]

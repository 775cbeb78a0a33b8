-- ===== src/Tests/Sweep.antt =====
-- Runs of internal/workflow/sweep.go on the stand-ins.
use tenantflow.Prelude.{
  ◌++◌, pos, true, ◌≡◌, refl, List, [], ◌∷◌, some, codes, text_eq, if◌then◌else◌,
}
use tenantflow.Model.{active, failed}
use tenantflow.World.{World, ok, pure, statement}
use tenantflow.Repository.{list_tenants, newest_first, insert_by_date}
use tenantflow.Activities.Reconcile.Active.{list_active_tenant_ids, insert_text}
use tenantflow.Workflow.Sweep.{
  SweepInput, SweptChild, SweepRuntime, finished, continue_as_new, cadence, sweep_tick,
  reconcile_sweep_workflow,
}
use tenantflow.Workflow.Sweep.Ends.{EndsProperly, reconcile_sweep_workflow-ends}
use tenantflow.Workflow.Sweep.Batch.{
  CountsStarts, children_for, has_active, well_named, tick_starts_active_tenants,
}
use tenantflow.Fixture.Executor.{three_attempts, three_attempts-Undisturbed}
use tenantflow.Fixture.Server.{Server}
use tenantflow.Fixture.Start.{acme, acme_world, acme_row, acme_server}

-- Children and sleeping leave the world alone.
abbrev still : SweepRuntime Server
still = record { start_child = λ c w. w; await_child = λ c w. w; sleep = λ d. pure tt }

-- Two sweeps, at most three to a run; and five, which a run of three never reaches.
abbrev two_of_three : SweepInput
two_of_three = record { interval = pos 600; max_sweeps = pos 2; continue_after = pos 3 }

abbrev five_of_three : SweepInput
five_of_three = record { interval = pos 600; max_sweeps = pos 5; continue_after = pos 3 }

abbrev one_tenant : World Server
one_tenant = acme_world active acme_server []

two_sweeps_finish :
    reconcile_sweep_workflow three_attempts still 3 two_of_three one_tenant
    ≡ some (ok (finished 2 1), one_tenant)
unfolding reconcile_sweep_workflow list_active_tenant_ids list_tenants statement newest_first
    insert_by_date text_eq insert_text
two_sweeps_finish = refl

five_sweeps_begin_again :
    reconcile_sweep_workflow three_attempts still 3 five_of_three one_tenant
    ≡ some (ok (continue_as_new five_of_three), one_tenant)
unfolding reconcile_sweep_workflow list_active_tenant_ids list_tenants statement newest_first
    insert_by_date text_eq insert_text
five_sweeps_begin_again = refl

reconcile_sweep_workflow-ends_example :
    EndsProperly five_of_three (
      reconcile_sweep_workflow three_attempts still
        (cadence five_of_three)
        five_of_three
        one_tenant)
reconcile_sweep_workflow-ends_example =
    reconcile_sweep_workflow-ends three_attempts still five_of_three one_tenant

abbrev two_rows : World Server
two_rows = record one_tenant {
  tenants = record (acme_row failed) { tenant_id = codes "beta" } ∷ acme_row active ∷ [];
}

-- A server of which only the begun children matter.
abbrev starting : SweepRuntime (List SweptChild)
starting = record {
  start_child = λ c w. record w { ext = w.ext ++ (c ∷ []) };
  await_child = λ c w. w;
  sleep = λ d. pure tt;
}

starting-CountsStarts : CountsStarts starting (λ cs. cs)
starting-CountsStarts = record { adds = λ c w. refl }

abbrev two_children_rows : World (List SweptChild)
two_children_rows = record {
  tenants = two_rows.tenants;
  audit = [];
  backups = [];
  next_backup_id = 1;
  quotas = [];
  now = 0;
  answers = [];
  ext = [];
}

-- beta has failed, so that acme's child is the only one.
tick_starts_active_tenants_example :
    (children : List SweptChild) × ((sweep_tick three_attempts starting two_children_rows).0
      ≡ ok (1, children))
    × ((sweep_tick three_attempts starting two_children_rows).1.ext ≡ [] ++ children)
    × (children_for (codes "beta") children
        ≡ (if has_active (codes "beta") two_rows.tenants then 1 else 0))
    × (well_named children ≡ true)
unfolding list_active_tenant_ids list_tenants statement newest_first insert_by_date insert_text
    text_eq
tick_starts_active_tenants_example =
    tick_starts_active_tenants starting-CountsStarts three_attempts two_children_rows (acme ∷ [])
      (codes "beta") three_attempts-Undisturbed refl

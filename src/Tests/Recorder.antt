-- ===== src/Tests/Recorder.antt =====
-- The mirror of a run of acme's provisioning, and an attempt that fails on purpose.
use tenantflow.Prelude.{List, Bool, Text, some, true, ◌≡◌, [], ◌∷◌, codes, ℕ, none, ◌==◌, ltb}
use tenantflow.Recorder.{RunInfo, Recorded, Reached}
use tenantflow.Model.{Tenant, active}
use tenantflow.World.{Error}
use tenantflow.Repository.{get_tenant}
use tenantflow.Chaos.{Controller, filter_of, is_eligible, is_meant, is_eligible-filter_of}
use tenantflow.Worker.Interceptors.{Watched, Attempt, attempted}
use tenantflow.Fixture.Server.{Server}
use tenantflow.Fixture.Start.{acme, acme_server, acme_world}
use tenantflow.Recorder.Mirror

abbrev acme_run : RunInfo
acme_run = record {
  workflow_id = codes "provision-acme";
  run_id = codes "run-1";
  workflow_type = codes "ProvisionTenantWorkflow";
}

abbrev nothing_recorded : Recorded
nothing_recorded = record { seen = []; rows = [] }

-- How the database answers, at the time 5.
abbrev answer : Bool → Reached
answer takes_effect = record { takes_effect = takes_effect; clock = 5 }

abbrev refused_name : Text
refused_name = codes "simulated provisioning failure"

-- The second attempt of the same run, and one of another.
abbrev attempts_to_come : List (Mirror.Attempt)
attempts_to_come =
    record {
      info = acme_run;
      outcome = some refused_name;
      inserted = answer true;
      updated = answer true;
    }
    ∷ record {
      info = record acme_run { run_id = codes "run-2" };
      outcome = none;
      inserted = answer true;
      updated = answer true;
    }
    ∷ []

-- Two activities by name, and everything behind them.
abbrev listed : List Text
listed = codes "MigrateData" ∷ codes "SwitchTraffic" ∷ codes "*" ∷ []

is_eligible-filter_of_example :
    is_eligible (filter_of none listed) (codes "BackupTenantData")
    ≡ is_meant (codes "BackupTenantData") listed
is_eligible-filter_of_example = is_eligible-filter_of (codes "BackupTenantData") listed

-- A controller that fails every activity, with a rate that is a number in percent.
abbrev always : Controller ℕ
always = record { rate = 100; only = none }

abbrev is_zero : ℕ → Bool
is_zero n = n == 0

abbrev text_of : Error → Text
text_of e = refused_name

abbrev loading : Text
loading = codes "LoadTenant"

abbrev watched : Watched Server
watched = record {
  world = acme_world active acme_server [];
  mirror = nothing_recorded;
  counted = [];
}

abbrev load_attempt : Attempt Server Tenant
load_attempt =
    attempted is_zero ltb text_of (some always) 7 loading (answer true) (answer true) acme_run
      (get_tenant acme)

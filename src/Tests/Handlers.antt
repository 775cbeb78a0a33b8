-- ===== src/Tests/Handlers.antt =====
-- The endpoints, asked for acme.
use tenantflow.Prelude.{Text, ◌≡◌, refl, [], ◌++◌, some, codes, text_eq}
use tenantflow.Model.{active}
use tenantflow.World.{find_tenant, statement}
use tenantflow.Repository.{get_tenant, select_tenant}
use tenantflow.Lifecycle.Control.{Launch}
use tenantflow.Lifecycle.Status.{status_of}
use tenantflow.Handlers.{
  Start, StartAnswer, started, SignalAnswer, signalled, reject_duplicate, with_tenant, when_active,
  upgrade_tenant,
}
use tenantflow.Handlers.Guards.{SagaRequest}
use tenantflow.Handlers.Permitted.{saga, starts_meet_guards}
use tenantflow.Fixture.Start.{acme, acme_server, acme_world}

abbrev accept : Start → StartAnswer
accept s = started (codes "run-1")

abbrev hear : Text → SignalAnswer
hear id = signalled

abbrev upgrade_start : Start
upgrade_start = record {
  workflow_id = codes "upgrade-" ++ acme;
  policy = reject_duplicate;
  launch = Launch.upgrade acme;
}

starts_meet_guards_example : status_of acme (acme_world active acme_server []) ≡ some active
unfolding upgrade_tenant when_active with_tenant get_tenant select_tenant find_tenant text_eq
    statement
starts_meet_guards_example =
    starts_meet_guards accept hear 60 acme (saga SagaRequest.upgrade) upgrade_start
      (acme_world active acme_server []) refl

-- ===== src/Lifecycle/Integrity.antt =====
-- Every step keeps the tables consistent.
use tenantflow.Prelude.{ℕ, sym, subst, arith}
use tenantflow.Model.{Tenant, Backup}
use tenantflow.World.{World, put_tenant, put_tenant-HasUniqueIds}
use tenantflow.Repository.{update_backup, set_completed, set_failed}
use tenantflow.Lifecycle.Steps.{
  Step, Reach, here, next, answer, provider, insert, move, log, begin_backup, complete_backup,
  fail_backup, set_plan,
}
use tenantflow.Lifecycle.Records.{
  IsConsistent, AllKnown-put, AllKnown-update, KeepsKeys, set_completed-KeepsKeys,
  set_failed-KeepsKeys, FreshNames-update, FreshNames-weaken, AllFit-put, AllKnown-put_quota,
}

module _ {S : Type 0} where
  put-IsConsistent :
      (w : World S) (u : Tenant)
      → IsConsistent w
      → IsConsistent (record w { tenants = put_tenant u w.tenants })
  put-IsConsistent w u c = record {
    ids_unique = put_tenant-HasUniqueIds u w.tenants c.ids_unique;
    events_known = AllKnown-put (λ e. e.tenant_id) u w.tenants w.audit c.events_known;
    backups_known = AllKnown-put (λ b. b.tenant_id) u w.tenants w.backups c.backups_known;
    quotas_known = AllKnown-put (λ q. q.0) u w.tenants w.quotas c.quotas_known;
    names_fresh = c.names_fresh;
    plans_fit = c.plans_fit;
  }

  update-IsConsistent :
      (w : World S) (n : ℕ) (f : Backup → Backup)
      → KeepsKeys f
      → IsConsistent w
      → IsConsistent (record w { backups = update_backup n f w.backups })
  update-IsConsistent w n f k c = record {
    ids_unique = c.ids_unique;
    events_known = c.events_known;
    backups_known = AllKnown-update n f k w.tenants w.backups c.backups_known;
    quotas_known = c.quotas_known;
    names_fresh = FreshNames-update n f k w.next_backup_id w.backups c.names_fresh;
    plans_fit = c.plans_fit;
  }

  pub Step-IsConsistent : {w w' : World S} → Step w w' → IsConsistent w → IsConsistent w'
  Step-IsConsistent (answer rest t e) c = subst IsConsistent (sym e) (record {
    ids_unique = c.ids_unique;
    events_known = c.events_known;
    backups_known = c.backups_known;
    quotas_known = c.quotas_known;
    names_fresh = c.names_fresh;
    plans_fit = c.plans_fit;
  })
  Step-IsConsistent (provider s e) c = subst IsConsistent (sym e) (record {
    ids_unique = c.ids_unique;
    events_known = c.events_known;
    backups_known = c.backups_known;
    quotas_known = c.quotas_known;
    names_fresh = c.names_fresh;
    plans_fit = c.plans_fit;
  })
  Step-IsConsistent {w = w} (insert t fresh new e) c =
      subst IsConsistent (sym e) (put-IsConsistent w t c)
  Step-IsConsistent {w = w} (move t to found edge e) c =
      subst IsConsistent (sym e)
        (put-IsConsistent w (record t { status = to; updated_at = w.now }) c)
  Step-IsConsistent (log v known e) c = subst IsConsistent (sym e) (record {
    ids_unique = c.ids_unique;
    events_known = (known, c.events_known);
    backups_known = c.backups_known;
    quotas_known = c.quotas_known;
    names_fresh = c.names_fresh;
    plans_fit = c.plans_fit;
  })
  Step-IsConsistent {w = w} (begin_backup b known fresh p n e) c =
      subst IsConsistent (sym e) (record {
        ids_unique = c.ids_unique;
        events_known = c.events_known;
        backups_known = (known, c.backups_known);
        quotas_known = c.quotas_known;
        names_fresh =
            (fresh, omega arith, FreshNames-weaken w.next_backup_id w.backups c.names_fresh);
        plans_fit = c.plans_fit;
      })
  Step-IsConsistent {w = w} (complete_backup n e) c =
      subst IsConsistent (sym e)
        (update-IsConsistent w n (set_completed w.now) (set_completed-KeepsKeys w.now) c)
  Step-IsConsistent {w = w} (fail_backup n e) c =
      subst IsConsistent (sym e) (update-IsConsistent w n set_failed set_failed-KeepsKeys c)
  Step-IsConsistent {w = w} (set_plan id q known fits e) c = subst IsConsistent (sym e) (record {
    ids_unique = c.ids_unique;
    events_known = c.events_known;
    backups_known = c.backups_known;
    quotas_known = AllKnown-put_quota w.tenants id q w.quotas known c.quotas_known;
    names_fresh = c.names_fresh;
    plans_fit = AllFit-put id q w.quotas fits c.plans_fit;
  })

  pub Reach-IsConsistent : {w w' : World S} → Reach w w' → IsConsistent w → IsConsistent w'
  Reach-IsConsistent here c = c
  Reach-IsConsistent (next r s) c = Step-IsConsistent s (Reach-IsConsistent r c)

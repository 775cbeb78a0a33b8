-- ===== src/Lifecycle/Steps.antt =====
-- The step relation.
use tenantflow.Prelude.{
  ℕ, suc, Text, ◌≡◌, false, List, ◌∷◌, Option, none, some, is_some, true, text_eq,
}
use tenantflow.Model.{
  Tenant, TenantStatus, provisioning, active, failed, deleting, deleted, AuditEvent, Backup,
  BackupStatus, Quota,
}
use tenantflow.World.{World, Answer, find_tenant, put_tenant, put_quota}
use tenantflow.Repository.{find_backup, update_backup, set_completed, set_failed, fits_columns}

-- The moves of a status; `none` is a tenant with no row.
pub data Edge : Option TenantStatus → Option TenantStatus → Type 0 where
  create : Edge none (some provisioning)
  activate : Edge (some provisioning) (some active)
  recover : Edge (some failed) (some active)
  fail : Edge (some provisioning) (some failed)
  fail_again : Edge (some failed) (some failed)
  delete_active : Edge (some active) (some deleting)
  delete_failed : Edge (some failed) (some deleting)
  cancel : Edge (some deleting) (some active)
  finish : Edge (some deleting) (some deleted)

pub data Step {S : Type 0} (w w' : World S) : Type 0 where
  -- the database's answer to a statement, and its clock
  answer : (rest : List Answer) (t : ℕ) → w' ≡ record w { answers = rest; now = t } → Step w w'
  -- a call of a provider
  provider : (s : S) → w' ≡ record w { ext = s } → Step w w'
  -- a new row
  insert :
      (t : Tenant)
      → find_tenant t.tenant_id w.tenants ≡ none
      → t.status ≡ provisioning
      → w' ≡ record w { tenants = put_tenant t w.tenants }
      → Step w w'
  -- a new status, and the time of it
  move :
      (t : Tenant) (to : TenantStatus)
      → find_tenant t.tenant_id w.tenants ≡ some t
      → Edge (some t.status) (some to)
      → w'
        ≡ record w { tenants = put_tenant (record t { status = to; updated_at = w.now }) w.tenants }
      → Step w w'
  -- an event of a tenant that has a row
  log :
      (e : AuditEvent)
      → is_some (find_tenant e.tenant_id w.tenants) ≡ true
      → w' ≡ record w { audit = e ∷ w.audit }
      → Step w w'
  -- a pending backup of a tenant that has a row, under a file name of its own
  begin_backup :
      (b : Backup)
      → is_some (find_tenant b.tenant_id w.tenants) ≡ true
      → is_some (find_backup (λ c. text_eq c.filename b.filename) w.backups) ≡ false
      → b.status ≡ some BackupStatus.pending
      → b.id ≡ w.next_backup_id
      → w' ≡ record w { backups = b ∷ w.backups; next_backup_id = suc w.next_backup_id }
      → Step w w'
  complete_backup :
      (n : ℕ)
      → w' ≡ record w { backups = update_backup n (set_completed w.now) w.backups }
      → Step w w'
  fail_backup :
      (n : ℕ) → w' ≡ record w { backups = update_backup n set_failed w.backups } → Step w w'
  -- a plan that the columns can hold, of a tenant that has a row
  set_plan :
      (id : Text) (q : Quota)
      → is_some (find_tenant id w.tenants) ≡ true
      → fits_columns q ≡ true
      → w' ≡ record w { quotas = put_quota id q w.quotas }
      → Step w w'

pub data Reach {S : Type 0} (w : World S) : World S → Type 0 where
  here : Reach w w
  next : {u v : World S} → Reach w u → Step u v → Reach w v

module _ {S : Type 0} where
  pub Reach-trans : {u v w : World S} → Reach u v → Reach v w → Reach u w
  Reach-trans r here = r
  Reach-trans r (next q s) = next (Reach-trans r q) s

  pub Reach-Step : {u v : World S} → Step u v → Reach u v
  Reach-Step s = next here s

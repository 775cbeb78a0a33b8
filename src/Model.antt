-- ===== src/Model.antt =====
-- The data that the parts of the control plane share: internal/model and internal/billing.
-- A status and a drift kind are string constants in the source; here each is a constructor.
-- Model/Audit has the audit events.
mod Audit
pub use Audit.*
use tenantflow.Prelude.{ℕ, Text, Bool, true, false, List, [], ◌∷◌, Option, ◌||◌, ◌==◌}

-- TenantStatus: 'pending' is the column's default, which no code of the control plane writes.
pub data TenantStatus : Type 0 where
  pending provisioning active failed deleting deleted : TenantStatus

abbrev pub rank : TenantStatus → ℕ
rank pending = 0
rank provisioning = 1
rank active = 2
rank failed = 3
rank deleting = 4
rank deleted = 5

-- Go's `==` on two statuses.
abbrev pub same_status : TenantStatus → TenantStatus → Bool
same_status s t = rank s == rank t

-- `status = ANY($3)`
unfoldable pub any_status : List TenantStatus → TenantStatus → Bool
any_status [] s = false
any_status (t ∷ ts) s = same_status t s || any_status ts s

-- IsolationMode: `unset` is "", `unknown` any string but "", "dedicated" and "shared".
pub data IsolationMode : Type 0 where
  dedicated shared unset : IsolationMode
  unknown : Text → IsolationMode

-- `mode == model.IsolationModeShared`
abbrev pub is_shared : IsolationMode → Bool
is_shared shared = true
is_shared _ = false

-- `mode == model.IsolationModeDedicated`
abbrev pub is_dedicated : IsolationMode → Bool
is_dedicated dedicated = true
is_dedicated _ = false

pub record Tenant : Type 0 where
  pub tenant_id : Text
  pub status : TenantStatus
  pub isolation_mode : IsolationMode
  pub workflow_id : Option Text
  pub created_at : ℕ
  pub updated_at : ℕ

pub data BackupStatus : Type 0 where
  pending completed failed : BackupStatus

-- `b.Status == model.BackupStatusCompleted`
abbrev pub is_completed : BackupStatus → Bool
is_completed BackupStatus.completed = true
is_completed _ = false

-- A row of the backups table. The record that stands for a skipped backup was never a row: its
-- status is Go's "", here `none`.
pub record Backup : Type 0 where
  pub id : ℕ
  pub tenant_id : Text
  pub filename : Text
  pub status : Option BackupStatus
  pub created_at : ℕ
  pub completed_at : Option ℕ

pub record Quota : Type 0 where
  pub max_users : ℕ
  pub max_storage_gb : ℕ
  pub max_seats : ℕ

-- DefaultQuota, the plan that every tenant starts on.
abbrev pub default_quota : Quota
default_quota = record { max_users = 10; max_storage_gb = 5; max_seats = 10 }

-- TenantSpec: what the platform promises for a tenant.
pub record TenantSpec : Type 0 where
  pub tenant_id : Text
  pub status : TenantStatus
  pub isolation_mode : IsolationMode
  pub require_database : Bool
  pub require_backup : Bool

-- DatabaseState of the provider, and DatabaseActualState, which copies its fields.
pub record DatabaseState : Type 0 where
  pub exists : Bool
  pub owner_role : Text
  pub public_connect : Bool

pub record ReconcileActualState : Type 0 where
  pub tenant_id : Text
  pub database : DatabaseState
  pub role_exists : Bool
  pub completed_backups : ℕ

-- ===== src/Repository.antt =====
-- internal/repository: the SQL statements of the control plane over the tables of `World`, a child
-- for each table.
mod Sort
pub mod Sorted
pub mod Listed
mod Tenants
mod Audit
mod Backups
mod Quotas
mod Memory
unfoldable pub use Sort.{
  newest_first, insert_by_date, find_backup, update_backup, backups_of, matching,
}
unfoldable pub use Tenants.{create_tenant, get_tenant, list_tenants, update_tenant_status_from}
unfoldable pub use Tenants.{insert_tenant, select_tenant, update_status}
unfoldable pub use Audit.{write_event, insert_event, list_events}
unfoldable pub use Backups.{create_backup, get_backup, list_backups}
unfoldable pub use Backups.{insert_backup, select_backup}
unfoldable pub use Backups.{mark_backup_completed, mark_backup_failed, set_completed, set_failed}
unfoldable pub use Quotas.{
  set_quota, get_quota, or_default, upsert_quota, fits_integer, fits_columns,
}

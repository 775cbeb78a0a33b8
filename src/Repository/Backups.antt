-- ===== src/Repository/Backups.antt =====
-- internal/repository/backup.go: the rows of the backups table.
use tenantflow.Prelude.{
  ℕ, Text, ⊤, List, ◌∷◌, none, some, suc, if◌then◌else◌, is_some, text_eq, ◌==◌,
}
use tenantflow.Model.{Backup, BackupStatus}
use tenantflow.World.{Act, ok, err, other, find_tenant, statement, or_not_found}
use tenantflow.Repository.Sort.{newest_first, find_backup, update_backup, backups_of}

abbrev pub set_completed : ℕ → Backup → Backup
set_completed t b = record b { status = some BackupStatus.completed; completed_at = some t }

abbrev pub set_failed : Backup → Backup
set_failed b = record b { status = some BackupStatus.failed }

module _ {S : Type 0} where
  -- backups.tenant_id references tenants, filename is UNIQUE, and id is the next of a serial.
  unfoldable pub insert_backup : Text → Text → Act S Backup
  insert_backup id file w =
      let row : Backup = record {
        id = w.next_backup_id;
        tenant_id = id;
        filename = file;
        status = some BackupStatus.pending;
        created_at = w.now;
        completed_at = none;
      } in
      if is_some (find_tenant id w.tenants)
      then (if is_some (find_backup (λ b. text_eq b.filename file) w.backups)
          then (err other, w)
          else (
            ok row,
            record w { backups = row ∷ w.backups; next_backup_id = suc w.next_backup_id },
          ))
      else (err other, w)

  unfoldable pub create_backup : Text → Text → Act S Backup
  unfolding insert_backup statement
  create_backup id file = statement (insert_backup id file)

  unfoldable pub select_backup : ℕ → Act S Backup
  select_backup n w = or_not_found (find_backup (λ b. b.id == n) w.backups) w

  unfoldable pub get_backup : ℕ → Act S Backup
  unfolding select_backup statement
  get_backup n = statement (select_backup n)

  unfoldable pub list_backups : Text → Act S (List Backup)
  unfolding statement
  list_backups id =
      statement (λ w. (ok (newest_first (λ b. b.created_at) (backups_of id w.backups)), w))

  -- An id that no row has is no error: the rows affected are not read.
  unfoldable pub mark_backup_completed : ℕ → Act S ⊤
  unfolding statement
  mark_backup_completed n =
      statement
        (λ w. (ok tt, record w { backups = update_backup n (set_completed w.now) w.backups }))

  unfoldable pub mark_backup_failed : ℕ → Act S ⊤
  unfolding statement
  mark_backup_failed n =
      statement (λ w. (ok tt, record w { backups = update_backup n set_failed w.backups }))

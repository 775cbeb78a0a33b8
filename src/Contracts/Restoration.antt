-- ===== src/Contracts/Restoration.antt =====
-- What a restore asks of the provider: internal/workflow/restore.go over any provider, by the journal
-- of the run. Here what is said of the journal; Restoration/Data has the activities
-- behind one another, Restoration/Requests the run.
pub mod Data
pub mod Requests
use tenantflow.Prelude.{ℕ, Text, ⊤, true, ◌≡◌, ◌≢◌, ◌∷◌, List, ◌⊎◌, some, Option, ◌==◌}
use tenantflow.Model.{Backup}
use tenantflow.World.{World}
use tenantflow.Cloud.Journal.{
  Entry, created, dropped, validated, restored, renamed, dumped, Journalled,
}
use tenantflow.Repository.{find_backup}
use tenantflow.Repository.Sorted.{Stands}

-- The row that GetBackup finds, if there is one.
abbrev pub row_of : {S : Type 0} → ℕ → World S → Option Backup
row_of n w = find_backup (λ b. b.id == n) w.backups

-- The file of the row, which is the tenant's.
abbrev pub IsOwnFile : Text → Option Backup → Text → Type 0
IsOwnFile id found f =
    (row : Backup) × (found ≡ some row) × (row.tenant_id ≡ id) × (f ≡ row.filename)

-- The tenant's database `live` is not dropped, created or renamed, and is restored into only behind a
-- dump of it that succeeded: from the file of such a dump, or from that of the tenant's own row.
abbrev pub IsBehindDump : Text → Option Backup → Text → Entry → List Entry → Type 0
IsBehindDump id found live (created n b) older = n ≢ live
IsBehindDump id found live (dropped n b) older = n ≢ live
IsBehindDump id found live (renamed from to b) older = (from ≢ live) × (to ≢ live)
IsBehindDump id found live (restored n f b) older =
    (n ≢ live) ⊎ ((g : Text) × Stands (dumped live g) older × ((f ≡ g) ⊎ IsOwnFile id found f))
IsBehindDump id found live _ older = ⊤

-- The newest entries: the file was restored into the database, which then proved valid.
abbrev pub EndsRestored : Text → Text → List Entry → Type 0
EndsRestored live file journal =
    (older : List Entry) × (journal ≡ validated live true ∷ restored live file true ∷ older)

-- Others write nothing into the run's journal, and leave the row.
abbrev pub LeavesRun : {S : Type 0} → ℕ → World (Journalled S) → World (Journalled S) → Type 0
LeavesRun n w w' = (w'.ext.1 ≡ w.ext.1) × (row_of n w' ≡ row_of n w)

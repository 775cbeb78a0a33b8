-- ===== src/Repository/Sort.antt =====
-- Rows of the backups table by a test or by their id, and ORDER BY created_at DESC.
use tenantflow.Prelude.{
  ℕ, Text, Bool, List, [], ◌∷◌, Option, none, some, ltb, ◌==◌, if◌then◌else◌, text_eq,
}
use tenantflow.Model.{Backup}

module _ {ℓ} {A : Type ℓ} (date : A → ℕ) where
  -- A row goes before the first that is not newer; rows of one date keep their order.
  unfoldable pub insert_by_date : A → List A → List A
  insert_by_date a [] = a ∷ []
  insert_by_date a (b ∷ bs) = if ltb (date a) (date b) then b ∷ insert_by_date a bs else a ∷ b ∷ bs

  unfoldable pub newest_first : List A → List A
  unfolding insert_by_date
  newest_first [] = []
  newest_first (a ∷ as') = insert_by_date a (newest_first as')

-- WHERE: the rows that pass a test, in their order.
unfoldable pub matching {ℓ} : {A : Type ℓ} → (A → Bool) → List A → List A
matching p [] = []
matching p (a ∷ as') = let rest = matching p as' in if p a then a ∷ rest else rest

unfoldable pub find_backup : (Backup → Bool) → List Backup → Option Backup
find_backup p [] = none
find_backup p (b ∷ bs) = if p b then some b else find_backup p bs

-- UPDATE backups ... WHERE id = $1
unfoldable pub update_backup : ℕ → (Backup → Backup) → List Backup → List Backup
update_backup n f [] = []
update_backup n f (b ∷ bs) = (if b.id == n then f b else b) ∷ update_backup n f bs

-- WHERE tenant_id = $1
unfoldable pub backups_of : Text → List Backup → List Backup
backups_of id [] = []
backups_of id (b ∷ bs) =
    let rest = backups_of id bs in if text_eq b.tenant_id id then b ∷ rest else rest

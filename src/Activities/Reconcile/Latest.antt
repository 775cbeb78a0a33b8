-- ===== src/Activities/Reconcile/Latest.antt =====
-- The backup that a restore takes: the newest of the completed ones.
use tenantflow.Prelude.{ℕ, ◌≡◌, refl, List, [], ◌∷◌, none, arith}
use tenantflow.Model.{Backup}
use tenantflow.Repository.{newest_first, insert_by_date}
use tenantflow.Activities.Reconcile.{count_completed, first_completed}

count_completed-insert :
    (date : Backup → ℕ) (b : Backup) (bs : List Backup)
    → count_completed (insert_by_date date b bs) ≡ count_completed (b ∷ bs)
unfolding insert_by_date count_completed
count_completed-insert date b [] = refl
count_completed-insert date b (c ∷ cs) = ground (arith, count_completed-insert date b cs)

-- Sorting neither adds nor removes a completed backup.
pub count_completed-newest_first :
    (date : Backup → ℕ) (bs : List Backup)
    → count_completed (newest_first date bs) ≡ count_completed bs
unfolding newest_first count_completed
count_completed-newest_first date [] = refl
count_completed-newest_first date (b ∷ bs) = ground (
  arith,
  count_completed-insert date b (newest_first date bs),
  count_completed-newest_first date bs,
)

pub first_completed-none : (bs : List Backup) → count_completed bs ≡ 0 → first_completed bs ≡ none
unfolding first_completed count_completed
first_completed-none [] h = refl
first_completed-none (b ∷ bs) h = ground (arith, first_completed-none bs)

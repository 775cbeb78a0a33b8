-- ===== src/Activities/Reconcile/Active.antt =====
-- ListActiveTenantIDs of internal/activities/reconcile.go.
use tenantflow.Prelude.{
  Text, Bool, true, false, List, [], ◌∷◌, ◌||◌, ◌&&◌, if◌then◌else◌, ltb, ◌==◌,
}
use tenantflow.Model.{Tenant, active, same_status}
use tenantflow.World.{Act, ◌>>=◌, pure}
use tenantflow.Repository.{list_tenants}

-- The order of Go's strings, by bytes.
unfoldable pub text_le : Text → Text → Bool
text_le [] t = true
text_le (a ∷ s) [] = false
text_le (a ∷ s) (b ∷ t) = ltb a b || ((a == b) && text_le s t)

unfoldable pub insert_text : Text → List Text → List Text
insert_text s [] = s ∷ []
insert_text s (t ∷ ts) = if text_le s t then s ∷ t ∷ ts else t ∷ insert_text s ts

-- slices.Sort
unfoldable pub sort_texts : List Text → List Text
sort_texts [] = []
sort_texts (s ∷ ss) = insert_text s (sort_texts ss)

unfoldable pub active_ids : List Tenant → List Text
active_ids [] = []
active_ids (t ∷ ts) =
    let rest = active_ids ts in if same_status t.status active then t.tenant_id ∷ rest else rest

unfoldable pub list_active_tenant_ids : {S : Type 0} → Act S (List Text)
unfolding active_ids sort_texts
list_active_tenant_ids = do tenants ← list_tenants; pure (sort_texts (active_ids tenants))

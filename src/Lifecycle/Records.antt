-- ===== src/Lifecycle/Records.antt =====
-- What the relation does to the audit trail, and the integrity of the tables: keys, unique
-- file names, and plans that fit their columns.
use mathlib.Core.List.{append_assoc}
use tenantflow.Prelude.{
  ℕ, suc, Text, ◌≡◌, refl, sym, ap, ◌∙◌, subst, true, false, List, [], ◌∷◌, ◌++◌, arith, ◌<◌,
  is_some, text_eq, Bool-cases, inl, inr, ◌==◌, if◌then◌else◌, ⊤,
}
use tenantflow.Model.{Tenant, Backup, Quota, AuditEvent}
use tenantflow.World.{
  World, find_tenant, put_tenant, find_tenant-put_tenant, put_quota, HasUniqueIds,
}
use tenantflow.Repository.{find_backup, update_backup, set_completed, set_failed, fits_columns}
use tenantflow.Lifecycle.Steps.{
  Step, Reach, here, next, answer, provider, insert, move, log, begin_backup, complete_backup,
  fail_backup, set_plan,
}

Step-audit :
    {S : Type 0} {w w' : World S}
    → Step w w'
    → (events : List AuditEvent) × (w'.audit ≡ events ++ w.audit)
Step-audit (answer rest t e) = ([], ap (λ u. u.audit) e)
Step-audit (provider s e) = ([], ap (λ u. u.audit) e)
Step-audit (insert t fresh new e) = ([], ap (λ u. u.audit) e)
Step-audit (move t to found edge e) = ([], ap (λ u. u.audit) e)
Step-audit (log v known e) = (v ∷ [], ap (λ u. u.audit) e)
Step-audit (begin_backup b known fresh p n e) = ([], ap (λ u. u.audit) e)
Step-audit (complete_backup n e) = ([], ap (λ u. u.audit) e)
Step-audit (fail_backup n e) = ([], ap (λ u. u.audit) e)
Step-audit (set_plan j q known fits e) = ([], ap (λ u. u.audit) e)

-- The trail only grows at its head.
pub Reach-audit :
    {S : Type 0} {w w' : World S}
    → Reach w w'
    → (events : List AuditEvent) × (w'.audit ≡ events ++ w.audit)
Reach-audit here = ([], refl)
Reach-audit {w = w} (next r s) =
    let (old, before) = Reach-audit r in
    let (new, after) = Step-audit s in
    (new ++ old, after ∙ ap (λ a. new ++ a) before ∙ sym (append_assoc new old w.audit))

-- Every tenant named in a list has a row.
abbrev pub AllKnown {ℓ} : {A : Type ℓ} → (A → Text) → List Tenant → List A → Type 0
AllKnown key ts [] = ⊤
AllKnown key ts (a ∷ as') = (is_some (find_tenant (key a) ts) ≡ true) × AllKnown key ts as'

-- No two backups have one file name, and ids are below the serial's next.
abbrev pub FreshNames : ℕ → List Backup → Type 0
FreshNames n [] = ⊤
FreshNames n (b ∷ bs) =
    (is_some (find_backup (λ c. text_eq c.filename b.filename) bs) ≡ false)
    × (b.id < n)
    × FreshNames n bs

abbrev pub AllFit : List (Text × Quota) → Type 0
AllFit [] = ⊤
AllFit (e ∷ es) = (fits_columns e.1 ≡ true) × AllFit es

pub record IsConsistent {S : Type 0} (w : World S) : Type 0 where
  pub ids_unique : HasUniqueIds w.tenants
  pub events_known : AllKnown (λ e. e.tenant_id) w.tenants w.audit
  pub backups_known : AllKnown (λ b. b.tenant_id) w.tenants w.backups
  pub quotas_known : AllKnown (λ q. q.0) w.tenants w.quotas
  pub names_fresh : FreshNames w.next_backup_id w.backups
  pub plans_fit : AllFit w.quotas

known_after_put :
    (id : Text) (u : Tenant) (ts : List Tenant)
    → is_some (find_tenant id ts) ≡ true
    → is_some (find_tenant id (put_tenant u ts)) ≡ true
known_after_put id u ts h = ground (arith, find_tenant-put_tenant u id ts)

pub AllKnown-put {ℓ} :
    {A : Type ℓ} (key : A → Text) (u : Tenant) (ts : List Tenant) (as' : List A)
    → AllKnown key ts as'
    → AllKnown key (put_tenant u ts) as'
AllKnown-put key u ts [] h = tt
AllKnown-put key u ts (a ∷ as') h =
    (known_after_put (key a) u ts h.0, AllKnown-put key u ts as' h.1)

-- An update changes neither an id, nor a tenant, nor a file name.
pub record KeepsKeys (f : Backup → Backup) : Type 0 where
  pub id_kept : (b : Backup) → (f b).id ≡ b.id
  pub tenant_kept : (b : Backup) → (f b).tenant_id ≡ b.tenant_id
  pub filename_kept : (b : Backup) → (f b).filename ≡ b.filename

pub set_completed-KeepsKeys : (t : ℕ) → KeepsKeys (set_completed t)
set_completed-KeepsKeys t = record {
  id_kept = λ b. refl;
  tenant_kept = λ b. refl;
  filename_kept = λ b. refl;
}

pub set_failed-KeepsKeys : KeepsKeys set_failed
set_failed-KeepsKeys = record {
  id_kept = λ b. refl;
  tenant_kept = λ b. refl;
  filename_kept = λ b. refl;
}

module _ (n : ℕ) (f : Backup → Backup) (k : KeepsKeys f) where
  pub AllKnown-update :
      (ts : List Tenant) (bs : List Backup)
      → AllKnown (λ b. b.tenant_id) ts bs
      → AllKnown (λ b. b.tenant_id) ts (update_backup n f bs)
  unfolding update_backup
  AllKnown-update ts [] h = tt
  AllKnown-update ts (b ∷ bs) h = (ground (arith, h.0, k.tenant_kept b), AllKnown-update ts bs h.1)

  find_name-update :
      (file : Text) (bs : List Backup)
      → is_some (find_backup (λ c. text_eq c.filename file) (update_backup n f bs))
        ≡ is_some (find_backup (λ c. text_eq c.filename file) bs)
  unfolding update_backup find_backup
  find_name-update file [] = refl
  find_name-update file (b ∷ bs) = ground (arith, k.filename_kept b, find_name-update file bs)

  pub FreshNames-update :
      (m : ℕ) (bs : List Backup) → FreshNames m bs → FreshNames m (update_backup n f bs)
  unfolding update_backup
  FreshNames-update m [] h = tt
  FreshNames-update m (b ∷ bs) h =
      let name = find_name-update b.filename bs in
      let same : (if b.id == n then f b else b).filename ≡ b.filename =
        ground (arith, k.filename_kept b) in
      (
        subst
            (λ x. is_some (find_backup (λ c. text_eq c.filename x) (update_backup n f bs)) ≡ false)
            (sym same) (name ∙ h.0),
        ground (arith, k.id_kept b, h.1),
        FreshNames-update m bs h.2,
      )

pub FreshNames-weaken : (n : ℕ) (bs : List Backup) → FreshNames n bs → FreshNames (suc n) bs
FreshNames-weaken n [] h = tt
FreshNames-weaken n (b ∷ bs) h = (h.0, omega (arith, h.1), FreshNames-weaken n bs h.2)

pub AllFit-put :
    (id : Text) (q : Quota) (qs : List (Text × Quota))
    → fits_columns q ≡ true
    → AllFit qs
    → AllFit (put_quota id q qs)
unfolding put_quota
AllFit-put id q [] fits h = (fits, tt)
AllFit-put id q ((j, p) ∷ qs) fits h = elim (Bool-cases (text_eq j id)) [
  | inl own ↦ rw own (fits, h.1)
  | inr other ↦ rw other (h.0, AllFit-put id q qs fits h.1)
]

pub AllKnown-put_quota :
    (ts : List Tenant) (id : Text) (q : Quota) (qs : List (Text × Quota))
    → is_some (find_tenant id ts) ≡ true
    → AllKnown (λ e. e.0) ts qs
    → AllKnown (λ e. e.0) ts (put_quota id q qs)
unfolding put_quota
AllKnown-put_quota ts id q [] known h = (known, tt)
AllKnown-put_quota ts id q ((j, p) ∷ qs) known h = elim (Bool-cases (text_eq j id)) [
  | inl own ↦ rw own (known, h.1)
  | inr other ↦ rw other (h.0, AllKnown-put_quota ts id q qs known h.1)
]

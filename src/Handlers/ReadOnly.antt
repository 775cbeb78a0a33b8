-- ===== src/Handlers/ReadOnly.antt =====
-- The reading endpoints of internal/handler/tenant.go change nothing.
use tenantflow.Prelude.{ℕ, Option, none, some, Text, ◌≡◌, refl, List, [], ◌∷◌, ◌∙◌}
use tenantflow.Model.{Tenant}
use tenantflow.World.{
  World, Act, Result, ok, err, Answer, Outcome, done, refused, lost, statement, answered,
  by_outcome, advance,
}
use tenantflow.Repository.{get_tenant, list_tenants, list_backups, list_events, get_quota}
use tenantflow.Repository.{select_tenant}
use tenantflow.World.{find_tenant, or_not_found}
use tenantflow.Handlers.Reads.{
  Shown, show_or_500, show_tenant, get_tenant_detail, list_all_tenants, get_tenant_quota,
  list_tenant_backups, list_tenant_events,
}

-- The same tables, and the same state behind the providers.
pub record IsUnchanged {S : Type 0} (w w' : World S) : Type 0 where
  pub same_tenants : w'.tenants ≡ w.tenants
  pub same_audit : w'.audit ≡ w.audit
  pub same_backups : w'.backups ≡ w.backups
  pub same_quotas : w'.quotas ≡ w.quotas
  pub same_ext : w'.ext ≡ w.ext

module _ {S : Type 0} where
  IsUnchanged-refl : (w : World S) → IsUnchanged w w
  IsUnchanged-refl w = record {
    same_tenants = refl;
    same_audit = refl;
    same_backups = refl;
    same_quotas = refl;
    same_ext = refl;
  }

  IsUnchanged-trans :
      {w w' w'' : World S} → IsUnchanged w w' → IsUnchanged w' w'' → IsUnchanged w w''
  IsUnchanged-trans h k = record {
    same_tenants = k.same_tenants ∙ h.same_tenants;
    same_audit = k.same_audit ∙ h.same_audit;
    same_backups = k.same_backups ∙ h.same_backups;
    same_quotas = k.same_quotas ∙ h.same_quotas;
    same_ext = k.same_ext ∙ h.same_ext;
  }

  -- A statement that only reads, whatever the database answers.
  outcome_of_read :
      {A : Type 0} (o : Outcome) (f : Act S A) (w : World S)
      → ((u : World S) → (f u).1 ≡ u)
      → (by_outcome o f w).1 ≡ w
  outcome_of_read done f w quiet = quiet w
  outcome_of_read refused f w quiet = refl
  outcome_of_read lost f w quiet = quiet w

  same_up_to_clock : (w : World S) (rest : List Answer) (t : ℕ) → IsUnchanged w (advance w rest t)
  same_up_to_clock w rest t = record {
    same_tenants = refl;
    same_audit = refl;
    same_backups = refl;
    same_quotas = refl;
    same_ext = refl;
  }

  answer_of_read :
      {A : Type 0} (answers : List Answer) (f : Act S A) (w : World S)
      → ((u : World S) → (f u).1 ≡ u)
      → IsUnchanged w (answered answers f w).1
  answer_of_read [] f w quiet = rw (quiet w) (IsUnchanged-refl w)
  answer_of_read (a ∷ rest) f w quiet =
      rw (outcome_of_read a.outcome f (advance w rest a.clock) quiet)
        (same_up_to_clock w rest a.clock)

  or_not_found-quiet : {A : Type 0} (o : Option A) (w : World S) → (or_not_found o w).1 ≡ w
  or_not_found-quiet none w = refl
  or_not_found-quiet (some a) w = refl

  get_tenant-IsUnchanged : (id : Text) (w : World S) → IsUnchanged w (get_tenant id w).1
  unfolding get_tenant statement
  get_tenant-IsUnchanged id w =
      answer_of_read w.answers (select_tenant id) w
        (λ u. or_not_found-quiet (find_tenant id u.tenants) u)

  get_quota-IsUnchanged : (id : Text) (w : World S) → IsUnchanged w (get_quota id w).1
  unfolding get_quota statement
  get_quota-IsUnchanged id w = answer_of_read w.answers _ w (λ u. refl)

  list_tenants-IsUnchanged : (w : World S) → IsUnchanged w (list_tenants w).1
  unfolding list_tenants statement
  list_tenants-IsUnchanged w = answer_of_read w.answers _ w (λ u. refl)

  list_backups-IsUnchanged : (id : Text) (w : World S) → IsUnchanged w (list_backups id w).1
  unfolding list_backups statement
  list_backups-IsUnchanged id w = answer_of_read w.answers _ w (λ u. refl)

  list_events-IsUnchanged : (id : Text) (w : World S) → IsUnchanged w (list_events id w).1
  unfolding list_events statement
  list_events-IsUnchanged id w = answer_of_read w.answers _ w (λ u. refl)

  show_or_500-IsUnchanged :
      {A B : Type 0} (body : B → A) (w : World S) (p : Result B × World S)
      → IsUnchanged w p.1
      → IsUnchanged w (show_or_500 body p).1
  show_or_500-IsUnchanged body w (ok b, u) h = h
  show_or_500-IsUnchanged body w (err e, u) h = h

  show_tenant-IsUnchanged :
      {A : Type 0} (next : Tenant → World S → Shown A × World S) (w : World S)
      (p : Result Tenant × World S)
      → ((t : Tenant) (u : World S) → IsUnchanged u (next t u).1)
      → IsUnchanged w p.1
      → IsUnchanged w (show_tenant next p).1
  show_tenant-IsUnchanged next w (ok t, u) hn h = IsUnchanged-trans h (hn t u)
  show_tenant-IsUnchanged next w (err e, u) hn h = h

  -- Whatever the database answers, an answer that is lost included, the endpoints that show a tenant,
  -- all tenants, a quota, a tenant's backups and its events change no table and nothing behind the providers.
  reads_change_nothing :
      (id : Text) (w : World S)
      → IsUnchanged w (get_tenant_detail id w).1
        × IsUnchanged w (list_all_tenants w).1
        × IsUnchanged w (get_tenant_quota id w).1
        × IsUnchanged w (list_tenant_backups id w).1
        × IsUnchanged w (list_tenant_events id w).1
  unfolding get_tenant_detail list_all_tenants get_tenant_quota list_tenant_backups
      list_tenant_events
  reads_change_nothing id w = (
    show_tenant-IsUnchanged _ w _ (λ t u. IsUnchanged-refl u) (get_tenant-IsUnchanged id w),
    show_or_500-IsUnchanged _ w _ (list_tenants-IsUnchanged w),
    show_tenant-IsUnchanged _ w _
        (λ t u. show_or_500-IsUnchanged _ u (get_quota id u) (get_quota-IsUnchanged id u))
        (get_tenant-IsUnchanged id w),
    show_tenant-IsUnchanged _ w _
        (λ t u. show_or_500-IsUnchanged _ u (list_backups id u) (list_backups-IsUnchanged id u))
        (get_tenant-IsUnchanged id w),
    show_tenant-IsUnchanged _ w _
        (λ t u. show_or_500-IsUnchanged _ u (list_events id u) (list_events-IsUnchanged id u))
        (get_tenant-IsUnchanged id w),
  )

-- ===== src/Repository/Listed.antt =====
-- What the lists of internal/repository hold: ListEvents, ListBackups and ListTenants.
use tenantflow.Prelude.{
  ℕ, Text, ◌≡◌, refl, sym, ◌∙◌, ◌↔◌, subst, List, [], ◌∷◌, arith, text_eq, text_eq_iff,
}
use tenantflow.Model.{Tenant, Backup, AuditEvent}
use tenantflow.World.{
  World, ok, Answer, Outcome, done, refused, lost, statement, advance, answered, by_outcome,
}
use tenantflow.Repository.{
  list_events, list_backups, list_tenants, newest_first, matching, backups_of,
}
use tenantflow.Repository.Sorted.{
  Stands, NewestFirst, NewestFirst-sorted, Stands-sorted, Stands-of_sorted, Stands-matching,
  Stands-of_matching,
}

pub backups_of-matching :
    (id : Text) (bs : List Backup) → backups_of id bs ≡ matching (λ b. text_eq b.tenant_id id) bs
unfolding backups_of matching
backups_of-matching id [] = refl
backups_of-matching id (b ∷ bs) = ground (arith, backups_of-matching id bs)

module _ {S A : Type 0} (f : World S → A) where
  outcome_answers :
      (o : Outcome) (w : World S) (a : A) → (by_outcome o (λ u. (ok (f u), u)) w).0 ≡ ok a → a ≡ f w
  outcome_answers done w a e = cc
  outcome_answers refused w a e = absurd (cc e)
  outcome_answers lost w a e = absurd (cc e)

  list_answers :
      (answers : List Answer) (w : World S) (a : A)
      → ((rest : List Answer) (t : ℕ) → f (advance w rest t) ≡ f w)
      → (answered answers (λ u. (ok (f u), u)) w).0 ≡ ok a
      → a ≡ f w
  list_answers [] w a still e = cc
  list_answers (x ∷ rest) w a still e =
      outcome_answers x.outcome (advance w rest x.clock) a e ∙ still rest x.clock

-- The rows of `rows` that pass, newest first.
abbrev pub Lists : {A : Type 0} → (A → ℕ) → (A → Type 0) → List A → List A → Type 0
Lists {A} date Passes rows found =
    NewestFirst date found × ((a : A) → Stands a found ↔ (Stands a rows × Passes a))

Lists-matching :
    {A : Type 0} (date : A → ℕ) (name : A → Text) (id : Text) (rows : List A)
    → Lists date
        (λ a. name a ≡ id)
        rows
        (newest_first date (matching (λ a. text_eq (name a) id) rows))
Lists-matching date name id rows = (
  NewestFirst-sorted date _,
  λ a. (
    λ s.
        let (there, passes) =
          Stands-of_matching (λ b. text_eq (name b) id) a rows (Stands-of_sorted date a _ s) in
        (there, (text_eq_iff (name a) id).0 passes),
    λ (there, own).
        Stands-sorted date a _ (
          Stands-matching (λ b. text_eq (name b) id) a rows there
            ((text_eq_iff (name a) id).1 own)),
  ),
)

module _ {S : Type 0} (id : Text) (w : World S) where
  -- The lists of a tenant's events and backups hold just the rows of that tenant, and the list of
  -- tenants just the rows of the table, each newest first, whenever the database answers.
  pub queries_start_with_newest :
      ((es : List AuditEvent)
        → (list_events id w).0 ≡ ok es
        → Lists (λ (e : AuditEvent). e.created_at) (λ e. e.tenant_id ≡ id) w.audit es)
      × ((bs : List Backup)
          → (list_backups id w).0 ≡ ok bs
          → Lists (λ (b : Backup). b.created_at) (λ b. b.tenant_id ≡ id) w.backups bs)
      × ((ts : List Tenant)
          → (list_tenants w).0 ≡ ok ts
          → NewestFirst (λ (t : Tenant). t.created_at) ts
            × ((t : Tenant) → Stands t ts ↔ Stands t w.tenants))
  unfolding list_events list_backups list_tenants statement
  queries_start_with_newest = (
    λ es e.
        subst (λ l. Lists (λ (e : AuditEvent). e.created_at) (λ e. e.tenant_id ≡ id) w.audit l)
          (sym (list_answers _ w.answers w es (λ rest t. refl) e))
          (Lists-matching (λ e. e.created_at) (λ e. e.tenant_id) id w.audit),
    λ bs e.
        subst (λ l. Lists (λ (b : Backup). b.created_at) (λ b. b.tenant_id ≡ id) w.backups l)
          (sym (list_answers _ w.answers w bs (λ rest t. refl) e))
          (rw (backups_of-matching id w.backups)
            (Lists-matching (λ b. b.created_at) (λ b. b.tenant_id) id w.backups)),
    λ ts e.
        let same = list_answers _ w.answers w ts (λ rest t. refl) e in
        subst
          (λ l.
            NewestFirst (λ (t : Tenant). t.created_at) l
            × ((t : Tenant) → Stands t l ↔ Stands t w.tenants))
          (sym same)
          (
            NewestFirst-sorted (λ t. t.created_at) w.tenants,
            λ t. (
              Stands-of_sorted (λ t. t.created_at) t w.tenants,
              Stands-sorted (λ t. t.created_at) t w.tenants,
            ),
          ),
  )

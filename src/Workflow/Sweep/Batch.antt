-- ===== src/Workflow/Sweep/Batch.antt =====
-- Which children a tick of the sweep starts.
use mathlib.Core.List.{append_assoc, append-nil}
use tenantflow.Prelude.{
  ap, sym, ◌∙◌, ℕ, Text, Bool, true, false, ◌≡◌, refl, ◌+◌, ◌||◌, ◌&&◌, ◌++◌, List, [], ◌∷◌, length,
  codes, if◌then◌else◌, arith, text_eq, text_eq_iff, text_eq_refl, inl, inr,
}
use tenantflow.Model.{Tenant, active, same_status}
use tenantflow.World.{
  World, Answer, Outcome, done, refused, lost, ok, statement, answered, by_outcome, advance,
}
use tenantflow.Call.{Result-cases}
use tenantflow.Repository.{list_tenants, insert_by_date, newest_first}
use tenantflow.Activities.Reconcile.Active.{
  insert_text, sort_texts, active_ids, list_active_tenant_ids,
}
use tenantflow.Workflow.Temporal.{Temporal, Undisturbed}
use tenantflow.Workflow.Sweep.{
  SweptChild, SweepRuntime, was_started, children_of, for_each, sweep_tick,
}

-- How many of the children are of the tenant.
unfoldable pub children_for : Text → List SweptChild → ℕ
children_for id [] = 0
children_for id (c ∷ cs) = (if text_eq c.tenant_id id then 1 else 0) + children_for id cs

-- There is an active tenant of that ID.
unfoldable pub has_active : Text → List Tenant → Bool
has_active id [] = false
has_active id (t ∷ ts) = (text_eq t.tenant_id id && same_status t.status active) || has_active id ts

-- Every child's workflow is the one that the endpoint for reconciliation starts for its tenant.
unfoldable pub well_named : List SweptChild → Bool
well_named [] = true
well_named (c ∷ cs) = text_eq c.workflow_id (codes "reconcile-" ++ c.tenant_id) && well_named cs

children_for-children_of :
    (id : Text) (started ids : List Text)
    → children_for id (children_of started ids)
      ≡ (if was_started id started then 0 else if was_started id ids then 1 else 0)
unfolding children_for children_of was_started
children_for-children_of id started [] = ground arith
children_for-children_of id started (i ∷ ids) = ground (
  arith,
  text_eq_iff i id,
  children_for-children_of id started ids,
  children_for-children_of id (i ∷ started) ids,
)

well_named-children_of : (started ids : List Text) → well_named (children_of started ids) ≡ true
unfolding well_named children_of
well_named-children_of started [] = refl
well_named-children_of started (i ∷ ids) = ground (
  arith,
  text_eq_refl (codes "reconcile-" ++ i),
  well_named-children_of started ids,
  well_named-children_of (i ∷ started) ids,
)

was_started-insert_text :
    (id s : Text) (ts : List Text)
    → was_started id (insert_text s ts) ≡ (text_eq s id || was_started id ts)
unfolding was_started insert_text
was_started-insert_text id s [] = refl
was_started-insert_text id s (t ∷ ts) = ground (arith, was_started-insert_text id s ts)

was_started-sort_texts :
    (id : Text) (ts : List Text) → was_started id (sort_texts ts) ≡ was_started id ts
unfolding was_started sort_texts
was_started-sort_texts id [] = refl
was_started-sort_texts id (t ∷ ts) =
    ground (arith, was_started-insert_text id t (sort_texts ts), was_started-sort_texts id ts)

was_started-active_ids :
    (id : Text) (ts : List Tenant) → was_started id (active_ids ts) ≡ has_active id ts
unfolding was_started active_ids has_active
was_started-active_ids id [] = refl
was_started-active_ids id (t ∷ ts) = ground (arith, was_started-active_ids id ts)

has_active-insert_by_date :
    (id : Text) (t : Tenant) (ts : List Tenant)
    → has_active id (insert_by_date (λ u. u.created_at) t ts) ≡ has_active id (t ∷ ts)
unfolding has_active insert_by_date
has_active-insert_by_date id t [] = refl
has_active-insert_by_date id t (u ∷ us) = ground (arith, has_active-insert_by_date id t us)

has_active-newest_first :
    (id : Text) (ts : List Tenant)
    → has_active id (newest_first (λ u. u.created_at) ts) ≡ has_active id ts
unfolding has_active newest_first
has_active-newest_first id [] = refl
has_active-newest_first id (t ∷ ts) = ground (
  arith,
  has_active-insert_by_date id t (newest_first (λ u. u.created_at) ts),
  has_active-newest_first id ts,
)

module _ {S : Type 0} where
  -- A read that answers has read the table.
  read_by_outcome :
      (o : Outcome) (w : World S) (ts : List Tenant)
      → (by_outcome o (λ u. (ok (newest_first (λ t. t.created_at) u.tenants), u)) w).0 ≡ ok ts
      → newest_first (λ t. t.created_at) w.tenants ≡ ts
  read_by_outcome done w ts h = cc h
  read_by_outcome refused w ts h = absurd (cc h)
  read_by_outcome lost w ts h = absurd (cc h)

  read_answered :
      (answers : List Answer) (w : World S) (ts : List Tenant)
      → (answered answers (λ u. (ok (newest_first (λ t. t.created_at) u.tenants), u)) w).0 ≡ ok ts
      → newest_first (λ t. t.created_at) w.tenants ≡ ts
  read_answered [] w ts h = cc h
  read_answered (a ∷ rest) w ts h = read_by_outcome a.outcome (advance w rest a.clock) ts h

  by_outcome-ext :
      (o : Outcome) (w : World S)
      → (by_outcome o (λ u. (ok (newest_first (λ t. t.created_at) u.tenants), u)) w).1.ext ≡ w.ext
  by_outcome-ext done w = refl
  by_outcome-ext refused w = refl
  by_outcome-ext lost w = refl

  read_leaves :
      (answers : List Answer) (w : World S)
      → (answered answers (λ u. (ok (newest_first (λ t. t.created_at) u.tenants), u)) w).1.ext
        ≡ w.ext
  read_leaves [] w = refl
  read_leaves (a ∷ rest) w = by_outcome-ext a.outcome (advance w rest a.clock)

  listed_are_active :
      (w : World S) (ids : List Text) (id : Text)
      → (list_active_tenant_ids w).0 ≡ ok ids
      → was_started id ids ≡ has_active id w.tenants
  unfolding list_active_tenant_ids list_tenants statement
  listed_are_active w ids id h = elim (Result-cases (list_tenants w).0) [
    | inl (ts, read) ↦
        let same = read_answered w.answers w ts read in
        cc (
          h,
          read,
          same,
          was_started-sort_texts id (active_ids ts),
          was_started-active_ids id ts,
          has_active-newest_first id w.tenants,
        )
    | inr (e, failed) ↦ absurd (cc (h, failed))
  ]

  list_tenants-ext : (w : World S) → (list_tenants w).1.ext ≡ w.ext
  unfolding list_tenants statement
  list_tenants-ext w = read_leaves w.answers w

  listing-ext : (w : World S) → (list_active_tenant_ids w).1.ext ≡ w.ext
  unfolding list_active_tenant_ids
  listing-ext w = elim (Result-cases (list_tenants w).0) [
    | inl (ts, read) ↦ cc (read, list_tenants-ext w)
    | inr (e, failed) ↦ cc (failed, list_tenants-ext w)
  ]

-- The children that have been begun, in their order, as something behind the SDK keeps them: a start
-- adds the child.
pub record CountsStarts {S : Type 0} (sdk : SweepRuntime S) (begun : S → List SweptChild)
    : Type 0 where
  pub adds :
      (c : SweptChild) (w : World S) → begun (sdk.start_child c w).ext ≡ begun w.ext ++ (c ∷ [])

module _ {S : Type 0} {sdk : SweepRuntime S} {begun : S → List SweptChild}
    (counts : CountsStarts sdk begun) where
  begun-for_each :
      (cs : List SweptChild) (w : World S)
      → begun (for_each sdk.start_child cs w).ext ≡ begun w.ext ++ cs
  begun-for_each [] w = sym (append-nil (begun w.ext))
  begun-for_each (c ∷ cs) w =
      begun-for_each cs (sdk.start_child c w)
      ∙ ap (λ l. l ++ cs) (counts.adds c w)
      ∙ append_assoc (begun w.ext) (c ∷ []) cs

  tick_lem :
      (t : Temporal S) (w : World S) (ids : List Text)
      → Undisturbed S t
      → (list_active_tenant_ids w).0 ≡ ok ids
      → sweep_tick t sdk w ≡ (
        ok (length ids, children_of [] ids),
        for_each sdk.start_child (children_of [] ids) (list_active_tenant_ids w).1,
      )
  unfolding sweep_tick
  tick_lem t w ids alone h = cc (alone.first_run (List Text) list_active_tenant_ids w ids h, h)

  -- A tick whose listing succeeds, with nothing else running, begins the children that it answers and
  -- no others, behind those that were begun before. For each ID there is exactly one of them if some
  -- active tenant has it and none otherwise, whatever order the database lists the tenants in and
  -- however often; and each child has the workflow ID of its tenant's manual reconciliation.
  pub tick_starts_active_tenants :
      (t : Temporal S) (w : World S) (ids : List Text) (id : Text)
      → Undisturbed S t
      → (list_active_tenant_ids w).0 ≡ ok ids
      → (children : List SweptChild) × ((sweep_tick t sdk w).0 ≡ ok (length ids, children))
        × (begun (sweep_tick t sdk w).1.ext ≡ begun w.ext ++ children)
        × (children_for id children ≡ (if has_active id w.tenants then 1 else 0))
        × (well_named children ≡ true)
  unfolding was_started
  tick_starts_active_tenants t w ids id alone h =
      let cs = children_of [] ids in
      let ran = tick_lem t w ids alone h in
      (
        cs,
        ap (λ p. p.0) ran,
        ap (λ p. begun p.1.ext) ran
            ∙ begun-for_each cs (list_active_tenant_ids w).1
            ∙ ap (λ s. begun s ++ cs) (listing-ext w),
        cc (children_for-children_of id [] ids, listed_are_active w ids id h),
        well_named-children_of [] ids,
      )

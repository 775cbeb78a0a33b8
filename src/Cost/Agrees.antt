-- ===== src/Cost/Agrees.antt =====
-- The metrics and the endpoint tell the same cost.
use tenantflow.Prelude.{
  ℕ, Text, true, false, ◌≡◌, refl, sym, ap, ◌∙◌, subst, List, [], ◌∷◌, ◌++◌, map, Option, some,
  is_some, not, text_eq, text_eq_iff, Bool-cases, inl, inr, if◌then◌else◌,
}
use tenantflow.Model.{Tenant, deleted, same_status}
use tenantflow.World.{
  World, Act, Answer, ok, answered, or_not_found, find_tenant, tenant_id_of_found, HasUniqueIds,
  statement,
}
use tenantflow.Repository.{matching, get_tenant, select_tenant}
use tenantflow.Recorder.{Instance}
use tenantflow.Handlers.Reads.{shown}
use tenantflow.Cost.{
  Floats, Resources, Estimate, TenantResources, TenantEstimate, Sample, samples_of, all_samples,
  collect,
}
use tenantflow.Cost.Measured.{
  CostResponse, cost_response, fetched, measured, measured_row, tenant_resources,
  list_tenant_resources, priced, cost_tenant, load_estimates, scrape,
}

module _ (n : Floats) (id : Text) where
  -- The samples with the tenant's label.
  abbrev pub labelled : List (Sample n) → List (Sample n)
  labelled = matching (λ (s : Sample n). text_eq s.tenant id)

  own_samples :
      (t : TenantEstimate n) (rest : List (Sample n))
      → text_eq t.tenant_id id ≡ true
      → labelled (samples_of n t ++ rest) ≡ samples_of n t ++ labelled rest
  unfolding samples_of matching
  own_samples t rest own = rw own refl

  other_samples :
      (t : TenantEstimate n) (rest : List (Sample n))
      → text_eq t.tenant_id id ≡ false
      → labelled (samples_of n t ++ rest) ≡ labelled rest
  unfolding samples_of matching
  other_samples t rest other = rw other refl

  without_more :
      (t : TenantEstimate n) (rest : List (Sample n))
      → rest ≡ []
      → samples_of n t ++ rest ≡ samples_of n t
  unfolding samples_of
  without_more t rest e = rw e refl

module _ (n : Floats) where
  abbrev estimated : Text → Resources → Estimate n → TenantEstimate n
  estimated id r e = record { tenant_id = id; resources = r; estimate = e }

  -- What the endpoint shows, as the loader would give it.
  abbrev pub shown_estimate : CostResponse n → TenantEstimate n
  shown_estimate r = estimated r.tenant_id r.resources r.estimate

module _ {S : Type 0} (sizes : Text → Option ℕ) (runs : List Instance) (month : ℕ)
    (n : Floats) where
  statement_done : {A : Type 0} (f : Act S A) (w : World S) → w.answers ≡ [] → statement f w ≡ f w
  unfolding statement
  statement_done f w e = ap (λ (as' : List Answer). answered as' f w) e

  abbrev listed : World S → List Tenant
  listed w = matching (λ t. not (same_status t.status deleted)) w.tenants

  abbrev estimate_of : World S → Tenant → TenantEstimate n
  estimate_of w t = priced n (measured_row sizes runs month w t)

  abbrev rows_of : World S → List TenantResources
  rows_of w = map (measured_row sizes runs month w) (listed w)

  scrape_lem :
      (w : World S)
      → w.answers ≡ []
      → scrape sizes runs month n w ≡ all_samples n (map (priced n) (rows_of w))
  unfolding scrape load_estimates list_tenant_resources collect
  scrape_lem w e = rw (statement_done (λ u. (ok (rows_of u), u)) w e) refl

  cost_tenant_lem :
      (w : World S) (id : Text) (t : Tenant)
      → w.answers ≡ []
      → find_tenant id w.tenants ≡ some t
      → (cost_tenant sizes runs month n id w).0
        ≡ shown (cost_response n id (measured sizes runs month w t))
  unfolding cost_tenant tenant_resources get_tenant select_tenant
  cost_tenant_lem w id t e found =
      rw
        (
          statement_done (select_tenant id) w e,
          found,
          statement_done
              (λ u.
                or_not_found (fetched (measured sizes runs month u) (find_tenant id u.tenants)) u)
              w e,
          found,
        )
        refl

  shown_sampled :
      (w : World S) (id : Text) (t : Tenant) (r : CostResponse n)
      → w.answers ≡ []
      → find_tenant id w.tenants ≡ some t
      → (cost_tenant sizes runs month n id w).0 ≡ shown r
      → estimate_of w t ≡ shown_estimate n r
  shown_sampled w id t r e found asked =
      let own : t.tenant_id ≡ id = tenant_id_of_found id t w.tenants found in
      let m = measured sizes runs month w t in
      let same : cost_response n id m ≡ r = cc (cost_tenant_lem w id t e found) in
      subst (λ r'. estimate_of w t ≡ shown_estimate n r') same
        (ap (λ (i : Text). estimated n i m (cost_response n id m).estimate) own)

  abbrev estimates : World S → List Tenant → List (TenantEstimate n)
  estimates w ts = map (priced n) (
      map (measured_row sizes runs month w) (matching (λ t. not (same_status t.status deleted)) ts))

  unknown_has_none :
      (w : World S) (id : Text) (ts : List Tenant)
      → is_some (find_tenant id ts) ≡ false
      → labelled n id (all_samples n (estimates w ts)) ≡ []
  unfolding find_tenant matching
  unknown_has_none w id [] h = refl
  unknown_has_none w id (t ∷ ts) h = elim (Bool-cases (text_eq t.tenant_id id)) [
    | inl own ↦ absurd (cc (rw own at h))
    | inr other ↦
        let rest = unknown_has_none w id ts (rw other at h) in
        elim (Bool-cases (same_status t.status deleted)) [
          | inl gone ↦ rw gone rest
          | inr kept ↦ rw kept (other_samples n id (estimate_of w t) _ other ∙ rest)
        ]
  ]

  known_has_own :
      (w : World S) (id : Text) (t : Tenant) (ts : List Tenant)
      → HasUniqueIds ts
      → find_tenant id ts ≡ some t
      → labelled n id (all_samples n (estimates w ts))
        ≡ (if same_status t.status deleted then [] else samples_of n (estimate_of w t))
  unfolding find_tenant matching
  known_has_own w id t [] unique e = absurd (cc e)
  known_has_own w id t (u ∷ us) unique e = elim (Bool-cases (text_eq u.tenant_id id)) [
    | inl own ↦
        let same : u ≡ t = cc (rw own at e) in
        let once = unknown_has_none w id us (
          subst (λ k. is_some (find_tenant k us) ≡ false) ((text_eq_iff u.tenant_id id).0 own)
            unique.0) in
        subst
          (λ v.
            labelled n id (all_samples n (estimates w (u ∷ us)))
            ≡ (if same_status v.status deleted then [] else samples_of n (estimate_of w v)))
          same
          (elim (Bool-cases (same_status u.status deleted)) [
            | inl gone ↦ rw gone once
            | inr kept ↦ rw kept (
                own_samples n id (estimate_of w u) _ own
                ∙ without_more n id (estimate_of w u) _ once)
          ])
    | inr other ↦
        let rest = known_has_own w id t us unique.1 (rw other at e) in
        elim (Bool-cases (same_status u.status deleted)) [
          | inl gone ↦ rw gone rest
          | inr kept ↦ rw kept (other_samples n id (estimate_of w u) _ other ∙ rest)
        ]
  ]

  -- If the database answers and the tenants' IDs are unique, the samples of a scrape with a tenant's
  -- label are just those of the very estimate that the cost endpoint shows of that tenant at that
  -- moment, and none if the tenant is deleted.
  pub scrape_shows_costs :
      (w : World S) (id : Text) (t : Tenant) (r : CostResponse n)
      → w.answers ≡ []
      → HasUniqueIds w.tenants
      → find_tenant id w.tenants ≡ some t
      → (cost_tenant sizes runs month n id w).0 ≡ shown r
      → labelled n id (scrape sizes runs month n w)
        ≡ (if same_status t.status deleted then [] else samples_of n (shown_estimate n r))
  scrape_shows_costs w id t r answering unique found asked =
      rw (scrape_lem w answering, sym (shown_sampled w id t r answering found asked))
        (known_has_own w id t w.tenants unique found)

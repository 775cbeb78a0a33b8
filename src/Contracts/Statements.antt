-- ===== src/Contracts/Statements.antt =====
-- Contracts of the statements that most activities end with or look up.
use tenantflow.Prelude.{
  ℕ, Text, List, ◌∷◌, Option, none, some, ◌≡◌, refl, sym, subst, Bool-cases, inl, inr, is_some,
}
use tenantflow.Model.{AuditEvent, AuditEventType, Payload}
use tenantflow.World.{World, Answer, ok, or_not_found, find_tenant, advance}
use tenantflow.Repository.{write_event, insert_event}
use tenantflow.Activities.Common.{record_event}
use tenantflow.Activities.Reconcile.{write_audit}
use tenantflow.Contracts.{Holds, Keeps, Holds-statement}

-- `I` does not look at the clock, at the coming answers or at the audit trail.
pub record IgnoresTrail {S : Type 0} (I : World S → Type 0) : Type 0 where
  pub of_clock : (w : World S) (rest : List Answer) (c : ℕ) → I w → I (advance w rest c)
  pub of_event : (w : World S) (e : AuditEvent) → I w → I (record w { audit = e ∷ w.audit })

-- What stands outside the control-plane database.
pub ignores_ext : {S : Type 0} (P : S → Type 0) → IgnoresTrail (λ w. P w.ext)
ignores_ext P = record { of_clock = λ w rest c i. i; of_event = λ w e i. i }

module _ {S : Type 0} {I : World S → Type 0} (ignores : IgnoresTrail I) where
  insert_event_keeps : (e : AuditEvent) (w : World S) → I w → I (insert_event e w).1
  unfolding insert_event
  insert_event_keeps e w i = elim (Bool-cases (is_some (find_tenant e.tenant_id w.tenants))) [
    | inl known ↦ rw known (ignores.of_event w (record e { created_at = w.now }) i)
    | inr unknown ↦ rw unknown i
  ]

  pub Keeps-write_event : (e : AuditEvent) → Keeps I (write_event e)
  unfolding write_event
  Keeps-write_event e =
      Holds-statement (insert_event e) ignores.of_clock (λ w i. i)
        (record { ends = λ w i. insert_event_keeps e w i; gives = λ w a i h. tt })

  pub Keeps-record_event :
      (id : Text) (kind : AuditEventType) (payload : Payload)
      → Keeps I (record_event id kind payload)
  unfolding record_event
  Keeps-record_event id kind payload = Keeps-write_event _

  pub Keeps-write_audit :
      (workflow_id id : Text) (kind : AuditEventType) (payload : Payload)
      → Keeps I (write_audit workflow_id id kind payload)
  unfolding write_audit
  Keeps-write_audit workflow_id id kind payload = Keeps-write_event _

module _ {S A : Type 0} where
  or_not_found-same : (o : Option A) (w : World S) → (or_not_found o w).1 ≡ w
  or_not_found-same none w = refl
  or_not_found-same (some a) w = refl

  or_not_found-some :
      (o : Option A) (w : World S) (a : A) → (or_not_found o w).0 ≡ ok a → o ≡ some a
  or_not_found-some none w a e = absurd (cc e)
  or_not_found-some (some b) w a e = cc

  -- A read of a row that may be missing.
  pub Holds-select :
      {I : World S → Type 0} {Q : A → World S → Type 0} (o : World S → Option A)
      → ((w : World S) (a : A) → I w → o w ≡ some a → Q a w)
      → Holds I I Q (λ w. or_not_found (o w) w)
  Holds-select {I} {Q} o q = record {
    ends = λ w i. subst (λ u. I u) (sym (or_not_found-same (o w) w)) i;
    gives = λ w a i e.
        subst (λ u. Q a u) (sym (or_not_found-same (o w) w))
          (q w a i (or_not_found-some (o w) w a e));
  }

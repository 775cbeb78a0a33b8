-- ===== src/Workflow/Sweep/Ends.antt =====
-- When a run of the sweep ends, and how.
use native.Mathlib.Nat.{mod_self, mod-eq_of_lt}
use tenantflow.Prelude.{
  ℕ, zero, suc, positive, ⊤, Bool, true, false, ◌≡◌, refl, ◌≤◌, ◌<◌, ◌+◌, ◌%◌, ltb, ◌==◌, Option,
  none, some, Bool-cases, Option-cases, inl, inr, arith, subst, List, ◌≢◌, Int64, pos, negsuc,
}
use tenantflow.World.{World, Result, ok, err, non_retryable, invalid_sweep_interval}
use tenantflow.Call.{Result-cases}
use tenantflow.Workflow.Temporal.{Temporal}
use tenantflow.Workflow.Sweep.{
  SweepInput, SweepEnd, SweptChild, finished, continue_as_new, SweepRuntime, cadence, is_last,
  for_each, sweep_tick, after_tick, sweep_loop, reconcile_sweep_workflow,
}

-- MaxSweeps does not end the run before the sweep at which it continues as new.
abbrev pub outlives_run : SweepInput → Bool
outlives_run i = elim (positive i.max_sweeps) [ some max ↦ ltb (cadence i) max | none ↦ true ]

positive_is_positive : (n : Int64) → positive n ≢ some 0
positive_is_positive (pos zero) e = absurd (cc e)
positive_is_positive (pos (suc n)) e = ground (arith, e)
positive_is_positive (negsuc n) e = absurd (cc e)

cadence_is_positive : (i : SweepInput) → cadence i ≢ 0
unfolding cadence
cadence_is_positive i e = elim (Option-cases (positive i.continue_after)) [
  | inl none_set ↦ ground (arith, none_set, e)
  | inr (n, set) ↦ ground (arith, set, e, positive_is_positive i.continue_after)
]

nothing_is_done : (i : SweepInput) → is_last i 0 ≡ false
unfolding is_last
nothing_is_done i = elim (Option-cases (positive i.max_sweeps)) [
  | inl none_set ↦ rw (is_last, none_set) refl
  | inr (n, set) ↦ ground (arith, set, positive_is_positive i.max_sweeps)
]

-- A result tells exactly MaxSweeps sweeps, at most as many as a run makes; a run that continues does
-- so with its own input.
abbrev pub IsProperEnd : SweepInput → Result SweepEnd → Type 0
IsProperEnd i (ok (finished sweeps found)) =
    (positive i.max_sweeps ≡ some sweeps) × (sweeps ≤ cadence i)
IsProperEnd i (ok (continue_as_new j)) = (j ≡ i) × (outlives_run i ≡ true)
IsProperEnd i (err e) = ⊤

abbrev pub EndsProperly : {S : Type 0} → SweepInput → Option (Result SweepEnd × World S) → Type 0
EndsProperly {S} i run =
    (r : Result SweepEnd) × (w : World S) × (run ≡ some (r, w)) × IsProperEnd i r

-- The first sweep that MaxSweeps calls the last is the one of that number.
last_is_max :
    (i : SweepInput) (k : ℕ)
    → is_last i k ≡ false
    → is_last i (suc k) ≡ true
    → positive i.max_sweeps ≡ some (suc k)
unfolding is_last
last_is_max i k before now = elim (Option-cases (positive i.max_sweeps)) [
  | inl none_set ↦ ground (arith, none_set)
  | inr (max, set) ↦ ground (arith, set)
]

outlives_at_cadence : (i : SweepInput) → is_last i (cadence i) ≡ false → outlives_run i ≡ true
unfolding is_last
outlives_at_cadence i h = elim (Option-cases (positive i.max_sweeps)) [
  | inl none_set ↦ ground (arith, none_set)
  | inr (max, set) ↦ ground (arith, set)
]

ltb_lt : (a b : ℕ) → ltb a b ≡ true → a < b
ltb_lt a b h = ground arith

-- Among the first `c` numbers only `c` is a multiple of `c`.
multiple_is_cadence : (k c : ℕ) → suc k ≤ c → (suc k % c == 0) ≡ true → suc k ≡ c
multiple_is_cadence k c le h = elim (Bool-cases (ltb (suc k) c)) [
  | inl lt ↦ ground (arith, h, mod-eq_of_lt (ltb_lt (suc k) c lt))
  | inr ge ↦ ground (arith, ge)
]

cadence_is_multiple : (k c : ℕ) → (suc k % c == 0) ≡ false → suc k ≢ c
cadence_is_multiple k c h e = ground (arith, mod_self c)

module _ {S : Type 0} (t : Temporal S) (sdk : SweepRuntime S) where
  after_tick-ends :
      (i : SweepInput) (k found : ℕ) (children : List SweptChild)
      (again : ℕ → World S → Option (Result SweepEnd × World S)) (w : World S)
      → suc k ≤ cadence i
      → is_last i k ≡ false
      → ((u : World S)
          → is_last i (suc k) ≡ false
          → suc k ≢ cadence i
          → EndsProperly i (again (suc k) u))
      → EndsProperly i (after_tick t sdk i (suc k) found children again w)
  unfolding after_tick
  after_tick-ends i k found children again w le before next =
      elim (Bool-cases (is_last i (suc k))) [
        | inl last ↦ (
          ok (finished (suc k) found),
          for_each sdk.await_child children w,
          rw last refl,
          (last_is_max i k before last, le),
        )
        | inr more ↦ elim (Bool-cases (suc k % cadence i == 0)) [
          | inl due ↦
              let at : suc k ≡ cadence i = multiple_is_cadence k (cadence i) le due in
              (
                ok (continue_as_new i),
                w,
                rw (more, due) refl,
                (refl, outlives_at_cadence i (subst (λ n. is_last i n ≡ false) at more)),
              )
          | inr early ↦ elim (Result-cases (sdk.sleep i.interval w).0) [
            | inl (a, slept) ↦
                rw (more, early, slept)
                  (next (sdk.sleep i.interval w).1 more (cadence_is_multiple k (cadence i) early))
            | inr (x, woken) ↦ (err x, (sdk.sleep i.interval w).1, rw (more, early, woken) refl, tt)
          ]
        ]
      ]

  loop_step :
      (n : ℕ) (i : SweepInput) (sweeps : ℕ) (w : World S)
      → suc sweeps ≤ cadence i
      → is_last i sweeps ≡ false
      → ((u : World S)
          → is_last i (suc sweeps) ≡ false
          → suc sweeps ≢ cadence i
          → EndsProperly i (sweep_loop t sdk n i (suc sweeps) u))
      → EndsProperly i (sweep_loop t sdk (suc n) i sweeps w)
  unfolding sweep_loop
  loop_step n i sweeps w le h next = elim (Result-cases (sweep_tick t sdk w).0) [
    | inr (x, failed) ↦ (err x, (sweep_tick t sdk w).1, rw (sweep_loop, failed) refl, tt)
    | inl ((found, children), listed) ↦
        rw (sweep_loop, listed)
          (after_tick-ends i sweeps found children (λ m u. sweep_loop t sdk n i m u)
            (sweep_tick t sdk w).1 le h next)
  ]

  sweep_loop-ends :
      (n : ℕ) (i : SweepInput) (sweeps : ℕ) (w : World S)
      → sweeps + suc n ≡ cadence i
      → is_last i sweeps ≡ false
      → EndsProperly i (sweep_loop t sdk (suc n) i sweeps w)
  sweep_loop-ends zero i sweeps w e h =
      loop_step zero i sweeps w (omega (arith, e)) h
        λ u more early. absurd (early (omega (arith, e)))
  sweep_loop-ends (suc m) i sweeps w e h =
      loop_step (suc m) i sweeps w (omega (arith, e)) h
        λ u more early. sweep_loop-ends m i (suc sweeps) u (omega (arith, e)) more

  -- A run makes at most as many sweeps as ContinueAfter says (100 if it is not positive): with fuel
  -- for so many, it ends. It ends with an error; or with a result after exactly MaxSweeps sweeps,
  -- which are no more than that; or it continues as new with the same input, and then MaxSweeps is
  -- not positive or larger than the sweeps of a run.
  pub reconcile_sweep_workflow-ends :
      (i : SweepInput) (w : World S)
      → EndsProperly i (reconcile_sweep_workflow t sdk (cadence i) i w)
  unfolding reconcile_sweep_workflow
  reconcile_sweep_workflow-ends i w = elim (Option-cases (positive i.interval)) [
    | inl invalid ↦ (
      err (non_retryable invalid_sweep_interval),
      w,
      rw (reconcile_sweep_workflow, invalid) refl,
      tt,
    )
    | inr (n, valid) ↦ rw (reconcile_sweep_workflow, valid) (from_zero (cadence i) refl)
  ]
    where
      from_zero : (fuel : ℕ) → cadence i ≡ fuel → EndsProperly i (sweep_loop t sdk fuel i 0 w)
      from_zero zero e = absurd (cadence_is_positive i e)
      from_zero (suc n) e = sweep_loop-ends n i 0 w (omega (arith, e)) (nothing_is_done i)

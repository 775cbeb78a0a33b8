-- ===== src/Repository/Sorted.antt =====
-- ORDER BY created_at DESC: what the order of `newest_first` is, and that it keeps every row.
use tenantflow.Prelude.{
  ℕ, ⊤, ◌≡◌, refl, ap, zero, suc, true, Bool, ◌⊎◌, take, length, List, [], ◌∷◌, arith, ◌≤◌, ltb,
  Bool-cases, inl, inr,
}
use tenantflow.Repository.Sort.{newest_first, insert_by_date, matching}

-- A row stands in a list.
pub data Stands {A : Type 0} (b : A) : List A → Type 0 where
  first : {bs : List A} → Stands b (b ∷ bs)
  later : {c : A} {bs : List A} → Stands b bs → Stands b (c ∷ bs)

module _ {A : Type 0} where
  pub Stands-of_take : (c : A) (n : ℕ) (bs : List A) → Stands c (take n bs) → Stands c bs
  Stands-of_take c zero bs s = elim s [ ]
  Stands-of_take c (suc n) [] s = elim s [ ]
  Stands-of_take c (suc n) (b ∷ bs) first = first
  Stands-of_take c (suc n) (b ∷ bs) (later s) = later (Stands-of_take c n bs s)

  pub length-take-le : (n : ℕ) (bs : List A) → length (take n bs) ≤ n
  length-take-le zero bs = omega arith
  length-take-le (suc n) [] = omega arith
  length-take-le (suc n) (b ∷ bs) = omega (arith, length-take-le n bs)

  past_second : {c b d : A} {ds : List A} → Stands c (b ∷ ds) → Stands c (b ∷ d ∷ ds)
  past_second first = first
  past_second (later s) = later (later s)

  swapped :
      (c b d : A) (ds : List A) {es : List A}
      → (Stands c es → Stands c (b ∷ ds))
      → Stands c (d ∷ es)
      → Stands c (b ∷ d ∷ ds)
  swapped c b d ds f first = later first
  swapped c b d ds f (later s) = past_second (f s)

module _ {A : Type 0} (p : A → Bool) where
  pub Stands-matching :
      (a : A) (as' : List A) → Stands a as' → p a ≡ true → Stands a (matching p as')
  unfolding matching
  Stands-matching a [] s h = elim s [ ]
  Stands-matching a (b ∷ bs) first h = rw h first
  Stands-matching a (b ∷ bs) (later s) h = elim (Bool-cases (p b)) [
    | inl in_too ↦ rw in_too (later (Stands-matching a bs s h))
    | inr out ↦ rw out (Stands-matching a bs s h)
  ]

  head_of_matching :
      {a b : A} {bs cs : List A}
      → (Stands a cs → Stands a bs × (p a ≡ true))
      → p b ≡ true
      → Stands a (b ∷ cs)
      → Stands a (b ∷ bs) × (p a ≡ true)
  head_of_matching f h first = (first, h)
  head_of_matching f h (later s) = let (there, passes) = f s in (later there, passes)

  -- What is found is a row that passes.
  pub Stands-of_matching :
      (a : A) (as' : List A) → Stands a (matching p as') → Stands a as' × (p a ≡ true)
  unfolding matching
  Stands-of_matching a [] s = elim s [ ]
  Stands-of_matching a (b ∷ bs) s = elim (Bool-cases (p b)) [
    | inl is_in ↦ head_of_matching (Stands-of_matching a bs) is_in (rw is_in at s)
    | inr out ↦ let (there, h) = Stands-of_matching a bs (rw out at s) in (later there, h)
  ]

module _ {A : Type 0} (date : A → ℕ) where
  abbrev pub AllUpTo : ℕ → List A → Type 0
  AllUpTo n [] = ⊤
  AllUpTo n (b ∷ bs) = ((date b) ≤ n) × AllUpTo n bs

  abbrev pub NewestFirst : List A → Type 0
  NewestFirst [] = ⊤
  NewestFirst (b ∷ bs) = AllUpTo (date b) bs × NewestFirst bs

  pub AllUpTo-weaken : (m n : ℕ) (bs : List A) → m ≤ n → AllUpTo m bs → AllUpTo n bs
  AllUpTo-weaken m n [] h a = tt
  AllUpTo-weaken m n (b ∷ bs) h a = (omega (arith, h, a.0), AllUpTo-weaken m n bs h a.1)

  AllUpTo-insert :
      (n : ℕ) (b : A) (bs : List A)
      → (date b) ≤ n
      → AllUpTo n bs
      → AllUpTo n (insert_by_date date b bs)
  unfolding insert_by_date
  AllUpTo-insert n b [] h a = (h, tt)
  AllUpTo-insert n b (c ∷ cs) h a = elim (Bool-cases (ltb (date b) (date c))) [
    | inl older ↦ rw older (a.0, AllUpTo-insert n b cs h a.1)
    | inr newer ↦ rw newer (h, a)
  ]

  NewestFirst-insert :
      (b : A) (bs : List A) → NewestFirst bs → NewestFirst (insert_by_date date b bs)
  unfolding insert_by_date
  NewestFirst-insert b [] s = (tt, tt)
  NewestFirst-insert b (c ∷ cs) s = elim (Bool-cases (ltb (date b) (date c))) [
    | inl older ↦
        rw older
          (AllUpTo-insert (date c) b cs (ground (arith, older)) s.0, NewestFirst-insert b cs s.1)
    | inr newer ↦ rw newer (
      (ground (arith, newer), AllUpTo-weaken (date c) (date b) cs (ground (arith, newer)) s.0),
      s,
    )
  ]

  pub NewestFirst-sorted : (bs : List A) → NewestFirst (newest_first date bs)
  unfolding newest_first
  NewestFirst-sorted [] = tt
  NewestFirst-sorted (b ∷ bs) = NewestFirst-insert b _ (NewestFirst-sorted bs)

  Stands-inserted : (b : A) (bs : List A) → Stands b (insert_by_date date b bs)
  unfolding insert_by_date
  Stands-inserted b [] = first
  Stands-inserted b (c ∷ cs) = elim (Bool-cases (ltb (date b) (date c))) [
    | inl older ↦ rw older (later (Stands-inserted b cs))
    | inr newer ↦ rw newer first
  ]

  under_head :
      {c d : A} {ds es : List A}
      → (Stands c ds → Stands c es)
      → Stands c (d ∷ ds)
      → Stands c (d ∷ es)
  under_head f first = first
  under_head f (later s) = later (f s)

  Stands-insert : (c b : A) (bs : List A) → Stands c bs → Stands c (insert_by_date date b bs)
  unfolding insert_by_date
  Stands-insert c b [] s = later s
  Stands-insert c b (d ∷ ds) s = elim (Bool-cases (ltb (date b) (date d))) [
    | inl older ↦ rw older (under_head (Stands-insert c b ds) s)
    | inr newer ↦ rw newer (later s)
  ]

  pub Stands-sorted : (c : A) (bs : List A) → Stands c bs → Stands c (newest_first date bs)
  unfolding newest_first
  Stands-sorted c [] s = elim s [ ]
  Stands-sorted c (b ∷ bs) first = Stands-inserted b _
  Stands-sorted c (b ∷ bs) (later s) = Stands-insert c b _ (Stands-sorted c bs s)

  pub Stands-below : (c : A) (n : ℕ) (bs : List A) → AllUpTo n bs → Stands c bs → (date c) ≤ n
  Stands-below c n [] a s = elim s [ ]
  Stands-below c n (b ∷ bs) a first = a.0
  Stands-below c n (b ∷ bs) a (later s) = Stands-below c n bs a.1 s

  Stands-of_insert :
      (c b : A) (bs : List A) → Stands c (insert_by_date date b bs) → Stands c (b ∷ bs)
  unfolding insert_by_date
  Stands-of_insert c b [] s = s
  Stands-of_insert c b (d ∷ ds) s = elim (Bool-cases (ltb (date b) (date d))) [
    | inl older ↦ swapped c b d ds (Stands-of_insert c b ds) (rw older at s)
    | inr newer ↦ rw newer at s
  ]

  pub Stands-of_sorted : (c : A) (bs : List A) → Stands c (newest_first date bs) → Stands c bs
  unfolding newest_first
  Stands-of_sorted c [] s = s
  Stands-of_sorted c (b ∷ bs) s =
      under_head (Stands-of_sorted c bs) (Stands-of_insert c b (newest_first date bs) s)

  -- The rows from `n` on.
  abbrev pub AllFrom : ℕ → List A → Type 0
  AllFrom n [] = ⊤
  AllFrom n (b ∷ bs) = (n ≤ date b) × AllFrom n bs

  -- LIMIT: a row that is left out gave way to as many as were asked for, none of them older.
  pub Stands-take :
      (c : A) (n : ℕ) (bs : List A)
      → NewestFirst bs
      → Stands c bs
      → Stands c (take n bs) ⊎ ((length (take n bs) ≡ n) × AllFrom (date c) (take n bs))
  Stands-take c zero bs sorted s = inr (refl, tt)
  Stands-take c (suc n) [] sorted s = elim s [ ]
  Stands-take c (suc n) (b ∷ bs) sorted first = inl first
  Stands-take c (suc n) (b ∷ bs) sorted (later s) = elim (Stands-take c n bs sorted.1 s) [
    | inl kept ↦ inl (later kept)
    | inr (full, newer) ↦
        inr (ap (λ (k : ℕ). suc k) full, (Stands-below c (date b) bs sorted.0 s, newer))
  ]

  AllUpTo-take : (m n : ℕ) (bs : List A) → AllUpTo m bs → AllUpTo m (take n bs)
  AllUpTo-take m zero bs h = tt
  AllUpTo-take m (suc n) [] h = tt
  AllUpTo-take m (suc n) (b ∷ bs) h = (h.0, AllUpTo-take m n bs h.1)

  pub NewestFirst-take : (n : ℕ) (bs : List A) → NewestFirst bs → NewestFirst (take n bs)
  NewestFirst-take zero bs h = tt
  NewestFirst-take (suc n) [] h = tt
  NewestFirst-take (suc n) (b ∷ bs) h = (AllUpTo-take (date b) n bs h.0, NewestFirst-take n bs h.1)

-- ===== src/Property/Settled.antt =====
-- A unit is marked as occupied exactly when an active resident has it: what the tables say of this,
-- and how `syncUnitOccupancy` restores it.
use tomafix_backend.Prelude.{
  ℕ, ◌≡◌, ◌≢◌, refl, sym, subst, Bool, true, false, List, [], ◌∷◌, Option, none, some, ◌==◌, nat_eq,
  is_some, find, find_holds, update_first, filter_rows, length, Bool-cases, Option-cases, inl, inr,
  arith, All, All-map, All-apply, Pairwise, Pairwise-update_first, All-of_each, All-not_found,
  update_first-none, ◌||◌,
}
use tomafix_backend.Property.Tables.{UnitStatus, unit_status_eq, Dwelling, Resident, Premises}
use tomafix_backend.Property.Units.{
  is_unit, lives_in, status_for, with_status, next_status, synced_found, synced,
}

-- An active resident has the unit.
abbrev pub lived_in : ℕ → ℕ → List Resident → Bool
lived_in workspace_id id residents = is_some (find (lives_in workspace_id id) residents)

abbrev pub Fits : List Resident → Dwelling → Type 0
Fits residents u = (u.status == UnitStatus.occupied) ≡ lived_in u.workspace_id u.id residents

abbrev pub IsKeyed : List Dwelling → Type 0
IsKeyed units = Pairwise (λ u v. u.id ≢ v.id) units

-- Every unit fits, but for those that the test excepts.
abbrev pub FitsBut : (Dwelling → Bool) → Premises → Type 0
FitsBut except p = IsKeyed p.units × All (λ u. except u ≡ false → Fits p.residents u) p.units

abbrev pub IsSettled : Premises → Type 0
IsSettled p = IsKeyed p.units × All (Fits p.residents) p.units

abbrev pub is_of : ℕ → Option ℕ → Dwelling → Bool
is_of workspace_id none u = false
is_of workspace_id (some id) u = is_unit workspace_id id u

count-lived_in :
    (q : Resident → Bool) (rs : List Resident)
    → (status_for (length (filter_rows q rs)) == UnitStatus.occupied) ≡ is_some (find q rs)
count-lived_in q [] = refl
count-lived_in q (r ∷ rs) = elim (Bool-cases (q r)) [
  | inl e ↦ rw e (ground arith)
  | inr e ↦ rw e (count-lived_in q rs)
]

-- In a table with keys, the row that is found is the only one.
abbrev pub Alone : (Dwelling → Bool) → Dwelling → Dwelling → Type 0
Alone p u v = p u ≡ true → p v ≡ false

module _ (p : Dwelling → Bool) (P : Dwelling → Type 0) where
  All-but_first :
      (us : List Dwelling) (f : Dwelling → Dwelling) (u : Dwelling)
      → Pairwise (Alone p) us
      → find p us ≡ some u
      → P (f u)
      → All (λ v. p v ≡ false → P v) us
      → All P (update_first p f us)
  All-but_first [] f u k e h a = tt
  All-but_first (v ∷ us) f u (k, ks) e h (a, rest) = elim (Bool-cases (p v)) [
    | inl t ↦
        let same : v ≡ u = ground arith in
        rw t (
          subst (λ u. P (f u)) (sym same) h,
          All-apply (λ w. p w ≡ false) P us rest (All-map (Alone p v) _ (λ w alone. alone t) us k),
        )
    | inr t ↦ rw t (a t, All-but_first us f u ks (rw t at e) h rest)
  ]

  -- The same, when the row is left as it was.
  All-and_first :
      (us : List Dwelling) (u : Dwelling)
      → Pairwise (Alone p) us
      → find p us ≡ some u
      → P u
      → All (λ v. p v ≡ false → P v) us
      → All P us
  All-and_first [] u k e h a = tt
  All-and_first (v ∷ us) u (k, ks) e h (a, rest) = elim (Bool-cases (p v)) [
    | inl t ↦
        let same : v ≡ u = ground arith in
        (
          subst P (sym same) h,
          All-apply (λ w. p w ≡ false) P us rest (All-map (Alone p v) _ (λ w alone. alone t) us k),
        )
    | inr t ↦ (a t, All-and_first us u ks (rw t at e) h rest)
  ]

Alone-keys : (ws id : ℕ) (u v : Dwelling) → u.id ≢ v.id → Alone (is_unit ws id) u v
Alone-keys ws id u v ne h = ground (arith, ne, h, nat_eq.same_iff u.id id, nat_eq.same_iff v.id id)

Pairwise-map :
    {A : Type 0} (R Q : A → A → Type 0) (xs : List A)
    → ((x y : A) → R x y → Q x y)
    → Pairwise R xs
    → Pairwise Q xs
Pairwise-map R Q [] f h = tt
Pairwise-map R Q (x ∷ xs) f (h, hs) = (All-map (R x) (Q x) (f x) xs h, Pairwise-map R Q xs f hs)

IsKeyed-with_status :
    (ws id : ℕ) (status : UnitStatus) (us : List Dwelling)
    → IsKeyed us
    → IsKeyed (update_first (is_unit ws id) (with_status status) us)
IsKeyed-with_status ws id status us h = elim (Option-cases (find (is_unit ws id) us)) [
  | inl missing ↦
      subst IsKeyed (sym (update_first-none (is_unit ws id) (with_status status) us missing)) h
  | inr (u, found) ↦
      Pairwise-update_first (λ u v. u.id ≢ v.id) (λ u v ne e. ne (sym e)) (is_unit ws id)
        (with_status status) us u found (All-of_each _ us λ v ne. ne) h
]

module _ (ws id : ℕ) (p : Premises) (except : Dwelling → Bool)
    (same : (u : Dwelling) (status : UnitStatus) → except (with_status status u) ≡ except u)
    (keyed : IsKeyed p.units)
    (fits : All (λ u. (except u || is_unit ws id u) ≡ false → Fits p.residents u) p.units) where
  others_fit : All (λ u. is_unit ws id u ≡ false → except u ≡ false → Fits p.residents u) p.units
  others_fit = All-map _ _ (λ u f other clear. f (rw (clear, other) refl)) p.units fits

  alone : Pairwise (Alone (is_unit ws id)) p.units
  alone = Pairwise-map _ _ p.units (Alone-keys ws id) keyed

  next-Fits :
      (u : Dwelling)
      → find (is_unit ws id) p.units ≡ some u
      → Fits p.residents (with_status (next_status ws id p) u)
  next-Fits u found =
      let holds = find_holds (is_unit ws id) p.units {x = u} found in
      let key : u.id ≡ id = ground (arith, holds, nat_eq.same_iff u.id id) in
      let here_too : u.workspace_id ≡ ws =
        ground (arith, holds, nat_eq.same_iff u.workspace_id ws) in
      rw (key, here_too) (count-lived_in (lives_in ws id) p.residents)

  synced_found-Fits :
      (o : Option Dwelling)
      → find (is_unit ws id) p.units ≡ o
      → FitsBut except (synced_found ws id o p)
  synced_found-Fits none missing =
      (keyed, All-apply _ _ p.units others_fit (All-not_found (is_unit ws id) p.units missing))
  synced_found-Fits (some u) found = elim (Bool-cases (u.status == next_status ws id p)) [
    | inl e ↦ rw e (
      keyed,
      All-and_first (is_unit ws id) (λ u. except u ≡ false → Fits p.residents u) p.units u alone
          found
          (λ _.
            subst (λ st. (st == UnitStatus.occupied) ≡ lived_in u.workspace_id u.id p.residents)
              (sym ((unit_status_eq.same_iff _ _).0 e)) (next-Fits u found))
          others_fit,
    )
    | inr e ↦ rw e (
      IsKeyed-with_status ws id (next_status ws id p) p.units keyed,
      All-but_first (is_unit ws id) (λ u. except u ≡ false → Fits p.residents u) p.units
          (with_status (next_status ws id p)) u alone found (λ _. next-Fits u found) others_fit,
    )
  ]

-- `syncUnitOccupancy` settles the unit that it is called for.
pub synced-Fits :
    (ws : ℕ) (unit : Option ℕ) (p : Premises) (except : Dwelling → Bool)
    → ((u : Dwelling) (status : UnitStatus) → except (with_status status u) ≡ except u)
    → FitsBut (λ u. except u || is_of ws unit u) p
    → FitsBut except (synced ws unit p)
synced-Fits ws none p except same (keyed, fits) =
    (keyed, All-map _ _ (λ u f clear. f (rw clear refl)) p.units fits)
synced-Fits ws (some id) p except same (keyed, fits) =
    synced_found-Fits ws id p except same keyed fits (find (is_unit ws id) p.units) refl

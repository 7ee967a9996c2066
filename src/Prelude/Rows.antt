-- ===== src/Prelude/Rows.antt =====
-- A table as a list of rows: `findUnique`, `findFirst`, `count` and `update`.
use Prim.Native.Nat.{ℕ, zero, suc, ◌≤◌}
use mathlib.Core.Path.{ap, ◌≡◌, refl, subst, ◌∙◌}
use mathlib.Core.Bool.{not, Bool, true}
use mathlib.Core.Logic.{inl, inr, ◌≢◌}
use mathlib.Core.Option
use mathlib.Core.Option.{Option, none, some}
use mathlib.Core.List.{List, [], ◌∷◌, ◌++◌}
use native.Mathlib.Omega.{arith}
use tomafix_backend.Prelude.Tests.{if◌then◌else◌, leb, ◌==◌, ==_refl, Eq, Bool-cases}

module _ {A : Type 0} where
  -- the first row that passes the test
  abbrev pub find : (A → Bool) → List A → Option A
  find p [] = none
  find p (x ∷ xs) = if p x then some x else find p xs

  -- every row that passes the test is rewritten; on a key that is one row
  abbrev pub update_where : (A → Bool) → (A → A) → List A → List A
  update_where p f [] = []
  update_where p f (x ∷ xs) = (if p x then f x else x) ∷ update_where p f xs

  abbrev pub delete_where : (A → Bool) → List A → List A
  delete_where p [] = []
  delete_where p (x ∷ xs) = if p x then delete_where p xs else x ∷ delete_where p xs

  abbrev pub filter_rows : (A → Bool) → List A → List A
  filter_rows p [] = []
  filter_rows p (x ∷ xs) = if p x then x ∷ filter_rows p xs else filter_rows p xs

  abbrev pub length : List A → ℕ
  length [] = 0
  length (x ∷ xs) = suc (length xs)

  abbrev pub take : ℕ → List A → List A
  take n [] = []
  take zero (x ∷ xs) = []
  take (suc n) (x ∷ xs) = x ∷ take n xs

  abbrev pub drop : ℕ → List A → List A
  drop n [] = []
  drop zero (x ∷ xs) = x ∷ xs
  drop (suc n) (x ∷ xs) = drop n xs

  pub length-take-le : (n : ℕ) (xs : List A) → length (take n xs) ≤ n
  length-take-le n [] = omega arith
  length-take-le zero (x ∷ xs) = omega arith
  length-take-le (suc n) (x ∷ xs) = omega (arith, length-take-le n xs)

  pub find_holds : (p : A → Bool) (xs : List A) {x : A} → find p xs ≡ some x → p x ≡ true
  find_holds p [] e = ground arith
  find_holds p (y ∷ xs) {x} e = ground (arith, find_holds p xs {x = x})

  pub find-append_new :
      (p : A → Bool) (xs : List A) (y : A)
      → find p xs ≡ none
      → find p (xs ++ y ∷ []) ≡ (if p y then some y else none)
  find-append_new p [] y e = ground arith
  find-append_new p (x ∷ xs) y e = ground (arith, find-append_new p xs y)

  -- An update that keeps the key is found in place of the old row.
  pub find-update_self :
      (p : A → Bool) (f : A → A) (xs : List A) {x : A}
      → find p xs ≡ some x
      → p (f x) ≡ true
      → find p (update_where p f xs) ≡ some (f x)
  find-update_self p f [] e k = ground arith
  find-update_self p f (y ∷ xs) {x} e k = ground (arith, find-update_self p f xs {x = x})

-- `orderBy` ascending; rows with the same key keep their order.
module _ {A : Type 0} (key : A → ℕ) where
  abbrev insert_by : A → List A → List A
  insert_by x [] = x ∷ []
  insert_by x (y ∷ ys) = if leb (key x) (key y) then x ∷ y ∷ ys else y ∷ insert_by x ys

  abbrev pub sort_by : List A → List A
  sort_by [] = []
  sort_by (x ∷ xs) = insert_by x (sort_by xs)

module _ {A : Type 0} (P : A → Type 0) where
  abbrev pub All : List A → Type 0
  All [] = Unit
  All (x ∷ xs) = P x × All xs

  pub All-update_where :
      (p : A → Bool) (f : A → A) (xs : List A)
      → ((x : A) → P x → P (f x))
      → All xs
      → All (update_where p f xs)
  All-update_where p f [] keep h = tt
  All-update_where p f (x ∷ xs) keep (h, hs) = elim (Bool-cases (p x)) [
    | inl e ↦ rw e (keep x h, All-update_where p f xs keep hs)
    | inr e ↦ rw e (h, All-update_where p f xs keep hs)
  ]

  pub All-find : (p : A → Bool) (xs : List A) {x : A} → All xs → find p xs ≡ some x → P x
  All-find p [] h e = cc
  All-find p (y ∷ xs) {x} (h, hs) e = elim (Bool-cases (p y)) [
    | inl t ↦ let same : y ≡ x = ground arith in subst P same h
    | inr t ↦ All-find p xs {x = x} hs (rw t at e)
  ]

-- Rows with a key.
module _ {A K : Type 0} ⦃e : Eq K⦄ (key : A → K) where
  abbrev by_key : K → A → Bool
  by_key id x = key x == id

  -- An update that keeps the keys is seen under its own key, and under no other.
  pub find-update_key :
      (id j : K) (f : A → A) (xs : List A)
      → ((x : A) → key (f x) ≡ key x)
      → find (by_key j) (update_where (by_key id) f xs)
        ≡ (if id == j then Option.map f (find (by_key j) xs) else find (by_key j) xs)
  find-update_key id j f [] keep = ground arith
  find-update_key id j f (x ∷ xs) keep = ground (
    arith,
    keep x,
    find-update_key id j f xs keep,
    e.same_iff (key x) id,
    e.same_iff (key x) j,
    e.same_iff id j,
  )

  pub find-append_same :
      (id : K) (xs : List A) (y : A)
      → find (by_key id) xs ≡ none
      → key y ≡ id
      → find (by_key id) (xs ++ y ∷ []) ≡ some y
  find-append_same id xs y new same =
      find-append_new (by_key id) xs y new ∙ rw ((e.same_iff (key y) id).1 same) refl

  pub find-delete_key :
      (id j : K) (xs : List A)
      → find (by_key j) (delete_where (by_key id) xs)
        ≡ (if id == j then none else find (by_key j) xs)
  find-delete_key id j [] = ground arith
  find-delete_key id j (x ∷ xs) =
      ground (
        arith,
        find-delete_key id j xs,
        e.same_iff (key x) id,
        e.same_iff (key x) j,
        e.same_iff id j,
      )

  pub find-update_same :
      (id : K) (f : A → A) (xs : List A) (x : A)
      → ((x : A) → key (f x) ≡ key x)
      → find (by_key id) xs ≡ some x
      → find (by_key id) (update_where (by_key id) f xs) ≡ some (f x)
  find-update_same id f xs x keep e = ground (arith, find-update_key id id f xs keep, ==_refl id)

  pub find-update_other :
      (id j : K) (f : A → A) (xs : List A)
      → ((x : A) → key (f x) ≡ key x)
      → j ≢ id
      → find (by_key j) (update_where (by_key id) f xs) ≡ find (by_key j) xs
  find-update_other id j f xs keep ne =
      ground (arith, find-update_key id j f xs keep, e.same_iff id j)

  pub find-delete_same :
      (id : K) (xs : List A) → find (by_key id) (delete_where (by_key id) xs) ≡ none
  find-delete_same id xs = ground (arith, find-delete_key id id xs, ==_refl id)

  pub key-find : (id : K) (xs : List A) (x : A) → find (by_key id) xs ≡ some x → key x ≡ id
  key-find id xs x found = (e.same_iff _ _).0 (find_holds (by_key id) xs {x = x} found)

  -- The rows of every other key, in their order.
  abbrev pub others : K → List A → List A
  others id xs = filter_rows (λ x. not (by_key id x)) xs

  pub others-update_where :
      (id : K) (f : A → A) (xs : List A)
      → ((x : A) → key (f x) ≡ key x)
      → others id (update_where (by_key id) f xs) ≡ others id xs
  others-update_where id f [] keep = refl
  others-update_where id f (x ∷ xs) keep = elim (Bool-cases (by_key id x)) [
    | inl e ↦
        let same : by_key id (f x) ≡ true = ap (λ k. k == id) (keep x) ∙ e in
        rw e (rw same (others-update_where id f xs keep))
    | inr e ↦ rw e (rw e (ap (λ rows. x ∷ rows) (others-update_where id f xs keep)))
  ]

  pub others-delete_where :
      (id : K) (xs : List A) → others id (delete_where (by_key id) xs) ≡ others id xs
  others-delete_where id [] = refl
  others-delete_where id (x ∷ xs) = elim (Bool-cases (by_key id x)) [
    | inl e ↦ rw e (others-delete_where id xs)
    | inr e ↦ rw e (rw e (ap (λ rows. x ∷ rows) (others-delete_where id xs)))
  ]

  pub others-append :
      (id : K) (xs : List A) (y : A) → key y ≡ id → others id (xs ++ y ∷ []) ≡ others id xs
  others-append id [] y same = rw ((e.same_iff (key y) id).1 same) refl
  others-append id (x ∷ xs) y same = elim (Bool-cases (by_key id x)) [
    | inl e ↦ rw e (others-append id xs y same)
    | inr e ↦ rw e (ap (λ rows. x ∷ rows) (others-append id xs y same))
  ]

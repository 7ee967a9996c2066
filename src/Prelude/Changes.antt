-- ===== src/Prelude/Changes.antt =====
-- A table before and after a write, row by row: what each row became, in place and in order, with
-- new rows only behind the old ones; and what holds of every two rows.
use mathlib.Core.Path.{◌≡◌, subst, sym, refl}
use mathlib.Core.Bool.{Bool, true, false}
use mathlib.Core.Logic.{inl, inr}
use mathlib.Core.Option.{none, some}
use mathlib.Core.List.{List, [], ◌∷◌, ◌++◌}
use native.Mathlib.Omega.{arith}
use tomafix_backend.Prelude.Tests.{if◌then◌else◌, Bool-cases}
use tomafix_backend.Prelude.Rows.{find, All, All-find}

module _ {A : Type 0} where
  -- the row that `find` finds is rewritten
  abbrev pub update_first : (A → Bool) → (A → A) → List A → List A
  update_first p f [] = []
  update_first p f (x ∷ xs) = if p x then f x ∷ xs else x ∷ update_first p f xs

  -- the row that `find` finds is deleted
  abbrev pub delete_first : (A → Bool) → List A → List A
  delete_first p [] = []
  delete_first p (x ∷ xs) = if p x then xs else x ∷ delete_first p xs

  pub update_first-none :
      (p : A → Bool) (f : A → A) (xs : List A) → find p xs ≡ none → update_first p f xs ≡ xs
  update_first-none p f [] e = refl
  update_first-none p f (x ∷ xs) e = ground (arith, update_first-none p f xs)

  pub find-append_old :
      (p : A → Bool) (xs ys : List A) {x : A} → find p xs ≡ some x → find p (xs ++ ys) ≡ some x
  find-append_old p [] ys e = cc
  find-append_old p (y ∷ xs) ys {x} e = ground (arith, find-append_old p xs ys {x = x})

  pub find-update_first :
      (p : A → Bool) (f : A → A) (xs : List A) {x : A}
      → find p xs ≡ some x
      → p (f x) ≡ true
      → find p (update_first p f xs) ≡ some (f x)
  find-update_first p f [] e h = cc
  find-update_first p f (y ∷ xs) {x} e h = ground (arith, find-update_first p f xs {x = x})

module _ {A : Type 0} (R : A → A → Type 0) (New : A → Type 0) where
  abbrev pub Evolves : List A → List A → Type 0
  Evolves [] ys = All New ys
  Evolves (x ∷ xs) [] = ⊥
  Evolves (x ∷ xs) (y ∷ ys) = R x y × Evolves xs ys

  module _ (same : (x : A) → R x x) where
    pub Evolves-append : (xs ys : List A) → All New ys → Evolves xs (xs ++ ys)
    Evolves-append [] ys new = new
    Evolves-append (x ∷ xs) ys new = (same x, Evolves-append xs ys new)

    pub Evolves-refl : (xs : List A) → Evolves xs xs
    Evolves-refl [] = tt
    Evolves-refl (x ∷ xs) = (same x, Evolves-refl xs)

    pub Evolves-update_first :
        (p : A → Bool) (f : A → A) (xs : List A) (x : A)
        → find p xs ≡ some x
        → R x (f x)
        → Evolves xs (update_first p f xs)
    Evolves-update_first p f [] x e r = tt
    Evolves-update_first p f (y ∷ xs) x e r = elim (Bool-cases (p y)) [
      | inl t ↦
          let found : x ≡ y = ground arith in rw t (subst (λ z. R z (f z)) found r, Evolves-refl xs)
      | inr t ↦ rw t (same y, Evolves-update_first p f xs x (rw t at e) r)
    ]

  module _ (R_new : (x y : A) → New x → R x y → New y) where
    New-Evolves : (ys zs : List A) → All New ys → Evolves ys zs → All New zs
    New-Evolves [] zs h k = k
    New-Evolves (y ∷ ys) [] h k = absurd k
    New-Evolves (y ∷ ys) (z ∷ zs) (h, hs) (k, ks) = (R_new y z h k, New-Evolves ys zs hs ks)

    pub Evolves-trans :
        ((x y z : A) → R x y → R y z → R x z)
        → (xs ys zs : List A) → Evolves xs ys
        → Evolves ys zs
        → Evolves xs zs
    Evolves-trans after [] ys zs h k = New-Evolves ys zs h k
    Evolves-trans after (x ∷ xs) [] zs h k = absurd h
    Evolves-trans after (x ∷ xs) (y ∷ ys) [] h k = absurd k
    Evolves-trans after (x ∷ xs) (y ∷ ys) (z ∷ zs) (h, hs) (k, ks) =
        (after x y z h k, Evolves-trans after xs ys zs hs ks)

  -- What the old rows keep and the new ones bring holds of every row.
  pub Evolves-All :
      (P : A → Type 0)
      → ((x y : A) → P x → R x y → P y)
      → ((x : A) → New x → P x)
      → (xs ys : List A) → Evolves xs ys
      → All P xs
      → All P ys
  Evolves-All P keep born [] [] h _ = tt
  Evolves-All P keep born [] (y ∷ ys) (h, hs) _ = (born y h, Evolves-All P keep born [] ys hs tt)
  Evolves-All P keep born (x ∷ xs) [] h _ = absurd h
  Evolves-All P keep born (x ∷ xs) (y ∷ ys) (h, hs) (px, ps) =
      (keep x y px h, Evolves-All P keep born xs ys hs ps)

module _ {A : Type 0} where
  pub All-map : (P Q : A → Type 0) → ((x : A) → P x → Q x) → (xs : List A) → All P xs → All Q xs
  All-map P Q f [] h = tt
  All-map P Q f (x ∷ xs) (h, hs) = (f x h, All-map P Q f xs hs)

  pub All-apply : (P Q : A → Type 0) (xs : List A) → All (λ x. P x → Q x) xs → All P xs → All Q xs
  All-apply P Q [] k h = tt
  All-apply P Q (x ∷ xs) (k, ks) (h, hs) = (k h, All-apply P Q xs ks hs)

  pub All-of_each : (P : A → Type 0) (xs : List A) → ((x : A) → P x) → All P xs
  All-of_each P [] f = tt
  All-of_each P (x ∷ xs) f = (f x, All-of_each P xs f)

  pub All-not_found : (p : A → Bool) (xs : List A) → find p xs ≡ none → All (λ x. p x ≡ false) xs
  All-not_found p [] e = tt
  All-not_found p (x ∷ xs) e = elim (Bool-cases (p x)) [
    | inl t ↦ let stuck = rw t at e in absurd (cc stuck)
    | inr t ↦ (t, All-not_found p xs (rw t at e))
  ]

  pub All-append : (P : A → Type 0) (xs : List A) (y : A) → All P xs → P y → All P (xs ++ y ∷ [])
  All-append P [] y h k = (k, tt)
  All-append P (x ∷ xs) y (h, hs) k = (h, All-append P xs y hs k)

  pub All-update_first :
      (P : A → Type 0) (p : A → Bool) (f : A → A) (xs : List A)
      → All P xs
      → ((x : A) → find p xs ≡ some x → P (f x))
      → All P (update_first p f xs)
  All-update_first P p f [] h k = tt
  All-update_first P p f (x ∷ xs) (h, hs) k = elim (Bool-cases (p x)) [
    | inl t ↦ rw t (k x (rw t refl), hs)
    | inr t ↦ rw t (h, All-update_first P p f xs hs λ y e. k y (rw t e))
  ]

-- What holds of every two rows, the earlier one first.
module _ {A : Type 0} (R : A → A → Type 0) where
  abbrev pub Pairwise : List A → Type 0
  Pairwise [] = Unit
  Pairwise (x ∷ xs) = All (R x) xs × Pairwise xs

  pub Pairwise-append :
      (xs : List A) (y : A) → Pairwise xs → All (λ x. R x y) xs → Pairwise (xs ++ y ∷ [])
  Pairwise-append [] y h k = (tt, tt)
  Pairwise-append (x ∷ xs) y (h, hs) (k, ks) =
      (All-append (R x) xs y h k, Pairwise-append xs y hs ks)

  -- A row may be rewritten when it agrees with the others afterwards as it did before.
  pub Pairwise-update_first :
      ((x y : A) → R x y → R y x)
      → (p : A → Bool) (f : A → A) (xs : List A) (b : A) → find p xs ≡ some b
      → All (λ y. R b y → R (f b) y) xs
      → Pairwise xs
      → Pairwise (update_first p f xs)
  Pairwise-update_first flip p f [] b e k h = tt
  Pairwise-update_first flip p f (x ∷ xs) b e (k, ks) (h, hs) = elim (Bool-cases (p x)) [
    | inl t ↦
        let same : x ≡ b = ground arith in
        rw t (
          All-apply (R b) (R (f x)) xs (subst (λ z. All (λ y. R b y → R (f z) y) xs) (sym same) ks)
              (subst (λ z. All (R z) xs) same h),
          hs,
        )
    | inr t ↦
        let later : find p xs ≡ some b = rw t at e in
        let apart = flip x b (All-find (R x) p xs {x = b} h later) in
        let apart' = flip (f b) x (k apart) in
        rw t (
          All-update_first (R x) p f xs h (replaced x xs later apart'),
          Pairwise-update_first flip p f xs b later ks hs,
        )
  ]
    where
      replaced :
          (x : A) (xs : List A)
          → find p xs ≡ some b
          → R x (f b)
          → (y : A) → find p xs ≡ some y
          → R x (f y)
      replaced x xs e r y e' = let same : b ≡ y = cc (e, e') in subst (λ y. R x (f y)) same r

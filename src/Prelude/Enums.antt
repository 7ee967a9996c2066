-- ===== src/Prelude/Enums.antt =====
-- Equality on an enumeration, by the place of a value in the list of all values.
use Prim.Native.Nat.{ℕ, zero, suc}
use mathlib.Core.Path.{◌≡◌, ap}
use mathlib.Core.Bool.{Bool, true}
use mathlib.Core.Logic.{◌↔◌}
use mathlib.Core.Option.{Option, none, some}
use mathlib.Core.List.{List, [], ◌∷◌}
use tomafix_backend.Prelude.Tests.{nat_eq, ◌==◌}

abbrev get_elem? {ℓ} : {A : Type ℓ} → List A → ℕ → Option A
get_elem? [] i = none
get_elem? (x ∷ xs) zero = some x
get_elem? (x ∷ xs) (suc i) = get_elem? xs i

module _ {A : Type 0} (place : A → ℕ) where
  abbrev pub place_beq : A → A → Bool
  place_beq a b = place a == place b

  -- `all` holds every value at its place.
  abbrev pub Lists : List A → Type 0
  Lists all = (a : A) → get_elem? all (place a) ≡ some a

  pub place_beq_iff : (all : List A) → Lists all → (a b : A) → (place_beq a b ≡ true) ↔ (a ≡ b)
  place_beq_iff all back a b = (
    λ h. let e : place a ≡ place b = (nat_eq.same_iff _ _).0 h in cc (e, back a, back b),
    λ p. (nat_eq.same_iff _ _).1 (ap place p),
  )

-- ===== src/Billing/Plans/Overrides.antt =====
-- `applyWorkspaceOverrides` of billing/planConfig.ts: what an administrator stores for one
-- workspace, laid over the entitlements of its plan.
use tomafix_backend.Prelude.{
  ℕ, Bool, List, [], ◌∷◌, Option, none, some, ◌≡◌, refl, Text, ◌==◌, Eq, nat_eq, if◌then◌else◌,
  or_else, arith,
}
use tomafix_backend.Billing.Plans.{LimitKey, FeatureKey, PlanConfig}
use tomafix_backend.Billing.Plans.Keys.{limit_eq, feature_eq, limit_of_name, feature_of_name}

-- A stored value: `typeof v`.
pub data Scalar : Type 0 where
  boolean : Bool → Scalar
  number : ℕ → Scalar
  other : Scalar

-- `{ features?, limits? }`, with the entries in the order of `Object.entries`.
pub record Overrides : Type 0 where
  pub features : Option (List (Text × Scalar))
  pub limits : Option (List (Text × Scalar))

abbrev pub as_boolean : Scalar → Option Bool
as_boolean (boolean b) = some b
as_boolean _ = none

abbrev pub as_number : Scalar → Option ℕ
as_number (number n) = some n
as_number _ = none

module _ {K V : Type 0} ⦃e : Eq K⦄ (key_of : Text → Option K) (value_of : Scalar → Option V) where
  -- `if (typeof v === … && k in o) o[k] = v`
  abbrev pub assign : Text → Scalar → (K → V) → K → V
  assign name scalar o k = elim (value_of scalar) [
    | none ↦ o k
    | some v ↦ elim (key_of name) [ none ↦ o k | some j ↦ if j == k then v else o k ]
  ]

  -- the loop over `Object.entries`
  pub assign_all : List (Text × Scalar) → (K → V) → K → V
  assign_all [] o = o
  assign_all ((name, scalar) ∷ entries) o = assign_all entries (assign name scalar o)

abbrev assign_some :
    {K V : Type 0}
    → (List (Text × Scalar) → (K → V) → K → V)
    → Option (List (Text × Scalar))
    → (K → V)
    → K
    → V
assign_some loop none o = o
assign_some loop (some entries) o = loop entries o

unfoldable pub apply_workspace_overrides : PlanConfig → Option Overrides → PlanConfig
unfolding assign_all
apply_workspace_overrides entitlements none = entitlements
apply_workspace_overrides entitlements (some overrides) = record entitlements {
  features =
      assign_some (assign_all feature_of_name as_boolean) overrides.features entitlements.features;
  limits = assign_some (assign_all limit_of_name as_number) overrides.limits entitlements.limits;
}

module _ {K V : Type 0} ⦃e : Eq K⦄ (key_of : Text → Option K) (value_of : Scalar → Option V) where
  -- The value that one entry gives to `k`, if it is of the right type and names `k`.
  abbrev pub entry_value : K → Text → Scalar → Option V
  entry_value k name scalar = elim (key_of name) [
    | none ↦ none
    | some j ↦ if j == k then value_of scalar else none
  ]

  -- The last entry that gives `k` a value.
  pub last_value : K → List (Text × Scalar) → Option V
  last_value k [] = none
  last_value k ((name, scalar) ∷ entries) = elim (last_value k entries) [
    | some v ↦ some v
    | none ↦ entry_value k name scalar
  ]

  pub assign_all-eq-last_value :
      (entries : List (Text × Scalar)) (o : K → V) (k : K)
      → assign_all key_of value_of entries o k ≡ or_else (last_value k entries) (o k)
  unfolding assign_all last_value
  assign_all-eq-last_value [] o k = refl
  assign_all-eq-last_value ((name, scalar) ∷ entries) o k =
      ground (arith, assign_all-eq-last_value entries (assign key_of value_of name scalar o) k)

abbrev pub last_of :
    {V : Type 0} → (List (Text × Scalar) → Option V) → Option (List (Text × Scalar)) → Option V
last_of f none = none
last_of f (some entries) = f entries

-- What an overridden workspace may do: for every feature and limit the last stored entry that names
-- it with a value of the right type decides, and without one the plan does. Price, currency and
-- notes are the plan's.
pub apply_workspace_overrides_lem :
    (plan : PlanConfig) (o : Overrides)
    → let result = apply_workspace_overrides plan (some o) in
      ((k : FeatureKey)
        → result.features k
          ≡ or_else
              (last_of (last_value feature_of_name as_boolean k) o.features)
              (plan.features k))
      × ((k : LimitKey)
          → result.limits k
            ≡ or_else (last_of (last_value limit_of_name as_number k) o.limits) (plan.limits k))
      × (result.price_pesewas ≡ plan.price_pesewas)
      × (result.currency ≡ plan.currency)
      × (result.notes ≡ plan.notes)
unfolding apply_workspace_overrides
apply_workspace_overrides_lem plan o =
    (λ k. features_lem k o.features, λ k. limits_lem k o.limits, refl, refl, refl)
  where
    features_lem :
        (k : FeatureKey) (entries : Option (List (Text × Scalar)))
        → assign_some (assign_all feature_of_name as_boolean) entries plan.features k
          ≡ or_else (last_of (last_value feature_of_name as_boolean k) entries) (plan.features k)
    features_lem k none = refl
    features_lem k (some entries) =
        assign_all-eq-last_value feature_of_name as_boolean entries plan.features k

    limits_lem :
        (k : LimitKey) (entries : Option (List (Text × Scalar)))
        → assign_some (assign_all limit_of_name as_number) entries plan.limits k
          ≡ or_else (last_of (last_value limit_of_name as_number k) entries) (plan.limits k)
    limits_lem k none = refl
    limits_lem k (some entries) =
        assign_all-eq-last_value limit_of_name as_number entries plan.limits k

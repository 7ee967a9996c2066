-- ===== src/Billing/Tests/Limits.antt =====
-- Plans, overrides, entitlements, the guard of the routes and the configuration at concrete inputs.
use tomafix_backend.Prelude.{
  ◌<◌, ◌≤◌, ◌≡◌, ◌↔◌, refl, true, not, ◌||◌, [], ◌∷◌, none, some, ok, or_else, codes, list_eq,
  nat_eq, arith, split_at,
}
use tomafix_backend.Billing.Plans.{
  starter, growth, LimitKey, FeatureKey, entitlements_of, plan_of_key, properties,
}
use tomafix_backend.Billing.Plans.Overrides.{
  last_of, as_boolean, as_number, boolean, number, Overrides, apply_workspace_overrides,
  apply_workspace_overrides_lem, last_value,
}
use tomafix_backend.Billing.Plans.Keys.{limit_eq, feature_eq, limit_of_name, feature_of_name}
use tomafix_backend.Billing.Plans.Order.{entitlements_mono}
use tomafix_backend.Billing.Store.{EntitlementsPayload, payload, shape}
use tomafix_backend.Billing.Entitlements.{usage_of, get_workspace_entitlements}
use tomafix_backend.Billing.Entitlements.Laws.{
  effective_plan, get_workspace_entitlements_three_minutes,
}
use tomafix_backend.Billing.Gate.{
  word, any, closed, Request, GuardRule, rule_for, guarded, pattern_test, shape_of, use_guard,
}
use tomafix_backend.Billing.Gate.Laws.{
  Permits, use_guard_cold_iff, use_guard_after_service_iff, get_workspace_entitlements_after_guard,
}
use tomafix_backend.Billing.Tests.{active_office, active_store}

abbrev new_asset : Request
new_asset = record {
  method = codes "POST";
  path = codes "/workspaces/1/office/assets";
  workspace_id = some 1;
}

abbrev asset_rule : GuardRule
asset_rule = record {
  method = codes "POST";
  pattern =
      word []
      ∷ word (codes "workspaces")
      ∷ any
      ∷ word (codes "office")
      ∷ word (codes "assets")
      ∷ [];
  ending = closed;
  limit = some properties;
  feature = none;
}

-- An office that an administrator gave visitors, and five properties.
abbrev granted : Overrides
granted = record {
  features = some ((codes "visitors", boolean true) ∷ []);
  limits = some ((codes "properties", number 3) ∷ (codes "properties", number 5) ∷ []);
}

apply_workspace_overrides_lem_example :
    let plan = entitlements_of starter none in
    let result = apply_workspace_overrides plan (some granted) in
    ((k : FeatureKey)
      → result.features k
        ≡ or_else
            (last_of (last_value feature_of_name as_boolean k) granted.features)
            (plan.features k))
    × ((k : LimitKey)
        → result.limits k
          ≡ or_else (last_of (last_value limit_of_name as_number k) granted.limits) (plan.limits k))
    × (result.price_pesewas ≡ plan.price_pesewas)
    × (result.currency ≡ plan.currency)
    × (result.notes ≡ plan.notes)
apply_workspace_overrides_lem_example =
    apply_workspace_overrides_lem (entitlements_of starter none) granted

entitlements_mono_example :
    ((entitlements_of starter none).price_pesewas ≤ (entitlements_of growth none).price_pesewas)
    × ((k : LimitKey)
        → (entitlements_of starter none).limits k ≤ (entitlements_of growth none).limits k)
    × ((k : FeatureKey)
        → (not ((entitlements_of starter none).features k)
            || (entitlements_of growth none).features k)
          ≡ true)
entitlements_mono_example = entitlements_mono none starter growth (omega arith)

get_workspace_entitlements_three_minutes_example :
    let s' = record (get_workspace_entitlements 9 1 active_store).1 { workspaces = [] } in
    (r : EntitlementsPayload) × ((get_workspace_entitlements 9 1 active_store).0 ≡ ok (payload r))
    × ((k : LimitKey) → r.limits k ≡ (effective_plan active_office starter).limits k)
    × ((k : FeatureKey) → r.features k ≡ (effective_plan active_office starter).features k)
    × ((k : LimitKey) → r.usage k ≡ usage_of 9 active_office active_store k)
    × ((k : LimitKey)
        → (r.over_cap k ≡ true) ↔ (
            (effective_plan active_office starter).limits k
            < usage_of 9 active_office active_store k))
    × (get_workspace_entitlements 10 1 s' ≡ (ok (payload r), s'))
unfolding plan_of_key
get_workspace_entitlements_three_minutes_example =
    get_workspace_entitlements_three_minutes 9 1 active_store active_office refl refl starter 10
      (record (get_workspace_entitlements 9 1 active_store).1 { workspaces = [] }) refl
      (omega arith) refl

use_guard_cold_iff_example :
    ((use_guard 9 new_asset active_store).0 ≡ ok tt)
    ↔ Permits asset_rule
        (usage_of 9 active_office active_store)
        (effective_plan active_office starter)
unfolding plan_of_key rule_for guarded pattern_test split_at
use_guard_cold_iff_example =
    use_guard_cold_iff 9 1 new_asset asset_rule active_store active_office starter refl refl refl
      refl refl

use_guard_after_service_iff_example :
    ((use_guard 10 new_asset (get_workspace_entitlements 9 1 active_store).1).0 ≡ ok tt)
    ↔ Permits asset_rule (usage_of 9 active_office active_store) (entitlements_of starter none)
unfolding plan_of_key rule_for guarded pattern_test split_at
use_guard_after_service_iff_example =
    use_guard_after_service_iff 9 1 new_asset asset_rule active_store active_office starter refl
      refl refl refl refl 10 (omega arith)

get_workspace_entitlements_after_guard_example :
    (get_workspace_entitlements 10 1 (use_guard 9 new_asset active_store).1).0
    ≡ ok (shape (shape_of active_office (usage_of 9 active_office active_store)))
unfolding plan_of_key rule_for guarded pattern_test split_at
get_workspace_entitlements_after_guard_example =
    get_workspace_entitlements_after_guard 9 1 new_asset asset_rule active_store active_office
      starter refl refl refl refl refl 10 (omega arith)

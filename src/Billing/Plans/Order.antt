-- ===== src/Billing/Plans/Order.antt =====
-- Plans in ascending order: an upgrade takes nothing away.
use tomafix_backend.Prelude.{
  Bool, false, refl, not, ◌||◌, ℕ, ◌≤◌, ◌≡◌, true, Option, none, some, arith,
}
use tomafix_backend.Billing.Plans.{
  PlanName, starter, growth, toma_prime, TemplateType, apartment, estate, office, LimitKey,
  properties, FeatureKey, blocks, entitlements_of,
}

abbrev pub rank : PlanName → ℕ
rank starter = 0
rank growth = 1
rank toma_prime = 2

price_mono :
    (t : Option TemplateType) (p q : PlanName)
    → rank p ≤ rank q
    → (entitlements_of p t).price_pesewas ≤ (entitlements_of q t).price_pesewas
unfolding entitlements_of
price_mono none p q h = ground arith
price_mono (some apartment) p q h = ground arith
price_mono (some estate) p q h = ground arith
price_mono (some office) p q h = ground arith

limits_mono :
    (t : Option TemplateType) (k : LimitKey) (p q : PlanName)
    → rank p ≤ rank q
    → (entitlements_of p t).limits k ≤ (entitlements_of q t).limits k
unfolding entitlements_of
limits_mono none properties p q h = ground arith
limits_mono none _ p q h = ground arith
limits_mono (some apartment) properties p q h = ground arith
limits_mono (some apartment) _ p q h = ground arith
limits_mono (some estate) properties p q h = ground arith
limits_mono (some estate) _ p q h = ground arith
limits_mono (some office) properties p q h = ground arith
limits_mono (some office) _ p q h = ground arith

features_mono :
    (t : Option TemplateType) (k : FeatureKey) (p q : PlanName)
    → rank p ≤ rank q
    → (entitlements_of p t).features k ≡ true
    → (entitlements_of q t).features k ≡ true
unfolding entitlements_of
features_mono none blocks p q h e = ground arith
features_mono none _ p q h e = ground arith
features_mono (some apartment) blocks p q h e = ground arith
features_mono (some apartment) _ p q h e = ground arith
features_mono (some estate) blocks p q h e = ground arith
features_mono (some estate) _ p q h e = ground arith
features_mono (some office) blocks p q h e = ground arith
features_mono (some office) _ p q h e = ground arith

implied : (a b : Bool) → (a ≡ true → b ≡ true) → (not a || b) ≡ true
implied true b h = h refl
implied false b h = refl

-- For every template, and without one: a higher plan costs no less, none of its limits is lower,
-- and it has every feature of a lower plan.
pub entitlements_mono :
    (t : Option TemplateType) (p q : PlanName)
    → rank p ≤ rank q
    → ((entitlements_of p t).price_pesewas ≤ (entitlements_of q t).price_pesewas)
      × ((k : LimitKey) → (entitlements_of p t).limits k ≤ (entitlements_of q t).limits k)
      × ((k : FeatureKey)
          → (not ((entitlements_of p t).features k) || (entitlements_of q t).features k) ≡ true)
entitlements_mono t p q h =
    (price_mono t p q h, λ k. limits_mono t k p q h, λ k. implied _ _ (features_mono t k p q h))

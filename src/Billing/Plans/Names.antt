-- ===== src/Billing/Plans/Names.antt =====
-- How `resolvePlanName`, `assertPlanExists` and `getEntitlements` read the name of a row.
use tomafix_backend.Prelude.{
  ◌≡◌, refl, true, Option, none, some, Text, codes, list_eq, nat_eq, subst, sym, arith,
}
use tomafix_backend.Billing.Plans.{
  PlanName, starter, growth, toma_prime, TemplateType, plan_of_key, assert_plan_exists,
  entitlements_of, get_entitlements,
}

-- The key of a plan in `PLAN_MAP`.
abbrev pub key_of_plan : PlanName → Text
key_of_plan starter = codes "Starter"
key_of_plan growth = codes "Growth"
key_of_plan toma_prime = codes "TomaPrime"

pub plan_of_key-key_of_plan : (p : PlanName) → plan_of_key (key_of_plan p) ≡ some p
unfolding plan_of_key
plan_of_key-key_of_plan starter = refl
plan_of_key-key_of_plan growth = refl
plan_of_key-key_of_plan toma_prime = refl

-- Only the key of a plan is looked up to it.
pub key_of-plan_of_key :
    (name : Text) (p : PlanName) → plan_of_key name ≡ some p → name ≡ key_of_plan p
unfolding plan_of_key
key_of-plan_of_key name starter e = ground (arith, list_eq.same_iff name (codes "Starter"))
key_of-plan_of_key name growth e = ground (arith, list_eq.same_iff name (codes "Growth"))
key_of-plan_of_key name toma_prime e = ground (arith, list_eq.same_iff name (codes "TomaPrime"))

assert_plan_exists-key_of_plan : (p : PlanName) → assert_plan_exists (key_of_plan p) ≡ true
unfolding assert_plan_exists
assert_plan_exists-key_of_plan starter = refl
assert_plan_exists-key_of_plan growth = refl
assert_plan_exists-key_of_plan toma_prime = refl

pub assert_plan_exists-of_key :
    (name : Text) (p : PlanName) → plan_of_key name ≡ some p → assert_plan_exists name ≡ true
assert_plan_exists-of_key name p e =
    subst (λ n. assert_plan_exists n ≡ true) (sym (key_of-plan_of_key name p e))
      (assert_plan_exists-key_of_plan p)

pub get_entitlements-of_key :
    (name : Text) (p : PlanName) (t : Option TemplateType)
    → plan_of_key name ≡ some p
    → get_entitlements name t ≡ some (entitlements_of p t)
unfolding get_entitlements
get_entitlements-of_key name p t e = rw (e, get_entitlements)

-- The name under which `listPlans` stores the largest plan of every template.
abbrev pub toma_prime_row : Text
toma_prime_row = codes "Toma Prime"

-- That name passes `assertPlanExists`, and `getEntitlements` has nothing for it.
pub toma_prime_row_lem :
    (t : Option TemplateType)
    → (assert_plan_exists toma_prime_row ≡ true) × (get_entitlements toma_prime_row t ≡ none)
unfolding assert_plan_exists get_entitlements
toma_prime_row_lem t = (refl, refl)

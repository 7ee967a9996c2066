-- ===== src/Billing/Plans.antt =====
-- types/billing.ts and billing/planConfig.ts: plans, their limits and features, the overrides by
-- template and by workspace, and plan names as they come from the database or a client.
-- `Record<K, V>` is a function, a `Partial` one a function into `Option`. `TypeError` and `Error`
-- are the error cases. Numbers of the configuration are natural numbers.
pub mod Keys
pub mod Overrides
pub mod Names
pub mod Order
use tomafix_backend.Prelude.{
  ℕ, Bool, true, false, not, ◌&&◌, List, [], ◌∷◌, Option, none, some, Text, codes, trim, lower,
  is_empty, ◌==◌, nat_eq, list_eq, if◌then◌else◌, or_else, is_some,
}

pub data PlanName : Type 0 where
  starter growth toma_prime : PlanName

pub data TemplateType : Type 0 where
  apartment estate office : TemplateType

pub data LimitKey : Type 0 where
  properties units managers residents requests_per_month : LimitKey

pub data FeatureKey : Type 0 where
  blocks staff visitors inspections assistant request_types preventive_maintenance : FeatureKey
  leaderboard integrations public_requests advanced_reports exports priority_support : FeatureKey
  early_access : FeatureKey

abbrev pub PlanLimits : Type 0
PlanLimits = LimitKey → ℕ

abbrev pub PlanFeatures : Type 0
PlanFeatures = FeatureKey → Bool

pub record PlanConfig : Type 0 where
  pub price_pesewas : ℕ
  pub currency : Text
  pub limits : PlanLimits
  pub features : PlanFeatures
  pub notes : List Text

-- `{ properties, units, managers, residents, requestsPerMonth }`
abbrev limits_of : ℕ → ℕ → ℕ → ℕ → ℕ → PlanLimits
limits_of p u m r q properties = p
limits_of p u m r q units = u
limits_of p u m r q managers = m
limits_of p u m r q residents = r
limits_of p u m r q requests_per_month = q

growth_features : PlanFeatures
growth_features blocks = true
growth_features staff = true
growth_features _ = false

toma_prime_features : PlanFeatures
toma_prime_features blocks = true
toma_prime_features staff = true
toma_prime_features advanced_reports = true
toma_prime_features exports = true
toma_prime_features priority_support = true
toma_prime_features early_access = true
toma_prime_features _ = false

unfoldable pub plan_map : PlanName → PlanConfig
unfolding growth_features toma_prime_features
plan_map starter = record {
  price_pesewas = 9900;
  currency = codes "GHS";
  limits = limits_of 1 20 1 50 100;
  features = λ _. false;
  notes = codes "Upgrade anytime" ∷ [];
}
plan_map growth = record {
  price_pesewas = 19900;
  currency = codes "GHS";
  limits = limits_of 3 120 3 300 1000;
  features = growth_features;
  notes = [];
}
plan_map toma_prime = record {
  price_pesewas = 39900;
  currency = codes "GHS";
  limits = limits_of 5 250 8 1500 100000;
  features = toma_prime_features;
  notes = [];
}

unfoldable pub template_limit_overrides : TemplateType → PlanName → Option PlanLimits
template_limit_overrides apartment starter = some (limits_of 1 25 2 50 200)
template_limit_overrides apartment growth = some (limits_of 1 120 8 300 2000)
template_limit_overrides apartment toma_prime = some (limits_of 1 300 999 1500 100000)
template_limit_overrides estate starter = some (limits_of 2 60 1 200 500)
template_limit_overrides estate growth = some (limits_of 6 220 3 800 4000)
template_limit_overrides estate toma_prime = some (limits_of 15 600 8 3000 100000)
template_limit_overrides office starter = some (limits_of 25 10 1 50 200)
template_limit_overrides office growth = some (limits_of 150 35 3 300 2000)
template_limit_overrides office toma_prime = some (limits_of 500 120 10 1500 100000)

unfoldable pub template_price_overrides : TemplateType → PlanName → Option ℕ
template_price_overrides apartment _ = none
template_price_overrides _ starter = some 19900
template_price_overrides _ growth = some 34900
template_price_overrides _ toma_prime = some 69900

-- A `Partial<PlanFeatures>`: the keys that a template lists, with their values.
apartment_features : PlanName → FeatureKey → Option Bool
apartment_features starter staff = some false
apartment_features starter visitors = some false
apartment_features starter inspections = some false
apartment_features starter assistant = some false
apartment_features starter advanced_reports = some false
apartment_features starter exports = some false
apartment_features growth staff = some true
apartment_features growth visitors = some true
apartment_features growth inspections = some true
apartment_features growth assistant = some false
apartment_features growth advanced_reports = some false
apartment_features growth exports = some false
apartment_features toma_prime staff = some true
apartment_features toma_prime visitors = some true
apartment_features toma_prime inspections = some true
apartment_features toma_prime assistant = some true
apartment_features toma_prime advanced_reports = some true
apartment_features toma_prime exports = some true
apartment_features _ _ = none

office_features : PlanName → FeatureKey → Option Bool
office_features _ blocks = none
office_features _ visitors = none
office_features _ inspections = none
office_features _ assistant = none
office_features _ staff = some true
office_features starter _ = some false
office_features growth priority_support = some false
office_features growth early_access = some false
office_features growth _ = some true
office_features toma_prime _ = some true

unfoldable pub template_feature_overrides :
    TemplateType → PlanName → Option (FeatureKey → Option Bool)
unfolding apartment_features office_features
template_feature_overrides apartment plan = some (apartment_features plan)
template_feature_overrides estate plan = none
template_feature_overrides office plan = some (office_features plan)

-- `PLAN_MAP` as an object with string keys: `hasOwnProperty`, and the key that is found.
unfoldable pub plan_of_key : Text → Option PlanName
plan_of_key key =
    if key == codes "Starter"
    then some starter
    else if key == codes "Growth"
    then some growth
    else if key == codes "TomaPrime"
    then some toma_prime
    else none

unfoldable pub plan_aliases : Text → Option PlanName
plan_aliases key =
    if key == codes "starter"
    then some starter
    else if key == codes "growth"
    then some growth
    else if key == codes "tomaprime"
    then some toma_prime
    else if key == codes "toma-prime"
    then some toma_prime
    else if key == codes "toma prime"
    then some toma_prime
    else none

-- `resolvePlanName`; `none` is the `Unknown plan` error.
unfoldable pub resolve_plan_name : Option Text → Option PlanName
unfolding plan_of_key plan_aliases trim lower
resolve_plan_name input =
    let raw = trim (or_else input []) in
    if is_empty raw
    then some starter
    else elim (plan_of_key raw) [ some plan ↦ some plan | none ↦ plan_aliases (lower raw) ]

-- `assertPlanExists`: the plan that is found is thrown away.
unfoldable pub assert_plan_exists : Text → Bool
unfolding resolve_plan_name
assert_plan_exists plan_name = is_some (resolve_plan_name (some plan_name))

-- `{ ...base, ...override }`
abbrev pub spread {ℓ} : {K : Type ℓ} {V : Type 0} → (K → V) → (K → Option V) → K → V
spread base override k = or_else (override k) (base k)

-- `!price`
abbrev is_absent_price : Option ℕ → Bool
is_absent_price none = true
is_absent_price (some p) = p == 0

-- `getEntitlements` past the lookup of the base plan.
unfoldable pub entitlements_of : PlanName → Option TemplateType → PlanConfig
unfolding plan_map template_limit_overrides template_price_overrides template_feature_overrides
entitlements_of plan none = plan_map plan
entitlements_of plan (some template) =
    let base = plan_map plan in
    let override = template_limit_overrides template plan in
    let price_override = template_price_overrides template plan in
    let feature_override = template_feature_overrides template plan in
    if not (is_some override) && not (is_some feature_override) && is_absent_price price_override
    then base
    else record {
      price_pesewas = or_else price_override base.price_pesewas;
      currency = base.currency;
      limits = or_else override base.limits;
      features = elim feature_override [
        | none ↦ base.features
        | some listed ↦ spread base.features listed
      ];
      notes = base.notes;
    }

-- `getEntitlements(planName, templateType)` with the string that is passed at run time: every
-- lookup is by that string, and a string that is no key of `PLAN_MAP` gives `undefined`, `none`.
unfoldable pub get_entitlements : Text → Option TemplateType → Option PlanConfig
unfolding plan_of_key entitlements_of
get_entitlements plan_name template = elim (plan_of_key plan_name) [
  | none ↦ none
  | some plan ↦ some (entitlements_of plan template)
]

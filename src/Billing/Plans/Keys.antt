-- ===== src/Billing/Plans/Keys.antt =====
-- The keys of limits and features: their equality, and their names as properties of an object.
use tomafix_backend.Prelude.{
  ℕ, List, [], ◌∷◌, Option, none, some, ◌≡◌, refl, Text, codes, ◌==◌, Eq, nat_eq, list_eq,
  if◌then◌else◌, place_beq, place_beq_iff, Lists,
}
use tomafix_backend.Billing.Plans.{
  TemplateType, apartment, estate, office, LimitKey, properties, units, managers, residents,
  requests_per_month, FeatureKey, blocks, staff, visitors, inspections, assistant, request_types,
  preventive_maintenance, leaderboard, integrations, public_requests, advanced_reports, exports,
  priority_support, early_access,
}

abbrev pub template_place : TemplateType → ℕ
template_place apartment = 0
template_place estate = 1
template_place office = 2

abbrev pub templates : List TemplateType
templates = apartment ∷ estate ∷ office ∷ []

pub Lists-templates : Lists template_place templates
Lists-templates apartment = refl
Lists-templates estate = refl
Lists-templates office = refl

instance abbrev pub template_eq : Eq TemplateType
template_eq = record {
  same_as = place_beq template_place;
  same_iff = place_beq_iff template_place templates Lists-templates;
}

abbrev pub limit_place : LimitKey → ℕ
limit_place properties = 0
limit_place units = 1
limit_place managers = 2
limit_place residents = 3
limit_place requests_per_month = 4

abbrev pub limit_keys : List LimitKey
limit_keys = properties ∷ units ∷ managers ∷ residents ∷ requests_per_month ∷ []

pub Lists-limit_keys : Lists limit_place limit_keys
Lists-limit_keys properties = refl
Lists-limit_keys units = refl
Lists-limit_keys managers = refl
Lists-limit_keys residents = refl
Lists-limit_keys requests_per_month = refl

instance abbrev pub limit_eq : Eq LimitKey
limit_eq = record {
  same_as = place_beq limit_place;
  same_iff = place_beq_iff limit_place limit_keys Lists-limit_keys;
}

abbrev pub feature_place : FeatureKey → ℕ
feature_place blocks = 0
feature_place staff = 1
feature_place visitors = 2
feature_place inspections = 3
feature_place assistant = 4
feature_place request_types = 5
feature_place preventive_maintenance = 6
feature_place leaderboard = 7
feature_place integrations = 8
feature_place public_requests = 9
feature_place advanced_reports = 10
feature_place exports = 11
feature_place priority_support = 12
feature_place early_access = 13

abbrev pub feature_keys : List FeatureKey
feature_keys =
    blocks ∷ staff ∷ visitors ∷ inspections ∷ assistant ∷ request_types ∷ preventive_maintenance
    ∷ leaderboard ∷ integrations ∷ public_requests ∷ advanced_reports ∷ exports ∷ priority_support
    ∷ early_access ∷ []

pub Lists-feature_keys : Lists feature_place feature_keys
Lists-feature_keys blocks = refl
Lists-feature_keys staff = refl
Lists-feature_keys visitors = refl
Lists-feature_keys inspections = refl
Lists-feature_keys assistant = refl
Lists-feature_keys request_types = refl
Lists-feature_keys preventive_maintenance = refl
Lists-feature_keys leaderboard = refl
Lists-feature_keys integrations = refl
Lists-feature_keys public_requests = refl
Lists-feature_keys advanced_reports = refl
Lists-feature_keys exports = refl
Lists-feature_keys priority_support = refl
Lists-feature_keys early_access = refl

instance abbrev pub feature_eq : Eq FeatureKey
feature_eq = record {
  same_as = place_beq feature_place;
  same_iff = place_beq_iff feature_place feature_keys Lists-feature_keys;
}

-- The property names of the source.
abbrev pub limit_name : LimitKey → Text
limit_name properties = codes "properties"
limit_name units = codes "units"
limit_name managers = codes "managers"
limit_name residents = codes "residents"
limit_name requests_per_month = codes "requestsPerMonth"

abbrev pub feature_name : FeatureKey → Text
feature_name blocks = codes "blocks"
feature_name staff = codes "staff"
feature_name visitors = codes "visitors"
feature_name inspections = codes "inspections"
feature_name assistant = codes "assistant"
feature_name request_types = codes "requestTypes"
feature_name preventive_maintenance = codes "preventiveMaintenance"
feature_name leaderboard = codes "leaderboard"
feature_name integrations = codes "integrations"
feature_name public_requests = codes "publicRequests"
feature_name advanced_reports = codes "advancedReports"
feature_name exports = codes "exports"
feature_name priority_support = codes "prioritySupport"
feature_name early_access = codes "earlyAccess"

-- `k in object`: the key that a property name stands for.
key_in : {K : Type 0} → (K → Text) → List K → Text → Option K
key_in name [] text = none
key_in name (k ∷ ks) text = if name k == text then some k else key_in name ks text

unfoldable pub limit_of_name : Text → Option LimitKey
unfolding key_in
limit_of_name = key_in limit_name limit_keys

unfoldable pub feature_of_name : Text → Option FeatureKey
unfolding key_in
feature_of_name = key_in feature_name feature_keys

-- Every key is found under its own name, and names are distinct.
pub limit_of_name-limit_name : (k : LimitKey) → limit_of_name (limit_name k) ≡ some k
unfolding limit_of_name
limit_of_name-limit_name properties = refl
limit_of_name-limit_name units = refl
limit_of_name-limit_name managers = refl
limit_of_name-limit_name residents = refl
limit_of_name-limit_name requests_per_month = refl

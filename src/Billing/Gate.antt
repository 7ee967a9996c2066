-- ===== src/Billing/Gate.antt =====
-- billing/guards.ts: the middleware that holds creating requests to the limits and features of the
-- plan of their workspace.

pub mod Laws
use tomafix_backend.Prelude.{
  ℕ, Bool, true, false, not, ◌&&◌, ◌||◌, List, [], ◌∷◌, Option, none, some, Text, codes, is_empty,
  ◌==◌, nat_eq, list_eq, leb, if◌then◌else◌, find, map, split_at, Result, ok, err, Action, ◌>>=◌,
  ◌>>◌, pure, throw, gets, throw_if, or_throw,
}
use tomafix_backend.Billing.Plans.{
  TemplateType, LimitKey, properties, units, residents, requests_per_month, FeatureKey, visitors,
  inspections, advanced_reports, exports, PlanConfig, assert_plan_exists, get_entitlements,
}
use tomafix_backend.Billing.Plans.Overrides.{Overrides, apply_workspace_overrides}
use tomafix_backend.Billing.Store.{
  Store, Workspace, Usage, Cached, payload, shape, CachedShape, Error, workspace_not_found,
  unknown_plan, type_error, workspace_id_required, limit_exceeded, feature_locked,
}
use tomafix_backend.Billing.Status.{find_workspace}
use tomafix_backend.Billing.Entitlements.{
  cache_get, cache_set, usage_of, plan_name_of, entitlements_ttl_ms,
}

-- A part of a pattern between slashes: a word, or `[^/]+`.
pub data Part : Type 0 where
  word : Text → Part
  any : Part

-- A pattern is anchored at both ends, or its last part is followed by `(?:$|\/)`.
pub data Ending : Type 0 where
  closed open_ended : Ending

pub record GuardRule : Type 0 where
  pub method : Text
  pub pattern : List Part
  pub ending : Ending
  pub limit : Option LimitKey
  pub feature : Option FeatureKey

pub record Request : Type 0 where
  pub method : Text
  pub path : Text
  pub workspace_id : Option ℕ

abbrev under_workspace : List Part → List Part
under_workspace parts = word [] ∷ word (codes "workspaces") ∷ any ∷ parts

abbrev limit_rule : Text → Text → LimitKey → GuardRule
limit_rule area name key = record {
  method = codes "POST";
  pattern = under_workspace (word area ∷ word name ∷ []);
  ending = closed;
  limit = some key;
  feature = none;
}

abbrev feature_rule : List Part → Ending → FeatureKey → GuardRule
feature_rule parts ending key = record {
  method = codes "POST";
  pattern = under_workspace parts;
  ending = ending;
  limit = none;
  feature = some key;
}

unfoldable pub guarded : List GuardRule
guarded =
    limit_rule (codes "apartment") (codes "estates") properties
    ∷ limit_rule (codes "apartment") (codes "units") units
    ∷ limit_rule (codes "apartment") (codes "residents") residents
    ∷ limit_rule (codes "apartment") (codes "requests") requests_per_month
    ∷ limit_rule (codes "tenant") (codes "requests") requests_per_month
    ∷ feature_rule (word (codes "visitors") ∷ []) open_ended visitors
    ∷ feature_rule (word (codes "operations") ∷ word (codes "inspections") ∷ []) closed inspections
    ∷ feature_rule
        (word (codes "apartment") ∷ word (codes "reports") ∷ word (codes "advanced") ∷ []) closed
        advanced_reports
    ∷ feature_rule (word (codes "apartment") ∷ word (codes "exports") ∷ []) closed exports
    ∷ limit_rule (codes "office") (codes "areas") units
    ∷ limit_rule (codes "office") (codes "assets") properties
    ∷ []

part_matches : Part → Text → Bool
part_matches (word w) text = w == text
part_matches any text = not (is_empty text)

abbrev at_end : Ending → List Text → Bool
at_end closed [] = true
at_end closed (_ ∷ _) = false
at_end open_ended _ = true

-- `pattern.test(path)`, over the parts of the path between its slashes
unfoldable pub pattern_test : List Part → Ending → List Text → Bool
unfolding part_matches
pattern_test [] ending rest = at_end ending rest
pattern_test (part ∷ parts) ending [] = false
pattern_test (part ∷ parts) ending (text ∷ texts) =
    part_matches part text && pattern_test parts ending texts

abbrev slash : ℕ → ℕ
slash c = if c == b'\\' then b'/' else c

-- `GUARDED.find(…)`
unfoldable pub rule_for : Request → Option GuardRule
unfolding guarded pattern_test split_at
rule_for req =
    let parts = split_at b'/' (map slash req.path) in
    find (λ r. r.method == req.method && pattern_test r.pattern r.ending parts) guarded

unfoldable pub next_plan : Text → Text
next_plan plan =
    if plan == codes "Starter"
    then codes "Growth"
    else if plan == codes "Growth"
    then codes "TomaPrime"
    else codes "TomaPrime"

-- What the guard reads of a cached value as if it were a `CachedShape`: of the service's payload
-- the template and the overrides are `undefined`.
pub record ReadShape : Type 0 where
  pub plan_name : Text
  pub template_type : Option TemplateType
  pub usage : Usage
  pub overrides : Option Overrides

abbrev pub read_shape : Cached → ReadShape
read_shape (shape v) = record {
  plan_name = v.plan_name;
  template_type = some v.template_type;
  usage = v.usage;
  overrides = v.overrides;
}
read_shape (payload v) = record {
  plan_name = v.plan_name;
  template_type = none;
  usage = v.usage;
  overrides = none;
}

abbrev pub shape_of : Workspace → Usage → CachedShape
shape_of ws usage = record {
  plan_name = plan_name_of ws;
  template_type = ws.template_type;
  usage = usage;
  overrides = ws.entitlement_overrides;
}

-- `computeAndCache`
unfoldable pub compute_and_cache : ℕ → ℕ → Action Store Error Cached
unfolding cache_set
compute_and_cache now id = do
  found ← gets (find_workspace id)
  ws ← or_throw workspace_not_found found
  throw_if (not (assert_plan_exists (plan_name_of ws))) unknown_plan
  usage ← gets (usage_of now ws)
  cache_set now id (shape (shape_of ws usage)) entitlements_ttl_ms
  pure (shape (shape_of ws usage))

-- `if (rule.limit) …`
abbrev pub check_limit : Option LimitKey → ReadShape → PlanConfig → Action Store Error (Unit {0})
check_limit none entitlements plan = pure tt
check_limit (some key) entitlements plan =
    throw_if (leb (plan.limits key) (entitlements.usage key)) (
      limit_exceeded key (entitlements.usage key) (plan.limits key)
        (next_plan entitlements.plan_name))

-- `if (rule.feature && !features[rule.feature]) …`
abbrev pub check_feature :
    Option FeatureKey → ReadShape → PlanConfig → Action Store Error (Unit {0})
check_feature none entitlements plan = pure tt
check_feature (some key) entitlements plan =
    throw_if (not (plan.features key)) (feature_locked key (next_plan entitlements.plan_name))

-- The decision for a rule, given what was cached or computed; `ok` is `next()`.
unfoldable pub decide_rule : GuardRule → ReadShape → Action Store Error (Unit {0})
decide_rule rule entitlements = do
  base ← or_throw type_error (get_entitlements entitlements.plan_name entitlements.template_type)
  let plan = apply_workspace_overrides base entitlements.overrides
  check_limit rule.limit entitlements plan
  check_feature rule.feature entitlements plan

abbrev pub cached_or_computed : ℕ → ℕ → Option Cached → Action Store Error Cached
cached_or_computed now id (some hit) = pure hit
cached_or_computed now id none = compute_and_cache now id

abbrev pub use_rule : ℕ → Option ℕ → Option GuardRule → Action Store Error (Unit {0})
use_rule now workspace none = pure tt
use_rule now none (some rule) = throw workspace_id_required
use_rule now (some id) (some rule) = do
  hit ← cache_get now id
  entitlements ← cached_or_computed now id hit
  decide_rule rule (read_shape entitlements)

-- `use(req, res, next)`
unfoldable pub use_guard : ℕ → Request → Action Store Error (Unit {0})
unfolding cache_get compute_and_cache decide_rule
use_guard now req = use_rule now req.workspace_id (rule_for req)

-- ===== src/Billing/Entitlements.antt =====
-- billing/cache.ts and billing/service.ts: the entitlements of a workspace and their cache. Each
-- handler reads the clock once, `now`; the cache is one entry per workspace, under the key
-- `billing:entitlements:${workspaceId}` that the service and the guard share.
pub mod Laws
use tomafix_backend.Prelude.{
  ℕ, ◌+◌, ◌-◌, ◌*◌, ◌/◌, ◌%◌, Bool, true, false, not, ◌&&◌, List, [], ◌∷◌, ◌++◌, Option, none, some,
  Text, codes, is_empty, ◌==◌, nat_eq, ltb, leb, if◌then◌else◌, find, delete_where, filter_rows,
  length, Action, ◌>>=◌, ◌>>◌, pure, throw, gets, throw_if, or_throw, ok,
}
use tomafix_backend.Billing.Plans.{
  TemplateType, apartment, estate, office, LimitKey, properties, units, managers, residents,
  requests_per_month, PlanConfig, assert_plan_exists, get_entitlements,
}
use tomafix_backend.Billing.Plans.Overrides.{apply_workspace_overrides}
use tomafix_backend.Billing.Store.{
  Store, Workspace, Member, Usage, UsageTables, EntitlementsPayload, Cached, payload, CacheEntry,
  Error, workspace_not_found, unknown_plan, type_error,
}
use tomafix_backend.Billing.Store.Enums.{MemberRole, role_eq}
use tomafix_backend.Billing.Status.{find_workspace}

-- `cacheGet`: an entry past its time is dropped.
unfoldable pub cache_get : ℕ → ℕ → Action Store Error (Option Cached)
cache_get now key s = elim (find (λ e. e.key == key) s.cache) [
  | none ↦ (ok none, s)
  | some hit ↦
      if ltb hit.expires_at now
      then (ok none, record s { cache = delete_where (λ e. e.key == key) s.cache })
      else (ok (some hit.value), s)
]

-- `cacheSet`: `Map.set` puts the value in place of an older one.
unfoldable pub cache_set : ℕ → ℕ → Cached → ℕ → Action Store Error (Unit {0})
cache_set now key value ttl s = (
  ok tt,
  record s {
    cache =
        delete_where (λ e. e.key == key) s.cache
        ++ record { key = key; value = value; expires_at = now + ttl } ∷ [];
  },
)

-- `cacheStats`
pub record CacheStats : Type 0 where
  pub size : ℕ
  pub valid : ℕ
  pub expired : ℕ

unfoldable pub cache_stats : ℕ → List CacheEntry → CacheStats
cache_stats now [] = record { size = 0; valid = 0; expired = 0 }
cache_stats now (e ∷ es) =
    let rest = cache_stats now es in
    if leb now e.expires_at
    then record rest { size = rest.size + 1; valid = rest.valid + 1 }
    else record rest { size = rest.size + 1; expired = rest.expired + 1 }

-- The day of the month (from 0) of a day counted from 1970-01-01, in the Gregorian calendar: what
-- `setUTCDate(1)` takes off.
day_of_month : ℕ → ℕ
day_of_month days =
    let doe : ℕ = (days + 719468) % 146097 in
    let yoe : ℕ = (doe - doe / 1460 + doe / 36524 - doe / 146096) / 365 in
    let doy : ℕ = doe - (365 * yoe + yoe / 4 - yoe / 100) in
    let mp : ℕ = (5 * doy + 2) / 153 in doy - (153 * mp + 2) / 5

-- The first instant of the month of `now`, in UTC.
unfoldable pub month_start : ℕ → ℕ
unfolding day_of_month
month_start now = let days : ℕ = now / 86400000 in (days - day_of_month days) * 86400000

-- `count({ where: { workspaceId } })`
abbrev count_of : ℕ → List ℕ → ℕ
count_of id rows = length (filter_rows (λ w. w == id) rows)

-- `count({ where: { workspaceId, createdAt: { gte: monthStart } } })`
abbrev count_since : ℕ → ℕ → List (ℕ × ℕ) → ℕ
count_since start id rows = length (filter_rows (λ r. r.0 == id && leb start r.1) rows)

-- The five counters, by the template of the workspace.
unfoldable pub usage_of : ℕ → Workspace → Store → Usage
unfolding month_start
usage_of now ws s properties = elim ws.template_type [
  | estate ↦ count_of ws.id s.usage_tables.estates
  | office ↦ count_of ws.id s.usage_tables.office_assets
  | apartment ↦ 1
]
usage_of now ws s units = elim ws.template_type [
  | estate ↦ count_of ws.id s.usage_tables.estate_units
  | office ↦ count_of ws.id s.usage_tables.office_areas
  | apartment ↦ count_of ws.id s.usage_tables.apartment_units
]
usage_of now ws s managers = length (
    filter_rows (λ m. m.workspace_id == ws.id && (m.is_active && m.role == MemberRole.manager))
      s.members)
usage_of now ws s residents = elim ws.template_type [
  | estate ↦ count_of ws.id s.usage_tables.estate_residents
  | apartment ↦ count_of ws.id s.usage_tables.apartment_residents
  | office ↦ 0
]
usage_of now ws s requests_per_month = elim ws.template_type [
  | estate ↦ count_since (month_start now) ws.id s.usage_tables.estate_requests
  | apartment ↦ count_since (month_start now) ws.id s.usage_tables.apartment_requests
  | office ↦ count_since (month_start now) ws.id s.usage_tables.office_requests
]

-- `ws.planName || 'Starter'`
abbrev pub plan_name_of : Workspace → Text
plan_name_of ws = if is_empty ws.plan_name then codes "Starter" else ws.plan_name

abbrev pub entitlements_ttl_ms : ℕ
entitlements_ttl_ms = 180000

abbrev pub payload_of : Workspace → Usage → PlanConfig → EntitlementsPayload
payload_of ws usage plan = record {
  plan_name = plan_name_of ws;
  limits = plan.limits;
  usage = usage;
  features = plan.features;
  over_cap = λ k. ltb (plan.limits k) (usage k);
  billing_status = ws.billing_status;
  next_renewal = ws.next_renewal;
  currency = plan.currency;
  amount = plan.price_pesewas;
  notes = plan.notes;
}

-- `getWorkspaceEntitlements` past a miss. Where `getEntitlements` gives `undefined`, reading its
-- fields is a `TypeError`.
abbrev pub compute_entitlements : ℕ → ℕ → Action Store Error Cached
compute_entitlements now id = do
  found ← gets (find_workspace id)
  ws ← or_throw workspace_not_found found
  throw_if (not (assert_plan_exists (plan_name_of ws))) unknown_plan
  usage ← gets (usage_of now ws)
  base ← or_throw type_error (get_entitlements (plan_name_of ws) (some ws.template_type))
  let answer =
      payload (payload_of ws usage (apply_workspace_overrides base ws.entitlement_overrides))
  cache_set now id answer entitlements_ttl_ms
  pure answer

abbrev pub answer_with : ℕ → ℕ → Option Cached → Action Store Error Cached
answer_with now id (some hit) = pure hit
answer_with now id none = compute_entitlements now id

-- `getWorkspaceEntitlements`: a hit is handed out as it is found.
unfoldable pub get_workspace_entitlements : ℕ → ℕ → Action Store Error Cached
unfolding cache_set
get_workspace_entitlements now id = cache_get now id >>= answer_with now id

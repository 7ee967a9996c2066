-- ===== src/Billing/Entitlements/Laws.antt =====
-- What `getWorkspaceEntitlements` answers, and what it caches.
use tomafix_backend.Prelude.{
  refl, true, ◌↔◌, leb, Bool-cases, inl, inr, arith, if◌then◌else◌, ◌<◌, ℕ, ◌≡◌, ap, ◌∙◌, >>=_ok,
  none, some, nat_eq, ◌==◌, if◌then◌else◌, find, ok, err, arith, ◌≤◌, ◌<◌, ◌+◌, find-append_new,
  find-delete_same, ==_refl, le→ltb_false, lt→ltb,
}
use tomafix_backend.Billing.Plans.{
  PlanName, PlanConfig, LimitKey, FeatureKey, plan_of_key, entitlements_of, assert_plan_exists,
  get_entitlements,
}
use tomafix_backend.Billing.Plans.Overrides.{apply_workspace_overrides}
use tomafix_backend.Billing.Plans.Names.{
  assert_plan_exists-of_key, get_entitlements-of_key, toma_prime_row, toma_prime_row_lem,
}
use tomafix_backend.Billing.Store.{
  Store, Workspace, Cached, EntitlementsPayload, payload, type_error,
}
use tomafix_backend.Billing.Status.{find_workspace}
use tomafix_backend.Billing.Entitlements.{
  answer_with, cache_get, cache_set, usage_of, plan_name_of, payload_of, entitlements_ttl_ms,
  get_workspace_entitlements,
}

abbrev pub IsCold : ℕ → Store → Type 0
IsCold id s = find (λ e. e.key == id) s.cache ≡ none

pub cache_get_cold : (now id : ℕ) (s : Store) → IsCold id s → cache_get now id s ≡ (ok none, s)
unfolding cache_get
cache_get_cold now id s cold = rw (cold, cache_get)

cache_set_stores :
    (now id ttl : ℕ) (value : Cached) (s : Store)
    → find (λ e. e.key == id) (cache_set now id value ttl s).1.cache
      ≡ some (record { key = id; value = value; expires_at = now + ttl })
unfolding cache_set
cache_set_stores now id ttl value s =
    find-append_new (λ e. e.key == id) _ _ (find-delete_same (λ e. e.key) id s.cache)
    ∙ rw (==_refl id)

cache_get_fresh :
    (now id expires_at : ℕ) (value : Cached) (s : Store)
    → find (λ e. e.key == id) s.cache
      ≡ some (record { key = id; value = value; expires_at = expires_at })
    → now ≤ expires_at
    → cache_get now id s ≡ (ok (some value), s)
unfolding cache_get
cache_get_fresh now id expires_at value s stored in_time =
    rw (stored, cache_get) (rw (le→ltb_false _ _ in_time))

pub cache_get_cases :
    (now later id ttl : ℕ) (value : Cached) (s : Store)
    → let s' = (cache_set now id value ttl s).1 in
      (later ≤ now + ttl → cache_get later id s' ≡ (ok (some value), s'))
      × (now + ttl < later → (cache_get later id s').0 ≡ ok none)
unfolding cache_get cache_set
cache_get_cases now later id ttl value s =
    let stored : find (λ e. e.key == id) (cache_set now id value ttl s).1.cache
        ≡ some (record { key = id; value = value; expires_at = now + ttl }) =
      find-append_new (λ e. e.key == id) _ _ (find-delete_same (λ e. e.key) id s.cache)
      ∙ rw (==_refl id) in
    (
      λ in_time. rw (stored, cache_get) (rw (le→ltb_false _ _ in_time)),
      λ late. rw (stored, cache_get) (rw (lt→ltb _ _ late)),
    )

-- What is cached is what is read back until its time to live is over, and nothing after it.
cache_get-cache_set :
    (now later id ttl : ℕ) (value : Cached) (s : Store)
    → (cache_get later id (cache_set now id value ttl s).1).0
      ≡ ok (if leb later (now + ttl) then some value else none)
cache_get-cache_set now later id ttl value s =
    let (in_time, late) = cache_get_cases now later id ttl value s in
    elim (Bool-cases (leb later (now + ttl))) [
      | inl e ↦
          let fresh : later ≤ now + ttl = ground (arith, e) in
          rw e (ap (λ out. out.0) (in_time fresh))
      | inr e ↦ let over : now + ttl < later = ground (arith, e) in rw e (late over)
    ]

-- The plan that a workspace has: what is bought, then what its template changes, then what an
-- administrator set for it.
abbrev pub effective_plan : Workspace → PlanName → PlanConfig
effective_plan ws plan =
    apply_workspace_overrides (entitlements_of plan (some ws.template_type))
      ws.entitlement_overrides

module _ (now id : ℕ) (s : Store) (ws : Workspace) (cold : IsCold id s)
    (found : find_workspace id s ≡ some ws) where
  pub get_workspace_entitlements_cold :
      (plan : PlanName)
      → plan_of_key (plan_name_of ws) ≡ some plan
      → let answer = payload (payload_of ws (usage_of now ws s) (effective_plan ws plan)) in
        get_workspace_entitlements now id s
        ≡ (ok answer, (cache_set now id answer entitlements_ttl_ms s).1)
  unfolding get_workspace_entitlements
  get_workspace_entitlements_cold plan named =
      >>=_ok (cache_get now id) (answer_with now id) s (cache_get_cold now id s cold)
      ∙ rw found (
          rw (assert_plan_exists-of_key (plan_name_of ws) plan named)
            (rw (get_entitlements-of_key (plan_name_of ws) plan (some ws.template_type) named)))

  -- With nothing cached and a workspace on a plan of `PLAN_MAP` the answer has the limits and the
  -- features of its effective plan and its present usage, and says of a limit that it is exceeded
  -- exactly when the usage is more than the limit; and for three minutes the same answer is given,
  -- whatever becomes of the rest of the store, as long as the cache stays as it is.
  pub get_workspace_entitlements_three_minutes :
      (plan : PlanName) (later : ℕ) (s' : Store)
      → plan_of_key (plan_name_of ws) ≡ some plan
      → later ≤ now + 180000
      → s'.cache ≡ (get_workspace_entitlements now id s).1.cache
      → (r : EntitlementsPayload) × ((get_workspace_entitlements now id s).0 ≡ ok (payload r))
        × ((k : LimitKey) → r.limits k ≡ (effective_plan ws plan).limits k)
        × ((k : FeatureKey) → r.features k ≡ (effective_plan ws plan).features k)
        × ((k : LimitKey) → r.usage k ≡ usage_of now ws s k)
        × ((k : LimitKey)
            → (r.over_cap k ≡ true) ↔ ((effective_plan ws plan).limits k < usage_of now ws s k))
        × (get_workspace_entitlements later id s' ≡ (ok (payload r), s'))
  unfolding get_workspace_entitlements
  get_workspace_entitlements_three_minutes plan later s' named in_time kept =
      let config = effective_plan ws plan in
      let r = payload_of ws (usage_of now ws s) config in
      let first = get_workspace_entitlements_cold plan named in
      let cached =
        ap (find (λ e. e.key == id)) (kept ∙ ap (λ out. out.1.cache) first)
        ∙ cache_set_stores now id entitlements_ttl_ms (payload r) s in
      (
        r,
        ap (λ out. out.0) first,
        λ k. refl,
        λ k. refl,
        λ k. refl,
        λ k. (λ h. ground (arith, h), λ h. ground (arith, h)),
        >>=_ok (cache_get later id) (answer_with later id) s'
            (cache_get_fresh later id (now + entitlements_ttl_ms) (payload r) s' cached in_time),
      )

  -- A workspace on the row `Toma Prime` gets no entitlements at all: the handler throws a
  -- `TypeError`, and caches nothing.
  pub get_workspace_entitlements_toma_prime :
      plan_name_of ws ≡ toma_prime_row → get_workspace_entitlements now id s ≡ (err type_error, s)
  unfolding get_workspace_entitlements
  get_workspace_entitlements_toma_prime named =
      let (known, nothing) = toma_prime_row_lem (some ws.template_type) in
      >>=_ok (cache_get now id) (answer_with now id) s (cache_get_cold now id s cold)
      ∙ rw found (
          rw (ap assert_plan_exists named ∙ known)
            (rw (ap (λ n. get_entitlements n (some ws.template_type)) named ∙ nothing)))

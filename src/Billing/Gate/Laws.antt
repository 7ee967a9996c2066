-- ===== src/Billing/Gate/Laws.antt =====
-- When the guard lets a request pass.
use tomafix_backend.Prelude.{
  ℕ, ◌≤◌, ◌<◌, ◌+◌, ◌≡◌, refl, ap, sym, ◌∙◌, >>=_ok, ◌>>=◌, >>-ok_iff, subst, true, Option, none,
  some, ok, ◌↔◌, arith,
}
use tomafix_backend.Billing.Plans.{
  PlanName, LimitKey, FeatureKey, PlanConfig, plan_of_key, entitlements_of, get_entitlements,
}
use tomafix_backend.Billing.Plans.Overrides.{apply_workspace_overrides}
use tomafix_backend.Billing.Plans.Names.{assert_plan_exists-of_key, get_entitlements-of_key}
use tomafix_backend.Billing.Store.{Store, Workspace, Usage, Cached, payload, shape}
use tomafix_backend.Billing.Status.{find_workspace}
use tomafix_backend.Billing.Entitlements.{
  answer_with, cache_get, cache_set, usage_of, plan_name_of, payload_of, entitlements_ttl_ms,
  get_workspace_entitlements,
}
use tomafix_backend.Billing.Entitlements.Laws.{
  IsCold, cache_get_cold, cache_get_cases, effective_plan, get_workspace_entitlements_cold,
}
use tomafix_backend.Billing.Gate.{
  GuardRule, Request, rule_for, ReadShape, read_shape, shape_of, compute_and_cache, check_limit,
  check_feature, decide_rule, cached_or_computed, use_guard, use_rule,
}

-- What a rule asks of a plan: room under its limit, and its feature.
abbrev pub Permits : GuardRule → Usage → PlanConfig → Type 0
Permits rule usage plan =
    ((k : LimitKey) → rule.limit ≡ some k → usage k < plan.limits k)
    × ((k : FeatureKey) → rule.feature ≡ some k → plan.features k ≡ true)

passes_limit :
    (limit : Option LimitKey) (e : ReadShape) (plan : PlanConfig) (s : Store)
    → ((check_limit limit e plan s).0 ≡ ok tt)
      ↔ ((k : LimitKey) → limit ≡ some k → e.usage k < plan.limits k)
passes_limit none e plan s = (λ _ k h. cc, λ _. refl)
passes_limit (some key) e plan s = (
  λ h k same.
      let room : e.usage key < plan.limits key = ground arith in
      let is_key : key ≡ k = cc in subst (λ j. e.usage j < plan.limits j) is_key room,
  λ h. ground (arith, h key refl),
)

passes_feature :
    (feature : Option FeatureKey) (e : ReadShape) (plan : PlanConfig) (s : Store)
    → ((check_feature feature e plan s).0 ≡ ok tt)
      ↔ ((k : FeatureKey) → feature ≡ some k → plan.features k ≡ true)
passes_feature none e plan s = (λ _ k h. cc, λ _. refl)
passes_feature (some key) e plan s = (
  λ h k same.
      let present : plan.features key ≡ true = ground arith in
      let is_key : key ≡ k = cc in subst (λ j. plan.features j ≡ true) is_key present,
  λ h. ground (arith, h key refl),
)

-- The decision on a rule, for a plan that is found.
decide_rule_iff :
    (rule : GuardRule) (e : ReadShape) (base : PlanConfig) (s : Store)
    → get_entitlements e.plan_name e.template_type ≡ some base
    → ((decide_rule rule e s).0 ≡ ok tt)
      ↔ Permits rule e.usage (apply_workspace_overrides base e.overrides)
unfolding decide_rule
decide_rule_iff rule e base s found =
    let plan = apply_workspace_overrides base e.overrides in
    rw found (
      >>-ok_iff (check_limit rule.limit e plan) (check_feature rule.feature e plan) s
        (passes_limit rule.limit e plan s) (λ s'. passes_feature rule.feature e plan s'))

-- A decision writes nothing.
decide_rule_reads : (rule : GuardRule) (e : ReadShape) (s : Store) → (decide_rule rule e s).1 ≡ s
unfolding decide_rule
decide_rule_reads rule e s = ground arith

-- The guard decides by what the cache has, or by what it computes.
use_guard-eq-decide :
    (now id : ℕ) (req : Request) (rule : GuardRule) (s : Store)
    → req.workspace_id ≡ some id
    → rule_for req ≡ some rule
    → (hit : Option Cached) (s1 : Store) (value : Cached) {s2 : Store}
    → cache_get now id s ≡ (ok hit, s1)
    → cached_or_computed now id hit s1 ≡ (ok value, s2)
    → use_guard now req s ≡ decide_rule rule (read_shape value) s2
unfolding use_guard
use_guard-eq-decide now id req rule s of_workspace ruled hit s1 value got had =
    ap (λ w. use_rule now w (rule_for req) s) of_workspace
    ∙ ap (λ r. use_rule now (some id) r s) ruled
    ∙ >>=_ok (cache_get now id)
        (λ h. cached_or_computed now id h >>= λ v. decide_rule rule (read_shape v)) s got
    ∙ >>=_ok (cached_or_computed now id hit) (λ v. decide_rule rule (read_shape v)) s1 had

module _ (now id : ℕ) (req : Request) (rule : GuardRule) (s : Store) (ws : Workspace)
    (plan : PlanName) (of_workspace : req.workspace_id ≡ some id) (ruled : rule_for req ≡ some rule)
    (cold : IsCold id s) (found : find_workspace id s ≡ some ws)
    (named : plan_of_key (plan_name_of ws) ≡ some plan) where
  compute_and_cache_cold :
      let value = shape (shape_of ws (usage_of now ws s)) in
      compute_and_cache now id s ≡ (ok value, (cache_set now id value entitlements_ttl_ms s).1)
  unfolding compute_and_cache
  compute_and_cache_cold = rw found (rw (assert_plan_exists-of_key (plan_name_of ws) plan named))

  -- With nothing cached, a request that a rule guards passes exactly when the effective plan of
  -- its workspace leaves room under the rule's limit and has the rule's feature.
  pub use_guard_cold_iff :
      ((use_guard now req s).0 ≡ ok tt) ↔ Permits rule (usage_of now ws s) (effective_plan ws plan)
  use_guard_cold_iff =
      let value = shape (shape_of ws (usage_of now ws s)) in
      subst (λ out. (out.0 ≡ ok tt) ↔ Permits rule (usage_of now ws s) (effective_plan ws plan))
        (sym (
          use_guard-eq-decide now id req rule s of_workspace ruled none s value
            (cache_get_cold now id s cold) compute_and_cache_cold))
        (decide_rule_iff rule (read_shape value) (entitlements_of plan (some ws.template_type)) _
          (get_entitlements-of_key (plan_name_of ws) plan (some ws.template_type) named))

  -- After the service has answered for the workspace, and while its answer is cached, the same
  -- request passes exactly when the usage is below the plan's limit without the template's and the
  -- administrator's changes, and the plan has the feature without them.
  pub use_guard_after_service_iff :
      (later : ℕ)
      → later ≤ now + entitlements_ttl_ms
      → ((use_guard later req (get_workspace_entitlements now id s).1).0 ≡ ok tt)
        ↔ Permits rule (usage_of now ws s) (entitlements_of plan none)
  unfolding apply_workspace_overrides entitlements_of
  use_guard_after_service_iff later in_time =
      let value = payload (payload_of ws (usage_of now ws s) (effective_plan ws plan)) in
      let s1 = (cache_set now id value entitlements_ttl_ms s).1 in
      let answered : (get_workspace_entitlements now id s).1 ≡ s1 =
        ap (λ out. out.1) (get_workspace_entitlements_cold now id s ws cold found plan named) in
      subst
        (λ s'.
          ((use_guard later req s').0 ≡ ok tt)
          ↔ Permits rule (usage_of now ws s) (entitlements_of plan none))
        (sym answered)
        (subst
          (λ out. (out.0 ≡ ok tt) ↔ Permits rule (usage_of now ws s) (entitlements_of plan none))
          (sym (
            use_guard-eq-decide later id req rule s1 of_workspace ruled (some value) s1 value
              ((cache_get_cases now later id entitlements_ttl_ms value s).0 in_time) refl))
          (decide_rule_iff rule (read_shape value) (entitlements_of plan none) _
            (get_entitlements-of_key (plan_name_of ws) plan none named)))

  -- The other way round: after the guard has decided, and while what it cached is there, the
  -- service answers with the guard's value, which holds no limits, features or billing status.
  pub get_workspace_entitlements_after_guard :
      (later : ℕ)
      → later ≤ now + entitlements_ttl_ms
      → (get_workspace_entitlements later id (use_guard now req s).1).0
        ≡ ok (shape (shape_of ws (usage_of now ws s)))
  unfolding get_workspace_entitlements
  get_workspace_entitlements_after_guard later in_time =
      let value = shape (shape_of ws (usage_of now ws s)) in
      let s1 = (cache_set now id value entitlements_ttl_ms s).1 in
      let after : (use_guard now req s).1 ≡ s1 =
        ap (λ out. out.1)
          (use_guard-eq-decide now id req rule s of_workspace ruled none s value
            (cache_get_cold now id s cold) compute_and_cache_cold)
        ∙ decide_rule_reads rule (read_shape value) s1 in
      subst (λ s'. (get_workspace_entitlements later id s').0 ≡ ok value) (sym after)
        (ap (λ out. out.0)
          (>>=_ok (cache_get later id) (answer_with later id) s1
            ((cache_get_cases now later id entitlements_ttl_ms value s).0 in_time)))

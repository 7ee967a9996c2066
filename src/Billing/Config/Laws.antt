-- ===== src/Billing/Config/Laws.antt =====
-- What a process that starts may rely on.
use tomafix_backend.Prelude.{
  lower, ap, ◌∙◌, ◌≢◌, ◌≡◌, refl, Bool, true, false, not, Option, some, Option-cases, Text, [],
  codes, trim, starts_with, ◌==◌, list_eq, nat_eq, ok, arith, or_else, inl, inr, ◌⊎◌, >>=-eq_ok,
  ◌>>◌, pure, subst, if◌then◌else◌,
}
use tomafix_backend.Billing.Config.Hosts.{IsPublicHost, is_private_hostname-IsPublicHost}
use tomafix_backend.Billing.Config.{
  Env, PaystackMode, live, Url, Check, mode, normalize, resolve_paystack_mode, PaystackConfig,
  get_paystack_config, is_truthy, assert_public_https_url, assert_if_given,
  assert_no_local_cors_origins, assert_production, assert_development, assert_environment,
  assert_safe_billing_runtime_env, secret_prefix, public_prefix, secret_of, public_key_of,
  configured,
}

not-false : (b : Bool) → not b ≡ false → b ≡ true
not-false true h = refl
not-false false h = cc

-- A configuration with a secret key: the mode is the resolved one, and the keys are those of the
-- environment and of that mode.
abbrev pub HasKeys : Env → PaystackConfig → Type 0
HasKeys env c =
    (resolve_paystack_mode env ≡ some c.mode)
    × (starts_with (secret_of env) (secret_prefix c.mode) ≡ true)
    × ((public_key_of env ≡ []) ⊎ (starts_with (public_key_of env) (public_prefix c.mode) ≡ true))

-- The keys that are given begin like live keys; the public key may be missing.
abbrev pub HasLiveKeys : Env → Type 0
HasLiveKeys env =
    (starts_with (trim (or_else env.paystack_secret_key [])) (codes "sk_live_") ≡ true)
    × ((trim (or_else env.paystack_public_key []) ≡ [])
        ⊎ (starts_with (trim (or_else env.paystack_public_key [])) (codes "pk_live_") ≡ true))

HasKeys-HasLiveKeys :
    (env : Env) (c : PaystackConfig)
    → HasKeys env c
    → resolve_paystack_mode env ≡ some live
    → HasLiveKeys env
HasKeys-HasLiveKeys env c (resolved, secret, public) is_live =
    let mode_live : c.mode ≡ live = cc (resolved, is_live) in
    (
      subst (λ m. starts_with (secret_of env) (secret_prefix m) ≡ true) mode_live secret,
      subst
          (λ m.
            (public_key_of env ≡ []) ⊎ (starts_with (public_key_of env) (public_prefix m) ≡ true))
          mode_live public,
    )

-- A flag that is not one of the words that switch it on.
abbrev pub IsOff : Option Text → Type 0
IsOff raw =
    (normalize raw ≢ codes "true") × (normalize raw ≢ codes "1") × (normalize raw ≢ codes "yes")

is_truthy-IsOff : (raw : Option Text) → is_truthy raw ≡ false → IsOff raw
is_truthy-IsOff raw h = (
  λ e. ground (arith, h, (list_eq.same_iff (normalize raw) (codes "true")).1 e),
  λ e. ground (arith, h, (list_eq.same_iff (normalize raw) (codes "1")).1 e),
  λ e. ground (arith, h, (list_eq.same_iff (normalize raw) (codes "yes")).1 e),
)

configured-HasKeys :
    (m : PaystackMode) (secret public_key : Text) (env env' : Env) (c : PaystackConfig)
    → resolve_paystack_mode env ≡ some m
    → secret ≡ secret_of env
    → public_key ≡ public_key_of env
    → configured m secret public_key env ≡ (ok c, env')
    → (env' ≡ env) × HasKeys env c
configured-HasKeys m secret public_key env env' c resolved here there h =
    subst
      (λ secret.
        (env' ≡ env)
        × ((resolve_paystack_mode env ≡ some c.mode)
            × (starts_with secret (secret_prefix c.mode) ≡ true)
            × ((public_key_of env ≡ [])
                ⊎ (starts_with (public_key_of env) (public_prefix c.mode) ≡ true))))
      here
      (subst
        (λ public_key.
          (env' ≡ env)
          × ((resolve_paystack_mode env ≡ some c.mode)
              × (starts_with secret (secret_prefix c.mode) ≡ true)
              × ((public_key ≡ []) ⊎ (starts_with public_key (public_prefix c.mode) ≡ true))))
        there (ground arith))

-- Without `allowUnconfigured` a configuration that is handed out has keys, and they are of its
-- mode: a live key never serves the test mode, nor a test key the live mode.
get_paystack_config-HasKeys :
    (env env' : Env) (c : PaystackConfig)
    → get_paystack_config false env ≡ (ok c, env')
    → (env' ≡ env) × HasKeys env c
unfolding get_paystack_config
get_paystack_config-HasKeys env env' c h = elim (Option-cases (resolve_paystack_mode env)) [
  | inl unknown ↦ absurd (ground arith)
  | inr (m, resolved) ↦
      configured-HasKeys m (secret_of env) (public_key_of env) env env' c resolved refl refl
        (ground arith)
]

module _ (parse_url : Text → Option Url) where
  abbrev pub IsPublic : Option Text → Type 0
  IsPublic raw =
      (url : Url) × (parse_url (trim (or_else raw [])) ≡ some url)
      × (url.protocol ≡ codes "https:")
      × IsPublicHost (lower (trim url.hostname))

  assert_public_https_url-IsPublic :
      (raw : Option Text) (env env' : Env)
      → assert_public_https_url parse_url raw env ≡ (ok tt, env')
      → (env' ≡ env) × IsPublic raw
  assert_public_https_url-IsPublic raw env env' h =
      elim (Option-cases (parse_url (trim (or_else raw [])))) [
        | inl unparsed ↦ absurd (ground arith)
        | inr (url, parsed) ↦ (
          ground arith,
          (
            url,
            parsed,
            ground (arith, list_eq.same_iff url.protocol (codes "https:")),
            is_private_hostname-IsPublicHost url.hostname (ground arith),
          ),
        )
      ]

  -- The checks of production, from the last on: what is left after the keys, and after the flags.
  module _ (env : Env) where
    abbrev after_callback : Check (Unit {0})
    after_callback =
        assert_if_given parse_url env.app_base_url
        >> (assert_if_given parse_url env.app_url
            >> assert_no_local_cors_origins parse_url env.cors_origins)

    abbrev after_frontend : Check (Unit {0})
    after_frontend = assert_public_https_url parse_url env.paystack_callback_url >> after_callback

    abbrev after_keys : Check (Unit {0})
    after_keys = assert_public_https_url parse_url env.frontend_url >> after_frontend

    abbrev after_flags : Check (Unit {0})
    after_flags = get_paystack_config false >> after_keys

    -- What the checks of production establish.
    abbrev pub ProductionSafe : Type 0
    ProductionSafe =
        IsOff env.local_bypass_payment
        × IsOff env.local_relax_guards
        × HasLiveKeys env
        × IsPublic env.frontend_url
        × IsPublic env.paystack_callback_url

    urls_safe :
        (env' : Env)
        → after_keys env ≡ (ok tt, env')
        → IsPublic env.frontend_url × IsPublic env.paystack_callback_url
    urls_safe env' h =
        let (_, s1, first, h1) =
          >>=-eq_ok (assert_public_https_url parse_url env.frontend_url) (λ _. after_frontend) env
            h in
        let (same, frontend) = assert_public_https_url-IsPublic env.frontend_url env s1 first in
        let (_, s2, second, _) =
          >>=-eq_ok (assert_public_https_url parse_url env.paystack_callback_url)
            (λ _. after_callback) env (subst (λ s. after_frontend s ≡ (ok tt, env')) same h1) in
        (frontend, (assert_public_https_url-IsPublic env.paystack_callback_url env s2 second).1)

    flags_safe :
        (m : PaystackMode) (env' : Env)
        → assert_production parse_url env m env ≡ (ok tt, env')
        → (m ≡ live)
          × (is_truthy env.local_bypass_payment ≡ false)
          × (is_truthy env.local_relax_guards ≡ false)
          × (after_flags env ≡ (ok tt, env'))
    flags_safe m env' h = ground arith

    production-ProductionSafe :
        (m : PaystackMode) (env' : Env)
        → resolve_paystack_mode env ≡ some m
        → assert_production parse_url env m env ≡ (ok tt, env')
        → (m ≡ live) × ProductionSafe
    production-ProductionSafe m env' resolved h =
        let (is_live, bypass, relax, h1) = flags_safe m env' h in
        let (c, s1, keys, h2) = >>=-eq_ok (get_paystack_config false) (λ _. after_keys) env h1 in
        let (same, has) = get_paystack_config-HasKeys env s1 c keys in
        let (frontend, callback) =
          urls_safe env' (subst (λ s. after_keys s ≡ (ok tt, env')) same h2) in
        (
          is_live,
          (
            is_truthy-IsOff env.local_bypass_payment bypass,
            is_truthy-IsOff env.local_relax_guards relax,
            HasKeys-HasLiveKeys env c has (resolved ∙ ap some is_live),
            frontend,
            callback,
          ),
        )

  mode-reads :
      (env env' : Env) (m : PaystackMode)
      → mode env ≡ (ok m, env')
      → (env' ≡ env) × (resolve_paystack_mode env ≡ some m)
  mode-reads env env' m h = ground arith

  -- A process that starts in production runs Paystack live: the secret key of its environment begins
  -- like a live key, and so does the public key if there is one; neither of the two bypass flags is
  -- one of the words that switch it on; and the frontend and the callback address are https
  -- addresses whose host is not `localhost`, `127.0.0.1` or `::1` and does not begin with `10.`,
  -- `192.168.` or one of `172.16.` to `172.31.`.
  pub assert_safe_billing_runtime_env-ProductionSafe :
      (env env' : Env) (m : PaystackMode)
      → (normalize env.node_env == codes "production") ≡ true
      → assert_safe_billing_runtime_env parse_url env ≡ (ok m, env')
      → (m ≡ live) × ProductionSafe env
  unfolding assert_safe_billing_runtime_env
  assert_safe_billing_runtime_env-ProductionSafe env env' m production h =
      let (m1, s1, resolved, h1) = >>=-eq_ok mode (assert_environment parse_url env) env h in
      let (unchanged, is_mode) = mode-reads env s1 m1 resolved in
      let (_, s2, checked, answer) =
        >>=-eq_ok
          (if normalize env.node_env == codes "production"
            then assert_production parse_url env m1
            else assert_development parse_url env m1)
          (λ _. pure m1) env
          (subst (λ s. assert_environment parse_url env m1 s ≡ (ok m, env')) unchanged h1) in
      let same : m1 ≡ m = cc answer in
      subst (λ x. (x ≡ live) × ProductionSafe env) same
        (production-ProductionSafe env m1 s2 is_mode (rw production at checked))

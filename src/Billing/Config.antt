-- ===== src/Billing/Config.antt =====
-- billing/paystack.config.ts and billing/runtime-billing-env.guard.ts: the Paystack keys that the
-- process may run with, and the checks of its environment at boot. The environment is the state
-- that the checks read. `new URL` is the platform's, and a parameter.
pub mod Hosts
pub mod Laws
use tomafix_backend.Prelude.{
  ℕ, zero, suc, ◌+◌, ◌*◌, ◌-◌, Bool, true, false, not, ◌&&◌, ◌||◌, List, [], ◌∷◌, Option, none,
  some, Text, codes, trim, lower, is_empty, starts_with, split_at, ◌==◌, nat_eq, list_eq, leb, ltb,
  if◌then◌else◌, or_else, map, filter_rows, drop, Action, ◌>>=◌, ◌>>◌, pure, throw, gets, throw_if,
  or_throw,
}

pub record Env : Type 0 where
  pub node_env : Option Text
  pub paystack_mode : Option Text
  pub paystack_secret_key : Option Text
  pub paystack_public_key : Option Text
  pub allow_live_paystack_in_dev : Option Text
  pub local_bypass_payment : Option Text
  pub local_relax_guards : Option Text
  pub frontend_url : Option Text
  pub paystack_callback_url : Option Text
  pub app_base_url : Option Text
  pub app_url : Option Text
  pub cors_origins : Option Text

pub data PaystackMode : Type 0 where
  test live : PaystackMode

-- Why the process is not started.
pub data EnvError : Type 0 where
  bad_mode secret_missing wrong_secret_prefix wrong_public_prefix : EnvError
  production_not_live bypass_in_production relaxed_in_production : EnvError
  url_missing url_invalid url_not_https url_private : EnvError
  cors_invalid cors_private live_in_development : EnvError

abbrev pub Check : Type 0 → Type 0
Check A = Action Env EnvError A

abbrev pub normalize : Option Text → Text
normalize raw = lower (trim (or_else raw []))

-- `resolvePaystackMode`
unfoldable pub resolve_paystack_mode : Env → Option PaystackMode
resolve_paystack_mode env =
    let configured = normalize env.paystack_mode in
    if is_empty configured || configured == codes "auto"
    then some (if normalize env.node_env == codes "production" then live else test)
    else if configured == codes "test"
    then some test
    else if configured == codes "live"
    then some live
    else none

abbrev pub mode : Check PaystackMode
mode = gets resolve_paystack_mode >>= or_throw bad_mode

abbrev pub secret_prefix : PaystackMode → Text
secret_prefix live = codes "sk_live_"
secret_prefix test = codes "sk_test_"

abbrev pub public_prefix : PaystackMode → Text
public_prefix live = codes "pk_live_"
public_prefix test = codes "pk_test_"

pub record PaystackConfig : Type 0 where
  pub mode : PaystackMode
  pub secret : Text
  pub public_key : Text
  pub configured : Bool

abbrev secret_of : Env → Text
secret_of env = trim (or_else env.paystack_secret_key [])

abbrev public_key_of : Env → Text
public_key_of env = trim (or_else env.paystack_public_key [])

abbrev configured : PaystackMode → Text → Text → Check PaystackConfig
configured m secret public_key = do
  throw_if (not (starts_with secret (secret_prefix m))) wrong_secret_prefix
  throw_if (not (is_empty public_key) && not (starts_with public_key (public_prefix m)))
      wrong_public_prefix
  pure (record { mode = m; secret = secret; public_key = public_key; configured = true })

abbrev unconfigured : Bool → PaystackMode → Text → Check PaystackConfig
unconfigured true m public_key =
    pure (record { mode = m; secret = []; public_key = public_key; configured = false })
unconfigured false m public_key = throw secret_missing

-- `getPaystackConfig(env, { allowUnconfigured })`
unfoldable pub get_paystack_config : Bool → Check PaystackConfig
unfolding resolve_paystack_mode
get_paystack_config allow_unconfigured = do
  m ← mode
  secret ← gets secret_of
  public_key ← gets public_key_of
  if is_empty secret
      then unconfigured allow_unconfigured m public_key
      else configured m secret public_key

abbrev pub is_truthy : Option Text → Bool
is_truthy raw =
    let value = normalize raw in value == codes "true" || value == codes "1" || value == codes "yes"

abbrev is_digit : ℕ → Bool
is_digit c = leb b'0' c && leb c b'9'

-- `/^172\.(\d{1,3})\./`, past the first four units: the value of one to three digits up to a dot
octet : ℕ → ℕ → Text → Option ℕ
octet zero value rest = elim rest [ [] ↦ none | c ∷ _ ↦ if c == b'.' then some value else none ]
octet (suc room) value [] = none
octet (suc room) value (c ∷ rest) =
    let more = octet room (value * 10 + (c - b'0')) rest in
    if is_digit c then more else if c == b'.' then some value else none

starts_with_digit : Text → Bool
starts_with_digit [] = false
starts_with_digit (c ∷ _) = is_digit c

abbrev in_172_block : Text → Bool
in_172_block host =
    if starts_with host (codes "172.") && starts_with_digit (drop 4 host)
    then elim (octet 3 0 (drop 4 host)) [
      | none ↦ false
      | some second ↦ leb 16 second && leb second 31
    ]
    else false

-- `isPrivateHostname`
unfoldable pub is_private_hostname : Text → Bool
unfolding octet starts_with_digit starts_with
is_private_hostname hostname =
    let host = lower (trim hostname) in
    not (is_empty hostname)
    && (host == codes "localhost"
        || host == codes "127.0.0.1"
        || host == codes "::1"
        || starts_with host (codes "10.")
        || starts_with host (codes "192.168.")
        || in_172_block host)

pub record Url : Type 0 where
  pub protocol : Text
  pub hostname : Text

module _ (parse_url : Text → Option Url) where
  -- `assertPublicHttpsUrl`
  abbrev pub assert_public_https_url : Option Text → Check (Unit {0})
  assert_public_https_url raw = do
    let value = trim (or_else raw [])
    throw_if (is_empty value) url_missing
    parsed ← or_throw url_invalid (parse_url value)
    throw_if (not (parsed.protocol == codes "https:")) url_not_https
    throw_if (is_private_hostname parsed.hostname) url_private

  -- `if (env.X) assertPublicHttpsUrl('X', env.X)`
  abbrev pub assert_if_given : Option Text → Check (Unit {0})
  assert_if_given none = pure tt
  assert_if_given (some raw) = if is_empty raw then pure tt else assert_public_https_url (some raw)

  pub assert_origins : List Text → Check (Unit {0})
  assert_origins [] = pure tt
  assert_origins (origin ∷ origins) = do
    parsed ← or_throw cors_invalid (parse_url origin)
    throw_if (is_private_hostname parsed.hostname) cors_private
    assert_origins origins

  -- `assertNoLocalCorsOrigins`
  abbrev pub assert_no_local_cors_origins : Option Text → Check (Unit {0})
  assert_no_local_cors_origins raw =
      assert_origins
        (filter_rows (λ t. not (is_empty t)) (map trim (split_at b',' (or_else raw []))))

  abbrev pub assert_production : Env → PaystackMode → Check (Unit {0})
  assert_production env m = do
    throw_if (elim m [ live ↦ false | test ↦ true ]) production_not_live
    throw_if (is_truthy env.local_bypass_payment) bypass_in_production
    throw_if (is_truthy env.local_relax_guards) relaxed_in_production
    get_paystack_config false
    assert_public_https_url env.frontend_url
    assert_public_https_url env.paystack_callback_url
    assert_if_given env.app_base_url
    assert_if_given env.app_url
    assert_no_local_cors_origins env.cors_origins

  abbrev pub assert_development : Env → PaystackMode → Check (Unit {0})
  assert_development env test = pure tt
  assert_development env live = do
    throw_if (not (is_truthy env.allow_live_paystack_in_dev)) live_in_development
    get_paystack_config false
    pure tt

  abbrev pub assert_environment : Env → PaystackMode → Check PaystackMode
  assert_environment env m =
      (if normalize env.node_env == codes "production"
        then assert_production env m
        else assert_development env m)
      >> pure m

  -- `assertSafeBillingRuntimeEnv`; what it returns beside the mode is text of the environment.
  unfoldable pub assert_safe_billing_runtime_env : Check PaystackMode
  unfolding get_paystack_config assert_origins is_private_hostname
  assert_safe_billing_runtime_env env = (mode >>= assert_environment env) env

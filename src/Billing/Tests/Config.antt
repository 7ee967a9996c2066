-- ===== src/Billing/Tests/Config.antt =====
-- The configuration of Paystack and the checks at the start, in one production environment.
use tomafix_backend.Prelude.{
  ◌≡◌, refl, true, Option, none, some, Text, codes, trim, lower, starts_with, split_at,
}
use tomafix_backend.Billing.Config.{Env, live, PaystackConfig, Url, assert_safe_billing_runtime_env}
use tomafix_backend.Billing.Config.Laws.{
  ProductionSafe, assert_safe_billing_runtime_env-ProductionSafe,
}

abbrev production : Env
production = record {
  node_env = some (codes "production");
  paystack_mode = none;
  paystack_secret_key = some (codes "sk_live_1");
  paystack_public_key = some (codes "pk_live_1");
  allow_live_paystack_in_dev = none;
  local_bypass_payment = none;
  local_relax_guards = none;
  frontend_url = some (codes "u");
  paystack_callback_url = some (codes "v");
  app_base_url = none;
  app_url = none;
  cors_origins = none;
}

abbrev keys : PaystackConfig
keys = record {
  configured = true;
  mode = live;
  secret = codes "sk_live_1";
  public_key = codes "pk_live_1";
}

-- A parser that reads every text as the address of one public host.
abbrev parse_url : Text → Option Url
parse_url raw = some (record { protocol = codes "https:"; hostname = codes "tomafix.com" })

assert_safe_billing_runtime_env-ProductionSafe_example :
    (live ≡ live) × ProductionSafe parse_url production
unfolding assert_safe_billing_runtime_env trim lower starts_with split_at
assert_safe_billing_runtime_env-ProductionSafe_example =
    assert_safe_billing_runtime_env-ProductionSafe parse_url production production live refl refl

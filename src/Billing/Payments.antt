-- ===== src/Billing/Payments.antt =====
-- billing/billing.service.ts: the one place where a payment takes effect, finalizeSuccessfulPayment,
-- with the mock confirmation. The clock (`now`) is an argument.
pub mod Finalize
pub mod Columns
pub mod Effect
use tomafix_backend.Prelude.{
  ℕ, ◌+◌, ◌*◌, Bool, true, false, not, ◌&&◌, ◌||◌, List, [], ◌∷◌, ◌++◌, Option, none, some, Text,
  codes, trim, is_empty, ◌==◌, nat_eq, list_eq, if◌then◌else◌, or_else, is_some, find, update_where,
  Action, ◌>>=◌, ◌>>◌, pure, throw, gets, throw_if, or_throw, transaction, ok,
}
use tomafix_backend.Billing.Plans.{TemplateType}
use tomafix_backend.Billing.Plans.Keys.{template_eq}
use tomafix_backend.Billing.Store.{
  Store, Workspace, Plan, Payment, PaystackEvent, Subscription, Error, workspace_not_found,
  owner_email_missing, checkout_not_allowed, plan_not_found, wrong_template, paystack_init_failed,
  reference_required, payment_not_found, plan_switch_checkout_started,
}
use tomafix_backend.Billing.Store.Enums.{
  WorkspaceStatus, workspace_status_eq, BillingStatus, billing_status_eq, PaymentStatus,
  payment_status_eq, SubscriptionStatus, PlanInterval, interval_eq,
}
use tomafix_backend.Billing.Status.{
  assert_billing_transition, find_workspace, update_workspace, update_payment, cache_bust,
  create_audit_log, day_ms,
}

abbrev pub find_plan : ℕ → Store → Option Plan
find_plan id s = find (λ p. p.id == id) s.plans

abbrev pub find_payment : Text → Store → Option Payment
find_payment reference s = find (λ p. p.reference == reference) s.payments

-- a string that is there and not empty
abbrev pub truthy : Option Text → Bool
truthy none = false
truthy (some t) = not (is_empty t)

-- The end of the period that is paid for.
abbrev pub period_end : ℕ → Option Plan → ℕ
period_end now none = now + 30 * day_ms
period_end now (some plan) =
    if plan.interval == PlanInterval.yearly then now + 365 * day_ms else now + 30 * day_ms

-- `plan?.name || 'Starter'`
abbrev pub paid_plan_name : Option Plan → Text
paid_plan_name none = codes "Starter"
paid_plan_name (some plan) = if is_empty plan.name then codes "Starter" else plan.name

abbrev pub plan_of_payment : Payment → Store → Option Plan
plan_of_payment payment s = elim payment.plan_id [ none ↦ none | some id ↦ find_plan id s ]

abbrev pub pay : Option Text → ℕ → PaystackEvent → Payment → Payment
pay txn_id paid_at raw p = record p {
  status = PaymentStatus.paid;
  provider_txn_id = txn_id;
  channel = if truthy raw.channel then raw.channel else none;
  paid_at = some paid_at;
  raw_event = some raw;
}

abbrev pub activate : ℕ → Option Plan → Workspace → Workspace
activate now plan w = record w {
  status = WorkspaceStatus.active;
  plan_name = paid_plan_name plan;
  billing_status = BillingStatus.active;
  next_renewal = some (period_end now plan);
}

abbrev pub find_subscription : ℕ → Store → Option Subscription
find_subscription id s = find (λ sub. sub.workspace_id == id) s.subscriptions

abbrev pub paid_subscription : ℕ → Option ℕ → ℕ → Subscription
paid_subscription id plan_id end = record {
  workspace_id = id;
  status = SubscriptionStatus.active;
  plan_id = plan_id;
  current_period_end = some end;
}

abbrev pub renew : Option ℕ → ℕ → Subscription → Subscription
renew plan_id end sub = record sub {
  status = SubscriptionStatus.active;
  plan_id = plan_id;
  current_period_end = some end;
}

-- The subscription of the workspace is rewritten, or made.
abbrev pub put_subscription : ℕ → Option ℕ → ℕ → Action Store Error (Unit {0})
put_subscription id plan_id end s = (
  ok tt,
  record s {
    subscriptions =
        if is_some (find_subscription id s)
        then update_where (λ sub. sub.workspace_id == id) (renew plan_id end) s.subscriptions
        else s.subscriptions ++ paid_subscription id plan_id end ∷ [];
  },
)

-- The transition to `ACTIVE`, which renewals and plan switches are spared.
abbrev pub assert_may_activate : BillingStatus → Action Store Error (Unit {0})
assert_may_activate from =
    if from == BillingStatus.active
    then pure tt
    else assert_billing_transition from BillingStatus.active

abbrev pub settle_rest : ℕ → Payment → Option Plan → Action Store Error (Unit {0})
settle_rest now payment plan = do
  update_workspace payment.workspace_id (activate now plan)
  cache_bust payment.workspace_id
  put_subscription payment.workspace_id payment.plan_id (period_end now plan)

abbrev pub settle_workspace : ℕ → Payment → Option Plan → Workspace → Action Store Error (Unit {0})
settle_workspace now payment plan ws =
    assert_may_activate ws.billing_status >> settle_rest now payment plan

-- The transaction of `finalizeSuccessfulPayment`.
abbrev pub settle :
    ℕ → Text → Option Text → ℕ → PaystackEvent → Payment → Action Store Error (Unit {0})
settle now reference txn_id paid_at raw payment = do
  update_payment (λ p. p.reference == reference) (pay txn_id paid_at raw)
  plan ← gets (plan_of_payment payment)
  found ← gets (find_workspace payment.workspace_id)
  ws ← or_throw workspace_not_found found
  settle_workspace now payment plan ws

abbrev pub finalize_found :
    ℕ → Text → Option Text → ℕ → PaystackEvent → Option Payment → Action Store Error (Unit {0})
finalize_found now reference txn_id paid_at raw none = pure tt
finalize_found now reference txn_id paid_at raw (some payment) =
    if payment.status == PaymentStatus.paid
    then pure tt
    else transaction (settle now reference txn_id paid_at raw payment)

-- `finalizeSuccessfulPayment`
unfoldable pub finalize_successful_payment :
    ℕ → Text → Option Text → ℕ → PaystackEvent → Action Store Error (Unit {0})
unfolding assert_billing_transition
finalize_successful_payment now reference txn_id paid_at raw =
    gets (find_payment reference) >>= finalize_found now reference txn_id paid_at raw

-- The event that the mock confirmation stores.
abbrev pub mock_event : Text → PaystackEvent
mock_event reference = record {
  event = some (codes "mock.charge.success");
  reference = some reference;
  txn_id = none;
  channel = none;
  paid_at = none;
  amount = 0;
  currency = [];
}

-- The answers of `confirmMockPayment`: the status of the workspace, if there is one.
pub data Confirmation : Type 0 where
  already_processed : Confirmation
  processed : Option WorkspaceStatus → Confirmation

abbrev pub status_of : Option Workspace → Option WorkspaceStatus
status_of none = none
status_of (some ws) = some ws.status

abbrev pub confirm_payment : ℕ → Text → Payment → Action Store Error Confirmation
confirm_payment now reference payment =
    if payment.status == PaymentStatus.paid then pure already_processed else do
      finalize_successful_payment now reference none now (mock_event reference)
      ws ← gets (find_workspace payment.workspace_id)
      pure (processed (status_of ws))

abbrev pub confirm_reference : ℕ → Text → Action Store Error Confirmation
confirm_reference now reference = do
  throw_if (is_empty reference) reference_required
  found ← gets (find_payment reference)
  payment ← or_throw payment_not_found found
  confirm_payment now reference payment

-- `confirmMockPayment`
unfoldable pub confirm_mock_payment : ℕ → Text → Action Store Error Confirmation
confirm_mock_payment now input = confirm_reference now (trim input)

-- ===== src/Billing/Checkout.antt =====
-- billing/billing.service.ts: the checkouts, initPaystackPayment, initMockPayment and
-- changeWorkspacePlan. What the database and `randomUUID` generate (`row`, `uuid`), the clock (`now`)
-- and the answer of Paystack are arguments.
use tomafix_backend.Prelude.{
  ℕ, Bool, not, ◌||◌, [], ◌∷◌, ◌++◌, Option, none, some, Text, codes, ◌==◌, nat_eq, list_eq,
  if◌then◌else◌, or_else, Action, ◌>>=◌, ◌>>◌, pure, gets, throw_if, or_throw, ok,
}
use tomafix_backend.Billing.Plans.{TemplateType}
use tomafix_backend.Billing.Plans.Keys.{template_eq}
use tomafix_backend.Billing.Store.{
  Store, Workspace, Plan, Payment, Error, workspace_not_found, owner_email_missing,
  checkout_not_allowed, plan_not_found, wrong_template, paystack_init_failed,
  plan_switch_checkout_started,
}
use tomafix_backend.Billing.Store.Enums.{
  WorkspaceStatus, workspace_status_eq, billing_status_eq, PaymentStatus, payment_status_eq,
  interval_eq,
}
use tomafix_backend.Billing.Status.{find_workspace, create_audit_log}
use tomafix_backend.Billing.Payments.{find_plan, truthy}

-- `plan && plan.isActive`
abbrev active_plan : Option Plan → Option Plan
active_plan none = none
active_plan (some plan) = if plan.is_active then some plan else none

-- `workspace.template?.key || workspace.templateType`
abbrev pub workspace_template : Workspace → TemplateType
workspace_template ws = or_else ws.template ws.template_type

abbrev create_payment : Payment → Action Store Error (Unit {0})
create_payment p s = (ok tt, record s { payments = s.payments ++ p ∷ [] })

abbrev pub new_payment : ℕ → ℕ → Text → Text → Workspace → Plan → Payment
new_payment now row reference currency ws plan = record {
  id = row;
  workspace_id = ws.id;
  plan_id = some plan.id;
  reference = reference;
  amount_pesewas = plan.amount_pesewas;
  currency = currency;
  status = PaymentStatus.pending;
  provider_txn_id = none;
  channel = none;
  paid_at = none;
  raw_event = none;
  created_at = now;
}

-- The checks that both kinds of checkout make; they differ in the statuses that may check out.
abbrev checkout : (WorkspaceStatus → Bool) → ℕ → ℕ → Action Store Error (Workspace × Plan)
checkout may_start workspace_id plan_id = do
  found ← gets (find_workspace workspace_id)
  ws ← or_throw workspace_not_found found
  throw_if (not (truthy ws.owner_email)) owner_email_missing
  throw_if (not (may_start ws.status)) checkout_not_allowed
  row ← gets (find_plan plan_id)
  plan ← or_throw plan_not_found (active_plan row)
  throw_if (not (plan.template == workspace_template ws)) wrong_template
  pure (ws, plan)

abbrev pub may_checkout : WorkspaceStatus → Bool
may_checkout status = status == WorkspaceStatus.pending_payment || status == WorkspaceStatus.active

-- `process.env.PAYSTACK_CURRENCY_OVERRIDE?.trim().toUpperCase() || plan.currency`, the first part
-- being `override`
abbrev charge_currency : Option Text → Plan → Text
charge_currency override plan =
    if truthy override then or_else override plan.currency else plan.currency

-- `initPaystackPayment`; `started` is whether `initializeTransaction` resolves. The payment row is
-- there before Paystack is asked, and stays when it fails.
unfoldable pub init_paystack_payment :
    ℕ → ℕ → Text → Option Text → Bool → ℕ → ℕ → Action Store Error Text
init_paystack_payment now row uuid override started workspace_id plan_id = do
  chosen ← checkout may_checkout workspace_id plan_id
  let reference = codes "tf_" ++ uuid
  create_payment
      (new_payment now row reference (charge_currency override chosen.1) chosen.0 chosen.1)
  throw_if (not started) paystack_init_failed
  pure reference

-- `initMockPayment`
unfoldable pub init_mock_payment : ℕ → ℕ → Text → ℕ → ℕ → Action Store Error Text
init_mock_payment now row uuid workspace_id plan_id = do
  chosen ← checkout (λ status. status == WorkspaceStatus.pending_payment) workspace_id plan_id
  let reference = codes "mock_" ++ uuid
  create_payment (new_payment now row reference (chosen.1).currency chosen.0 chosen.1)
  pure reference

-- `changeWorkspacePlan`: the checkout of another plan, which starts in the audit log.
unfoldable pub change_workspace_plan :
    ℕ → ℕ → Text → Option Text → Bool → ℕ → ℕ → Action Store Error Text
unfolding init_paystack_payment
change_workspace_plan now row uuid override started workspace_id plan_id = do
  found_plan ← gets (find_plan plan_id)
  plan ← or_throw plan_not_found (active_plan found_plan)
  found ← gets (find_workspace workspace_id)
  ws ← or_throw workspace_not_found found
  throw_if (not (plan.template == workspace_template ws)) wrong_template
  create_audit_log workspace_id (plan_switch_checkout_started plan.id plan.name)
  init_paystack_payment now row uuid override started workspace_id plan_id

-- ===== src/Billing/Reconcile.antt =====
-- billing/billing.service.ts: reconcileWorkspaceBilling, which recomputes the columns of a
-- workspace from its latest payment and its subscription.
pub mod Laws
use tomafix_backend.Prelude.{
  ℕ, ◌+◌, ◌*◌, Bool, true, false, Option, none, some, Text, ◌==◌, nat_eq, ltb, leb, if◌then◌else◌,
  List, [], ◌∷◌, is_empty, Action, ◌>>=◌, ◌>>◌, pure, gets, or_throw,
}
use tomafix_backend.Billing.Store.{
  Store, Workspace, Plan, Payment, Subscription, Error, workspace_not_found,
}
use tomafix_backend.Billing.Store.Enums.{
  WorkspaceStatus, workspace_status_eq, BillingStatus, billing_status_eq, PaymentStatus,
  PlanInterval, interval_eq,
}
use tomafix_backend.Billing.Status.{find_workspace, update_workspace, cache_bust, day_ms}
use tomafix_backend.Billing.Payments.{find_plan, find_subscription}

-- `orderBy: [{ paidAt: 'desc' }, { createdAt: 'desc' }]`: PostgreSQL puts null first in a
-- descending order, so a payment that was never paid stands before all that were.
abbrev stands_before : Payment → Payment → Bool
stands_before p q = elim p.paid_at [
  | none ↦ elim q.paid_at [ none ↦ leb q.created_at p.created_at | some _ ↦ true ]
  | some a ↦ elim q.paid_at [
    | none ↦ false
    | some b ↦ if a == b then leb q.created_at p.created_at else ltb b a
  ]
]

first_of_two : Payment → Option Payment → Option Payment
first_of_two p none = some p
first_of_two p (some q) = if stands_before p q then some p else some q

unfoldable pub latest_paid : ℕ → List Payment → Option Payment
unfolding first_of_two
latest_paid id [] = none
latest_paid id (p ∷ ps) =
    let rest = latest_paid id ps in if p.workspace_id == id then first_of_two p rest else rest

-- The four columns that are recomputed.
pub record Columns : Type 0 where
  pub billing_status : BillingStatus
  pub status : WorkspaceStatus
  pub next_renewal : Option ℕ
  pub plan_name : Text

abbrev pub columns_of : Workspace → Columns
columns_of ws = record {
  billing_status = ws.billing_status;
  status = ws.status;
  next_renewal = ws.next_renewal;
  plan_name = ws.plan_name;
}

-- `if (latestSub?.plan?.name) planName = …`
abbrev with_plan : Option Plan → Columns → Columns
with_plan none c = c
with_plan (some plan) c = if is_empty plan.name then c else record c { plan_name = plan.name }

-- `if (latestSub?.currentPeriodEnd) nextRenewal = …`
abbrev with_period : Option Subscription → Columns → Columns
with_period none c = c
with_period (some sub) c = elim sub.current_period_end [
  | none ↦ c
  | some end ↦ record c { next_renewal = some end }
]

abbrev renewal_days : Option Plan → ℕ
renewal_days none = 30
renewal_days (some plan) = if plan.interval == PlanInterval.yearly then 365 else 30

abbrev with_payment : ℕ → Option Plan → Option Payment → Columns → Columns
with_payment now plan none c = c
with_payment now plan (some p) c = elim p.status [
  | PaymentStatus.paid ↦ record c {
    billing_status = BillingStatus.active;
    status = WorkspaceStatus.active;
    next_renewal = elim c.next_renewal [
      | none ↦ some (now + renewal_days plan * day_ms)
      | some end ↦ some end
    ];
  }
  | PaymentStatus.pending ↦ record c {
    billing_status =
        if c.billing_status == BillingStatus.active
        then BillingStatus.past_due
        else c.billing_status;
    status =
        if c.status == WorkspaceStatus.active then WorkspaceStatus.pending_payment else c.status;
  }
  | PaymentStatus.failed ↦ c
  | PaymentStatus.refunded ↦ c
]

-- `if (nextRenewal && nextRenewal.getTime() <= Date.now()) …`
abbrev with_expiry : ℕ → Columns → Columns
with_expiry now c = elim c.next_renewal [
  | none ↦ c
  | some end ↦
      if leb end now
      then record c {
        billing_status =
            if c.billing_status == BillingStatus.cancelled
            then BillingStatus.cancelled
            else BillingStatus.past_due;
        status = WorkspaceStatus.pending_payment;
      }
      else c
]

abbrev pub plan_of_subscription : Option Subscription → Store → Option Plan
plan_of_subscription latest s = elim latest [
  | none ↦ none
  | some sub ↦ elim sub.plan_id [ none ↦ none | some id ↦ find_plan id s ]
]

unfoldable pub reconciled :
    ℕ → Option Payment → Option Subscription → Option Plan → Workspace → Columns
reconciled now payment sub plan ws =
    with_expiry now
      (with_payment now plan payment (with_period sub (with_plan plan (columns_of ws))))

abbrev pub set_columns : Columns → Workspace → Workspace
set_columns c w = record w {
  billing_status = c.billing_status;
  status = c.status;
  next_renewal = c.next_renewal;
  plan_name = c.plan_name;
}

-- `reconcileWorkspaceBilling`
unfoldable pub reconcile_workspace_billing : ℕ → ℕ → Action Store Error Columns
unfolding reconciled latest_paid
reconcile_workspace_billing now id = do
  found ← gets (find_workspace id)
  ws ← or_throw workspace_not_found found
  payment ← gets (λ s. latest_paid id s.payments)
  sub ← gets (find_subscription id)
  plan ← gets (plan_of_subscription sub)
  let c = reconciled now payment sub plan ws
  update_workspace id (set_columns c)
  cache_bust id
  pure c

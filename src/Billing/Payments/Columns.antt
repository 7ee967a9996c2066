-- ===== src/Billing/Payments/Columns.antt =====
-- The columns that a settled payment is to leave, written apart from the functions that write them:
-- the payment, its workspace and the subscription, and what is to stay as it was.
use tomafix_backend.Prelude.{
  ℕ, ◌+◌, ◌*◌, ◌≡◌, refl, ap, ◌∙◌, Option, some, Text, is_empty, false, ◌==◌, nat_eq, list_eq,
  others, others-update_where, others-append, others-delete_where, Option-cases, inl, inr,
  if◌then◌else◌,
}
use tomafix_backend.Billing.Store.{Store, Workspace, Plan, Payment, PaystackEvent, Subscription}
use tomafix_backend.Billing.Store.Enums.{
  WorkspaceStatus, BillingStatus, PaymentStatus, SubscriptionStatus, PlanInterval, interval_eq,
}
use tomafix_backend.Billing.Status.{find_workspace, day_ms}
use tomafix_backend.Billing.Payments.{
  find_payment, find_subscription, find_plan, plan_of_payment, period_end, paid_plan_name,
  put_subscription, paid_subscription, renew,
}
use tomafix_backend.Billing.Payments.Finalize.{put_subscription_lem, settled_store, activated_store}

-- The days that are paid for.
abbrev pub days_of : PlanInterval → ℕ
days_of PlanInterval.monthly = 30
days_of PlanInterval.yearly = 365

abbrev pub paid_until : ℕ → Plan → ℕ
paid_until now plan = now + days_of plan.interval * day_ms

abbrev pub IsPaid : Text → Option Text → ℕ → Store → Type 0
IsPaid reference txn_id paid_at s =
    (p : Payment) × (find_payment reference s ≡ some p)
    × (p.status ≡ PaymentStatus.paid)
    × (p.provider_txn_id ≡ txn_id)
    × (p.paid_at ≡ some paid_at)

abbrev pub IsActivated : ℕ → ℕ → Plan → Store → Type 0
IsActivated now id plan s =
    (w : Workspace) × (find_workspace id s ≡ some w)
    × (w.status ≡ WorkspaceStatus.active)
    × (w.billing_status ≡ BillingStatus.active)
    × (w.plan_name ≡ plan.name)
    × (w.next_renewal ≡ some (paid_until now plan))

abbrev pub IsSubscribed : ℕ → ℕ → ℕ → Plan → Store → Type 0
IsSubscribed now id plan_id plan s =
    (sub : Subscription) × (find_subscription id s ≡ some sub)
    × (sub.status ≡ SubscriptionStatus.active)
    × (sub.plan_id ≡ some plan_id)
    × (sub.current_period_end ≡ some (paid_until now plan))

-- Every payment of another reference, and every workspace, subscription and cached answer of
-- another workspace, is the same in the two stores.
abbrev pub OthersKept : Text → ℕ → Store → Store → Type 0
OthersKept reference id s s' =
    (others (λ p. p.reference) reference s'.payments
      ≡ others (λ p. p.reference) reference s.payments)
    × (others (λ w. w.id) id s'.workspaces ≡ others (λ w. w.id) id s.workspaces)
    × (others (λ sub. sub.workspace_id) id s'.subscriptions
        ≡ others (λ sub. sub.workspace_id) id s.subscriptions)
    × (others (λ e. e.key) id s'.cache ≡ others (λ e. e.key) id s.cache)

interval_end :
    (now : ℕ) (i : PlanInterval)
    → (if i == PlanInterval.yearly then now + 365 * day_ms else now + 30 * day_ms)
      ≡ now + days_of i * day_ms
interval_end now PlanInterval.monthly = refl
interval_end now PlanInterval.yearly = refl

pub period_end_lem :
    (now : ℕ) (plan : Plan) (o : Option Plan)
    → o ≡ some plan
    → period_end now o ≡ paid_until now plan
period_end_lem now plan o e = ap (period_end now) e ∙ interval_end now plan.interval

pub paid_plan_name_lem :
    (plan : Plan) (o : Option Plan)
    → o ≡ some plan
    → is_empty plan.name ≡ false
    → paid_plan_name o ≡ plan.name
paid_plan_name_lem plan o e named = ap paid_plan_name e ∙ rw named refl

pub plan_of_payment_lem :
    (payment : Payment) (plan_id : ℕ) (plan : Plan) (s : Store)
    → payment.plan_id ≡ some plan_id
    → find_plan plan_id s ≡ some plan
    → plan_of_payment payment s ≡ some plan
plan_of_payment_lem payment plan_id plan s orders offered = rw orders offered

others-put_subscription :
    (id : ℕ) (plan_id : Option ℕ) (end : ℕ) (s : Store)
    → others (λ sub. sub.workspace_id) id (put_subscription id plan_id end s).1.subscriptions
      ≡ others (λ sub. sub.workspace_id) id s.subscriptions
others-put_subscription id plan_id end s = elim (Option-cases (find_subscription id s)) [
  | inl new ↦ rw new (
      others-append (λ sub. sub.workspace_id) id s.subscriptions (paid_subscription id plan_id end)
        refl)
  | inr (sub, old) ↦ rw old (
      others-update_where (λ sub. sub.workspace_id) id (renew plan_id end) s.subscriptions
        (λ _. refl))
]

pub settled-OthersKept :
    (now : ℕ) (reference : Text) (txn_id : Option Text) (paid_at : ℕ) (raw : PaystackEvent)
    (s : Store) (payment : Payment)
    → OthersKept reference payment.workspace_id s
        (settled_store now reference txn_id paid_at raw s payment)
settled-OthersKept now reference txn_id paid_at raw s payment = (
  others-update_where (λ p. p.reference) reference _ s.payments (λ _. refl),
  others-update_where (λ w. w.id) payment.workspace_id _ s.workspaces (λ _. refl),
  others-put_subscription payment.workspace_id payment.plan_id _
      (activated_store now reference txn_id paid_at raw s payment),
  others-delete_where (λ e. e.key) payment.workspace_id s.cache,
)

pub settled-IsSubscribed :
    (now : ℕ) (reference : Text) (txn_id : Option Text) (paid_at : ℕ) (raw : PaystackEvent)
    (s : Store) (payment : Payment) (plan_id : ℕ) (plan : Plan)
    → payment.plan_id ≡ some plan_id
    → find_plan plan_id s ≡ some plan
    → IsSubscribed now payment.workspace_id plan_id plan
        (settled_store now reference txn_id paid_at raw s payment)
settled-IsSubscribed now reference txn_id paid_at raw s payment plan_id plan orders offered =
    let bought = plan_of_payment_lem payment plan_id plan s orders offered in
    let (sub, here, active, ordered, ends) =
      put_subscription_lem payment.workspace_id payment.plan_id
        (period_end now (plan_of_payment payment s))
        (activated_store now reference txn_id paid_at raw s payment) in
    (
      sub,
      here,
      active,
      ordered ∙ orders,
      ends ∙ ap some (period_end_lem now plan (plan_of_payment payment s) bought),
    )

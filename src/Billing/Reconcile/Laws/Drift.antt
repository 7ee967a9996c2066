-- ===== src/Billing/Reconcile/Laws/Drift.antt =====
-- A cancelled workspace that reconciliation leaves with columns that do not agree.
use tomafix_backend.Prelude.{
  le→leb, ℕ, ◌≤◌, ◌≡◌, ◌≢◌, refl, ap, sym, ◌∙◌, Option, some, Text, nat_eq, ok,
}
use tomafix_backend.Billing.Store.{Store, Workspace, Plan, Payment, Subscription}
use tomafix_backend.Billing.Store.Enums.{
  WorkspaceStatus, workspace_status_eq, BillingStatus, billing_status_eq, PaymentStatus,
}
use tomafix_backend.Billing.Status.{workspace_status_for, find_workspace}
use tomafix_backend.Billing.Payments.{find_subscription}
use tomafix_backend.Billing.Reconcile.{
  Columns, columns_of, latest_paid, plan_of_subscription, reconciled, set_columns,
  reconcile_workspace_billing,
}
use tomafix_backend.Billing.Reconcile.Laws.{
  found_again, from_payment, from_subscription, from_subscription_statuses, recomputed,
  reconcile_workspace_billing_lem, row,
}

-- Columns whose billing is cancelled and whose renewal has passed, after a payment that is not paid.
row-drifts :
    (now end : ℕ) (b : BillingStatus) (w : WorkspaceStatus) (n : Text) (o : Option ℕ)
    (plan : Option Plan) (status : PaymentStatus) (p : Payment)
    → p.status ≡ status
    → status ≢ PaymentStatus.paid
    → b ≡ BillingStatus.cancelled
    → o ≡ some end
    → end ≤ now
    → let c = from_payment now plan (some p) (row now b w n o) in
      (c.billing_status ≡ BillingStatus.cancelled) × (c.status ≡ WorkspaceStatus.pending_payment)
row-drifts now end b w n o plan PaymentStatus.paid p e unpaid cancelled ends over =
    absurd (unpaid refl)
row-drifts now end b w n o plan PaymentStatus.pending p e unpaid cancelled ends over =
    rw (e, ends, cancelled) (rw (le→leb end now over) (refl, refl))
row-drifts now end b w n o plan PaymentStatus.failed p e unpaid cancelled ends over =
    rw (e, ends, cancelled) (rw (le→leb end now over) (refl, refl))
row-drifts now end b w n o plan PaymentStatus.refunded p e unpaid cancelled ends over =
    rw (e, ends, cancelled) (rw (le→leb end now over) (refl, refl))

-- A cancelled workspace whose subscription is over and whose latest payment, in the order of the
-- code (where one that was never paid stands first), is not paid is left with columns that do not
-- agree: it waits for payment, where a cancelled workspace is suspended.
pub reconcile_workspace_billing_drifts :
    (now id end : ℕ) (s : Store) (ws : Workspace) (sub : Subscription) (p : Payment)
    → find_workspace id s ≡ some ws
    → ws.billing_status ≡ BillingStatus.cancelled
    → latest_paid id s.payments ≡ some p
    → p.status ≢ PaymentStatus.paid
    → find_subscription id s ≡ some sub
    → sub.current_period_end ≡ some end
    → end ≤ now
    → let (r, s') = reconcile_workspace_billing now id s in
      (c : Columns) × (r ≡ ok c)
      × (find_workspace id s' ≡ some (set_columns c ws))
      × (c.billing_status ≡ BillingStatus.cancelled)
      × (c.status ≡ WorkspaceStatus.pending_payment)
      × (c.status ≢ workspace_status_for c.billing_status)
unfolding workspace_status_for reconciled
reconcile_workspace_billing_drifts now id end s ws sub p found cancelled latest unpaid subscribed
      period over =
    let c = recomputed now id s ws found in
    let plan = plan_of_subscription (some sub) s in
    let before = from_subscription (some sub) plan (columns_of ws) in
    let read : c ≡ from_payment now plan (some p) before =
      ap
        (λ o.
          reconciled now o (find_subscription id s)
            (plan_of_subscription (find_subscription id s) s) ws)
        latest
      ∙ ap (λ o. reconciled now (some p) o (plan_of_subscription o s) ws) subscribed in
    let (same, _) = from_subscription_statuses (some sub) plan (columns_of ws) in
    let (on_billing, on_status) =
      row-drifts now end before.billing_status before.status before.plan_name before.next_renewal
        plan p.status p refl unpaid (same ∙ cancelled) (rw period refl) over in
    let billing : c.billing_status ≡ BillingStatus.cancelled =
      ap (λ c. c.billing_status) read ∙ on_billing in
    let status : c.status ≡ WorkspaceStatus.pending_payment = ap (λ c. c.status) read ∙ on_status in
    rw (reconcile_workspace_billing_lem now id s ws found) (
      c,
      refl,
      found_again now id s ws found,
      billing,
      status,
      λ e. cc (sym status ∙ e ∙ ap workspace_status_for billing),
    )

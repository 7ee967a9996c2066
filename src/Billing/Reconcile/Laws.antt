-- ===== src/Billing/Reconcile/Laws.antt =====
-- Reconciliation: it is idempotent, and which workspaces it leaves with columns that agree.
pub mod Drift
pub mod Demotes
use tomafix_backend.Prelude.{
  le→leb, subst, update_where, delete_where, ℕ, ◌≤◌, ◌≡◌, ◌≢◌, refl, ap, sym, ◌∙◌, Option, none,
  some, Text, ◌==◌, nat_eq, ok, find-update_same, arith,
}
use tomafix_backend.Billing.Store.{Store, Workspace, Plan, Payment, Subscription}
use tomafix_backend.Billing.Store.Enums.{
  WorkspaceStatus, workspace_status_eq, BillingStatus, billing_status_eq, PaymentStatus,
}
use tomafix_backend.Billing.Status.{workspace_status_for, find_workspace}
use tomafix_backend.Billing.Status.Machine.{IsAligned}
use tomafix_backend.Billing.Payments.{find_subscription}
use tomafix_backend.Billing.Reconcile.{
  Columns, columns_of, latest_paid, plan_of_subscription, reconciled, set_columns, with_payment,
  with_expiry, with_plan, with_period, reconcile_workspace_billing,
}

-- the columns after the subscription and its plan, and after the payment and the time
abbrev from_subscription : Option Subscription → Option Plan → Columns → Columns
from_subscription sub plan c = with_period sub (with_plan plan c)

abbrev from_payment : ℕ → Option Plan → Option Payment → Columns → Columns
from_payment now plan payment c = with_expiry now (with_payment now plan payment c)

module _ (now : ℕ) (b : BillingStatus) (w : WorkspaceStatus) (n : Text) where
  -- columns by their renewal, to split on
  abbrev row : Option ℕ → Columns
  row end = record { billing_status = b; status = w; next_renewal = end; plan_name = n }

  row-expiry_twice :
      (end : Option ℕ) → with_expiry now (with_expiry now (row end)) ≡ with_expiry now (row end)
  row-expiry_twice none = refl
  row-expiry_twice (some end) = ground arith

  row-payment_twice :
      (plan : Option Plan) (status : PaymentStatus) (p : Payment) (end : Option ℕ)
      → p.status ≡ status
      → from_payment now plan (some p) (from_payment now plan (some p) (row end))
        ≡ from_payment now plan (some p) (row end)
  row-payment_twice plan PaymentStatus.paid p none e = rw e (ground arith)
  row-payment_twice plan PaymentStatus.paid p (some end) e = rw e (ground arith)
  row-payment_twice plan PaymentStatus.pending p none e = rw e (ground arith)
  row-payment_twice plan PaymentStatus.pending p (some end) e = rw e (ground arith)
  row-payment_twice plan PaymentStatus.failed p end e = rw e (rw e (row-expiry_twice end))
  row-payment_twice plan PaymentStatus.refunded p end e = rw e (rw e (row-expiry_twice end))

from_payment_twice :
    (now : ℕ) (plan : Option Plan) (payment : Option Payment) (c : Columns)
    → from_payment now plan payment (from_payment now plan payment c)
      ≡ from_payment now plan payment c
from_payment_twice now plan none c =
    row-expiry_twice now c.billing_status c.status c.plan_name c.next_renewal
from_payment_twice now plan (some p) c =
    row-payment_twice now c.billing_status c.status c.plan_name plan p.status p c.next_renewal refl

-- The payment and the time leave what the subscription says.
from_subscription_again :
    (now : ℕ) (sub : Option Subscription) (plan : Option Plan) (payment : Option Payment)
    (c : Columns)
    → let after = from_payment now plan payment (from_subscription sub plan c) in
      from_subscription sub plan after ≡ after
from_subscription_again now sub plan payment c = ground arith

reconciled_twice :
    (now : ℕ) (payment : Option Payment) (sub : Option Subscription) (plan : Option Plan)
    (ws : Workspace)
    → let c = reconciled now payment sub plan ws in
      reconciled now payment sub plan (set_columns c ws) ≡ c
unfolding reconciled
reconciled_twice now payment sub plan ws =
    ap (from_payment now plan payment)
      (from_subscription_again now sub plan payment (columns_of ws))
    ∙ from_payment_twice now plan payment (from_subscription sub plan (columns_of ws))

-- The columns of a row that agrees agree again, but for those of a cancelled workspace.
module _ (now : ℕ) (b : BillingStatus) (n : Text) (current : b ≢ BillingStatus.cancelled) where
  expiry-IsAligned :
      (end : Option ℕ)
      → let c = with_expiry now (row now b (workspace_status_for b) n end) in
        c.status ≡ workspace_status_for c.billing_status
  unfolding workspace_status_for
  expiry-IsAligned none = refl
  expiry-IsAligned (some end) = ground arith

  payment-IsAligned :
      (plan : Option Plan) (status : PaymentStatus) (p : Payment) (end : Option ℕ)
      → p.status ≡ status
      → let c = from_payment now plan (some p) (row now b (workspace_status_for b) n end) in
        c.status ≡ workspace_status_for c.billing_status
  unfolding workspace_status_for
  payment-IsAligned plan PaymentStatus.paid p none e = rw e (ground arith)
  payment-IsAligned plan PaymentStatus.paid p (some end) e = rw e (ground arith)
  payment-IsAligned plan PaymentStatus.pending p none e = rw e (ground arith)
  payment-IsAligned plan PaymentStatus.pending p (some end) e = rw e (ground arith)
  payment-IsAligned plan PaymentStatus.failed p end e = rw e (expiry-IsAligned end)
  payment-IsAligned plan PaymentStatus.refunded p end e = rw e (expiry-IsAligned end)

  columns-IsAligned :
      (plan : Option Plan) (payment : Option Payment) (end : Option ℕ) (w : WorkspaceStatus)
      → w ≡ workspace_status_for b
      → let c = from_payment now plan payment (row now b w n end) in
        c.status ≡ workspace_status_for c.billing_status
  columns-IsAligned plan none end w aligned =
      subst
        (λ w.
          let c = from_payment now plan none (row now b w n end) in
          c.status ≡ workspace_status_for c.billing_status)
        (sym aligned) (expiry-IsAligned end)
  columns-IsAligned plan (some p) end w aligned =
      subst
        (λ w.
          let c = from_payment now plan (some p) (row now b w n end) in
          c.status ≡ workspace_status_for c.billing_status)
        (sym aligned) (payment-IsAligned plan p.status p end refl)

from_subscription_statuses :
    (sub : Option Subscription) (plan : Option Plan) (c : Columns)
    → let c' = from_subscription sub plan c in
      (c'.billing_status ≡ c.billing_status) × (c'.status ≡ c.status)
from_subscription_statuses sub plan c = ground arith

reconciled-IsAligned :
    (now : ℕ) (payment : Option Payment) (sub : Option Subscription) (plan : Option Plan)
    (ws : Workspace)
    → IsAligned ws
    → ws.billing_status ≢ BillingStatus.cancelled
    → let c = reconciled now payment sub plan ws in c.status ≡ workspace_status_for c.billing_status
unfolding reconciled
reconciled-IsAligned now payment sub plan ws aligned current =
    let c = from_subscription sub plan (columns_of ws) in
    let (billing, status) = from_subscription_statuses sub plan (columns_of ws) in
    columns-IsAligned now c.billing_status c.plan_name (λ e. current (sym billing ∙ e)) plan payment
      c.next_renewal c.status (status ∙ aligned ∙ ap workspace_status_for (sym billing))

module _ (now id : ℕ) (s : Store) (ws : Workspace) (found : find_workspace id s ≡ some ws) where
  abbrev recomputed : Columns
  recomputed =
      let sub = find_subscription id s in
      reconciled now (latest_paid id s.payments) sub (plan_of_subscription sub s) ws

  abbrev reconciled_store : Store
  reconciled_store = record s {
    workspaces = update_where (λ w. w.id == id) (set_columns recomputed) s.workspaces;
    cache = delete_where (λ e. e.key == id) s.cache;
  }

  reconcile_workspace_billing_lem :
      reconcile_workspace_billing now id s ≡ (ok recomputed, reconciled_store)
  unfolding reconcile_workspace_billing
  reconcile_workspace_billing_lem = rw found refl

  found_again : find_workspace id reconciled_store ≡ some (set_columns recomputed ws)
  found_again =
      find-update_same (λ w. w.id) id (set_columns recomputed) s.workspaces ws (λ _. refl) found

pub reconcile_workspace_billing_twice :
    (now id : ℕ) (s : Store) (ws : Workspace)
    → find_workspace id s ≡ some ws
    → let (r, s') = reconcile_workspace_billing now id s in
      let (r', s'') = reconcile_workspace_billing now id s' in
      (r' ≡ r) × (find_workspace id s'' ≡ find_workspace id s')
reconcile_workspace_billing_twice now id s ws found =
    let c = recomputed now id s ws found in
    let again = found_again now id s ws found in
    let sub = find_subscription id s in
    let same =
      reconciled_twice now (latest_paid id s.payments) sub (plan_of_subscription sub s) ws in
    rw (reconcile_workspace_billing_lem now id s ws found) (
      rw
        (reconcile_workspace_billing_lem now id (reconciled_store now id s ws found)
          (set_columns c ws) again)
        (
          ap ok same,
          found_again now id (reconciled_store now id s ws found) (set_columns c ws) again
              ∙ ap (λ c. some (set_columns c ws)) same
              ∙ sym again,
        ))

-- A workspace whose columns agree, and that is not cancelled, is left with columns that agree.
pub reconcile_workspace_billing-IsAligned :
    (now id : ℕ) (s : Store) (ws : Workspace)
    → find_workspace id s ≡ some ws
    → IsAligned ws
    → ws.billing_status ≢ BillingStatus.cancelled
    → let (r, s') = reconcile_workspace_billing now id s in
      (c : Columns) × (r ≡ ok c)
      × (find_workspace id s' ≡ some (set_columns c ws))
      × IsAligned (set_columns c ws)
reconcile_workspace_billing-IsAligned now id s ws found aligned current =
    let sub = find_subscription id s in
    rw (reconcile_workspace_billing_lem now id s ws found) (
      recomputed now id s ws found,
      refl,
      found_again now id s ws found,
      reconciled-IsAligned now (latest_paid id s.payments) sub (plan_of_subscription sub s) ws
          aligned current,
    )

-- ===== src/Billing/Tests/Status.antt =====
-- The status machine, the sweep and reconciliation at the test store.
use tomafix_backend.Prelude.{
  Memᴰ, List, ap, sym, ◌∙◌, codes, ◌+◌, ◌*◌, ◌≤◌, ◌≡◌, ◌≢◌, refl, find, update_where, ◌++◌, [], ◌∷◌,
  none, some, ok, err, ◌==◌, nat_eq, arith,
}
use tomafix_backend.Billing.Store.{Store, Payment, invalid_transition, status_changed, Subscription}
use tomafix_backend.Billing.Store.Enums.{
  WorkspaceStatus, BillingStatus, PaymentStatus, SubscriptionStatus,
}
use tomafix_backend.Billing.Status.{
  is_allowed, workspace_status_for, find_workspace, set_billing_status, retry_latest_payment,
  day_ms, SweepResult, run_dunning_sweep, latest_payment, pending_payments,
}
use tomafix_backend.Billing.Status.Machine.{
  AllAligned, IsAligned, set_status, set_billing_status_moves, set_billing_status-AllAligned,
  retry_latest_payment_past_due,
}
use tomafix_backend.Billing.Status.Sweep.{run_dunning_sweep_lem, run_dunning_sweep-AllAligned}
use tomafix_backend.Billing.Status.Skipped.{run_dunning_sweep_skips}
use tomafix_backend.Billing.Reconcile.{
  Columns, set_columns, reconcile_workspace_billing, latest_paid,
}
use tomafix_backend.Billing.Reconcile.Laws.{
  reconcile_workspace_billing_twice, reconcile_workspace_billing-IsAligned,
}
use tomafix_backend.Billing.Reconcile.Laws.Demotes.{reconcile_workspace_billing_demotes}
use tomafix_backend.Billing.Reconcile.Laws.Drift.{reconcile_workspace_billing_drifts}
use tomafix_backend.Billing.Tests.{
  active_office, cancelled_office, past_due_office, checkout_payment, store_of, growth,
  active_store, past_due_store,
}

abbrev old_subscription : Subscription
old_subscription = record {
  workspace_id = 1;
  status = SubscriptionStatus.canceled;
  plan_id = none;
  current_period_end = some 7;
}

-- It paid once, was cancelled, and has a checkout that it left.
abbrev old_payment : Payment
old_payment = record checkout_payment {
  id = 8;
  reference = codes "ref-0";
  status = PaymentStatus.paid;
  paid_at = some 1;
}

abbrev cancelled_store : Store
cancelled_store =
    store_of (cancelled_office ∷ []) growth (old_payment ∷ checkout_payment ∷ [])
      (old_subscription ∷ [])

set_billing_status_moves_example :
    let (r, s') = set_billing_status 1 BillingStatus.past_due active_store in
    (r ≡ ok (BillingStatus.past_due, workspace_status_for BillingStatus.past_due))
    × (find_workspace 1 s' ≡ some (set_status BillingStatus.past_due active_office))
    × (s'.workspaces
        ≡ update_where (λ w. w.id == 1) (set_status BillingStatus.past_due) active_store.workspaces)
    × (s'.payments ≡ active_store.payments)
    × (find (λ e. e.key == 1) s'.cache ≡ none)
    × (s'.audit_logs
        ≡ active_store.audit_logs
          ++ record {
            workspace_id = 1;
            action = status_changed BillingStatus.active BillingStatus.past_due;
          }
            ∷ [])
unfolding is_allowed
set_billing_status_moves_example =
    set_billing_status_moves 1 BillingStatus.past_due active_store active_office refl refl

set_billing_status-AllAligned_example :
    AllAligned (set_billing_status 1 BillingStatus.cancelled active_store).1
unfolding workspace_status_for
set_billing_status-AllAligned_example =
    set_billing_status-AllAligned 1 BillingStatus.cancelled active_store (refl, tt)

retry_latest_payment_past_due_example :
    let (r, s') = retry_latest_payment 1 past_due_store in
    (r ≡ err invalid_transition)
    × (s'.workspaces ≡ past_due_store.workspaces)
    × (s'.payments
        ≡ update_where
            (λ q. q.id == 9)
            (λ q. record q { status = PaymentStatus.pending })
            past_due_store.payments)
unfolding latest_payment
retry_latest_payment_past_due_example =
    retry_latest_payment_past_due 1 past_due_store past_due_office checkout_payment refl refl
      (λ e. cc e) (λ e. cc e)

run_dunning_sweep_lem_example :
    (result : SweepResult) × ((run_dunning_sweep 9 active_store).0 ≡ ok result)
    × (result.scanned ≤ 500)
    × (result.moved_to_past_due + result.moved_to_suspended ≤ result.scanned)
run_dunning_sweep_lem_example = run_dunning_sweep_lem 9 active_store

run_dunning_sweep-AllAligned_example : AllAligned (run_dunning_sweep (4 * day_ms) active_store).1
unfolding workspace_status_for
run_dunning_sweep-AllAligned_example =
    run_dunning_sweep-AllAligned (4 * day_ms) active_store (refl, tt)

run_dunning_sweep_skips_example :
    find_workspace 1 (run_dunning_sweep (8 * day_ms) active_store).1 ≡ some active_office
unfolding pending_payments
run_dunning_sweep_skips_example =
    run_dunning_sweep_skips (8 * day_ms) 1 active_store active_office refl refl
      (λ _. omega arith, tt)

reconcile_workspace_billing_twice_example :
    let (r, s') = reconcile_workspace_billing 9 1 active_store in
    let (r', s'') = reconcile_workspace_billing 9 1 s' in
    (r' ≡ r) × (find_workspace 1 s'' ≡ find_workspace 1 s')
reconcile_workspace_billing_twice_example =
    reconcile_workspace_billing_twice 9 1 active_store active_office refl

reconcile_workspace_billing-IsAligned_example :
    let (r, s') = reconcile_workspace_billing 9 1 active_store in
    (c : Columns) × (r ≡ ok c)
    × (find_workspace 1 s' ≡ some (set_columns c active_office))
    × IsAligned (set_columns c active_office)
unfolding workspace_status_for
reconcile_workspace_billing-IsAligned_example =
    reconcile_workspace_billing-IsAligned 9 1 active_store active_office refl refl (λ e. cc e)

reconcile_workspace_billing_drifts_example :
    let (r, s') = reconcile_workspace_billing 9 1 cancelled_store in
    (c : Columns) × (r ≡ ok c)
    × (find_workspace 1 s' ≡ some (set_columns c cancelled_office))
    × (c.billing_status ≡ BillingStatus.cancelled)
    × (c.status ≡ WorkspaceStatus.pending_payment)
    × (c.status ≢ workspace_status_for c.billing_status)
unfolding latest_paid
reconcile_workspace_billing_drifts_example =
    reconcile_workspace_billing_drifts 9 1 7 cancelled_store cancelled_office old_subscription
      checkout_payment refl refl refl (λ e. cc e) refl refl (omega arith)

abbrev two_payments : List Payment
two_payments = old_payment ∷ checkout_payment ∷ []

-- An active workspace that has paid, and has a checkout that it left.
abbrev paying_store : Store
paying_store = store_of (active_office ∷ []) growth two_payments []

open_payments :
    (q : Payment)
    → Memᴰ q two_payments
    → q.workspace_id ≡ 1
    → q.paid_at ≡ none
    → q.status ≡ PaymentStatus.pending
open_payments q (Memᴰ.head e) own never = absurd (cc (ap (λ q. q.paid_at) (sym e) ∙ never))
open_payments q (Memᴰ.tail (Memᴰ.head e)) own never = ap (λ q. q.status) e
open_payments q (Memᴰ.tail (Memᴰ.tail m)) own never = elim m [ ]

reconcile_workspace_billing_demotes_example :
    let (r, s') = reconcile_workspace_billing 9 1 paying_store in
    (c : Columns) × (r ≡ ok c)
    × (find_workspace 1 s' ≡ some (set_columns c active_office))
    × (c.billing_status ≡ BillingStatus.past_due)
    × (c.status ≡ WorkspaceStatus.pending_payment)
reconcile_workspace_billing_demotes_example =
    reconcile_workspace_billing_demotes 9 1 paying_store active_office checkout_payment refl refl
      refl (Memᴰ.tail (Memᴰ.head refl)) refl refl open_payments

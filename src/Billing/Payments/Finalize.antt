-- ===== src/Billing/Payments/Finalize.antt =====
-- What finalizeSuccessfulPayment does: it takes effect whole, once, or not at all.
use tomafix_backend.Prelude.{
  ℕ, ◌≡◌, ◌≢◌, refl, ap, ◌∙◌, >>=_ok, >>=_err, Option, none, some, Text, ◌==◌, ==_ne, ==_refl,
  nat_eq, list_eq, ok, err, Option-cases, inl, inr, update_where, delete_where, find-update_same,
  find-append_new, or_throw, committed, transaction,
}
use tomafix_backend.Billing.Store.{
  Store, Workspace, Plan, Payment, PaystackEvent, Subscription, workspace_not_found,
}
use tomafix_backend.Billing.Store.Enums.{
  BillingStatus, billing_status_eq, PaymentStatus, payment_status_eq, SubscriptionStatus,
}
use tomafix_backend.Billing.Status.{assert_billing_transition, is_allowed, find_workspace}
use tomafix_backend.Billing.Payments.{
  find_payment, assert_may_activate, settle_workspace, paid_subscription, renew, settle_rest,
  plan_of_payment, pay, activate, period_end, find_subscription, put_subscription, settle,
  settle_rest, finalize_successful_payment,
}

-- The machine lets every workspace become active.
may_activate : (b : BillingStatus) (s : Store) → assert_may_activate b s ≡ (ok tt, s)
unfolding assert_billing_transition is_allowed
may_activate BillingStatus.active s = refl
may_activate BillingStatus.past_due s = refl
may_activate BillingStatus.suspended s = refl
may_activate BillingStatus.cancelled s = refl
may_activate BillingStatus.pending_payment s = refl

-- After `put_subscription` the workspace has a subscription that is active to the given end.
pub put_subscription_lem :
    (id : ℕ) (plan_id : Option ℕ) (end : ℕ) (s : Store)
    → let s' = (put_subscription id plan_id end s).1 in
      (sub : Subscription) × (find_subscription id s' ≡ some sub)
      × (sub.status ≡ SubscriptionStatus.active)
      × (sub.plan_id ≡ plan_id)
      × (sub.current_period_end ≡ some end)
put_subscription_lem id plan_id end s = elim (Option-cases (find_subscription id s)) [
  | inl new ↦ (
    paid_subscription id plan_id end,
    rw new
        (find-append_new (λ sub. sub.workspace_id == id) s.subscriptions _ new ∙ rw (==_refl id)),
    refl,
    refl,
    refl,
  )
  | inr (sub, old) ↦ (
    renew plan_id end sub,
    rw old (
        find-update_same (λ sub. sub.workspace_id) id (renew plan_id end) s.subscriptions sub
          (λ _. refl) old),
    refl,
    refl,
    refl,
  )
]

module _ (now : ℕ) (reference : Text) (txn_id : Option Text) (paid_at : ℕ) (raw : PaystackEvent)
    (s : Store) (payment : Payment) where
  -- the plan that is paid for, and the store once the payment and the workspace are written
  abbrev pub bought : Option Plan
  bought = plan_of_payment payment s

  abbrev pub paid_store : Store
  paid_store = record s {
    payments = update_where (λ p. p.reference == reference) (pay txn_id paid_at raw) s.payments;
  }

  abbrev pub activated_store : Store
  activated_store = record paid_store {
    workspaces =
        update_where (λ w. w.id == payment.workspace_id) (activate now bought) s.workspaces;
    cache = delete_where (λ e. e.key == payment.workspace_id) s.cache;
  }

  abbrev pub settled_store : Store
  settled_store =
      (put_subscription payment.workspace_id payment.plan_id (period_end now bought)
        activated_store).1

  settle_found :
      (ws : Workspace)
      → find_workspace payment.workspace_id s ≡ some ws
      → settle now reference txn_id paid_at raw payment s ≡ (ok tt, settled_store)
  settle_found ws found =
      >>=_ok (or_throw workspace_not_found (find_workspace payment.workspace_id s))
        (settle_workspace now payment bought) paid_store
        (ap (λ o. or_throw workspace_not_found o paid_store) found)
      ∙ >>=_ok (assert_may_activate ws.billing_status) (λ _. settle_rest now payment bought)
          paid_store (may_activate ws.billing_status paid_store)

  settle_missing :
      find_workspace payment.workspace_id s ≡ none
      → settle now reference txn_id paid_at raw payment s ≡ (err workspace_not_found, paid_store)
  settle_missing missing =
      >>=_err (or_throw workspace_not_found (find_workspace payment.workspace_id s))
        (settle_workspace now payment bought) paid_store
        (ap (λ o. or_throw workspace_not_found o paid_store) missing)

  module _ (known : find_payment reference s ≡ some payment)
      (unpaid : payment.status ≢ PaymentStatus.paid) where
    finalize-eq-transaction :
        finalize_successful_payment now reference txn_id paid_at raw s
        ≡ transaction (settle now reference txn_id paid_at raw payment) s
    unfolding finalize_successful_payment
    finalize-eq-transaction = rw known (rw (==_ne payment.status PaymentStatus.paid unpaid))

    pub finalize_found_lem :
        (ws : Workspace)
        → find_workspace payment.workspace_id s ≡ some ws
        → finalize_successful_payment now reference txn_id paid_at raw s ≡ (ok tt, settled_store)
    finalize_found_lem ws found = finalize-eq-transaction ∙ ap (committed s) (settle_found ws found)

    -- Where the workspace is gone the transaction is rolled back, and the handler throws.
    pub finalize_rolls_back :
        find_workspace payment.workspace_id s ≡ none
        → finalize_successful_payment now reference txn_id paid_at raw s
          ≡ (err workspace_not_found, s)
    finalize_rolls_back missing =
        finalize-eq-transaction ∙ ap (committed s) (settle_missing missing)

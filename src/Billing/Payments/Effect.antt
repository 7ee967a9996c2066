-- ===== src/Billing/Payments/Effect.antt =====
-- What a payment that is settled changes, for the workspace and for everything else; that it is
-- settled once; and what follows for the mock confirmation and for the largest plan.
use tomafix_backend.Prelude.{
  codes, ℕ, ◌≡◌, ◌≢◌, refl, ap, sym, ◌∙◌, subst, ◌>>=◌, ◌>>◌, gets, pure, >>=_ok, throw_if-false,
  or_throw, or_throw-some, Bool, if◌then◌else◌, Option, none, some, Text, ◌==◌, ==_ne, nat_eq,
  list_eq, ok, err, find, trim, is_empty, false, find-update_same, find-delete_same,
}
use tomafix_backend.Billing.Plans.Names.{toma_prime_row}
use tomafix_backend.Billing.Store.{
  Store, Workspace, Plan, reference_required, payment_not_found, Payment, PaystackEvent, type_error,
}
use tomafix_backend.Billing.Store.Enums.{WorkspaceStatus, PaymentStatus, payment_status_eq}
use tomafix_backend.Billing.Status.{find_workspace}
use tomafix_backend.Billing.Entitlements.{get_workspace_entitlements}
use tomafix_backend.Billing.Entitlements.Laws.{get_workspace_entitlements_toma_prime}
use tomafix_backend.Billing.Payments.{
  find_payment, find_plan, plan_of_payment, pay, activate, mock_event, status_of, already_processed,
  confirm_payment, confirm_reference, confirm_mock_payment, processed, finalize_successful_payment,
}
use tomafix_backend.Billing.Payments.Finalize.{settled_store, finalize_found_lem}
use tomafix_backend.Billing.Payments.Columns.{
  IsPaid, IsActivated, IsSubscribed, OthersKept, plan_of_payment_lem, paid_plan_name_lem,
  period_end_lem, settled-OthersKept, settled-IsSubscribed,
}

pub finalize_paid :
    (now : ℕ) (reference : Text) (txn_id : Option Text) (paid_at : ℕ) (raw : PaystackEvent)
    (s : Store) (p : Payment)
    → find_payment reference s ≡ some p
    → p.status ≡ PaymentStatus.paid
    → finalize_successful_payment now reference txn_id paid_at raw s ≡ (ok tt, s)
unfolding finalize_successful_payment
finalize_paid now reference txn_id paid_at raw s p known paid =
    rw known (rw ((payment_status_eq.same_iff p.status PaymentStatus.paid).1 paid))

module _ (now : ℕ) (reference : Text) (txn_id : Option Text) (paid_at : ℕ) (raw : PaystackEvent)
    (s : Store) (payment : Payment) (ws : Workspace)
    (known : find_payment reference s ≡ some payment) (unpaid : payment.status ≢ PaymentStatus.paid)
    (found : find_workspace payment.workspace_id s ≡ some ws) where
  abbrev settled : Store
  settled = settled_store now reference txn_id paid_at raw s payment

  pub settled_workspace :
      find_workspace payment.workspace_id settled
      ≡ some (activate now (plan_of_payment payment s) ws)
  settled_workspace =
      find-update_same (λ w. w.id) payment.workspace_id (activate now (plan_of_payment payment s))
        s.workspaces ws (λ _. refl) found

  pub settled_payment : find_payment reference settled ≡ some (pay txn_id paid_at raw payment)
  settled_payment =
      find-update_same (λ p. p.reference) reference (pay txn_id paid_at raw) s.payments payment
        (λ _. refl) known

  pub settled-IsPaid : IsPaid reference txn_id paid_at settled
  settled-IsPaid = (pay txn_id paid_at raw payment, settled_payment, refl, refl, refl)

  module _ (plan_id : ℕ) (plan : Plan) (orders : payment.plan_id ≡ some plan_id)
      (offered : find_plan plan_id s ≡ some plan) (named : is_empty plan.name ≡ false) where
    pub settled-IsActivated : IsActivated now payment.workspace_id plan settled
    settled-IsActivated =
        let bought = plan_of_payment_lem payment plan_id plan s orders offered in
        (
          activate now (plan_of_payment payment s) ws,
          settled_workspace,
          refl,
          refl,
          paid_plan_name_lem plan (plan_of_payment payment s) bought named,
          ap some (period_end_lem now plan (plan_of_payment payment s) bought),
        )

    -- A payment that is known and not yet paid, of a workspace and a plan that exist, the plan with
    -- a name, takes effect whole: the payment is paid, with the transaction and the time that were
    -- given; the workspace is active in both status columns, on the plan that was paid for and
    -- renewed at the end of its period, 30 or 365 days from now; its subscription is active, of that
    -- plan and to that day; its cached entitlements are gone; and every payment of another reference
    -- and every workspace, subscription and cached answer of another workspace stays as it was.
    pub finalize_successful_payment_takes_effect :
        let (r, s') = finalize_successful_payment now reference txn_id paid_at raw s in
        (r ≡ ok tt)
        × IsPaid reference txn_id paid_at s'
        × IsActivated now payment.workspace_id plan s'
        × IsSubscribed now payment.workspace_id plan_id plan s'
        × (find (λ e. e.key == payment.workspace_id) s'.cache ≡ none)
        × OthersKept reference payment.workspace_id s s'
    finalize_successful_payment_takes_effect =
        rw (finalize_found_lem now reference txn_id paid_at raw s payment known unpaid ws found) (
          refl,
          settled-IsPaid,
          settled-IsActivated,
          settled-IsSubscribed now reference txn_id paid_at raw s payment plan_id plan orders
              offered,
          find-delete_same (λ e. e.key) payment.workspace_id s.cache,
          settled-OthersKept now reference txn_id paid_at raw s payment,
        )

  -- Finalizing the same reference again, whatever the second event says, changes nothing.
  finalize_successful_payment_once :
      (later : ℕ) (txn_id' : Option Text) (paid_at' : ℕ) (raw' : PaystackEvent)
      → let s' = (finalize_successful_payment now reference txn_id paid_at raw s).1 in
        finalize_successful_payment later reference txn_id' paid_at' raw' s' ≡ (ok tt, s')
  finalize_successful_payment_once later txn_id' paid_at' raw' =
      subst
        (λ s'. finalize_successful_payment later reference txn_id' paid_at' raw' s' ≡ (ok tt, s'))
        (sym (
          ap (λ out. out.1)
            (finalize_found_lem now reference txn_id paid_at raw s payment known unpaid ws found)))
        (finalize_paid later reference txn_id' paid_at' raw' _ (pay txn_id paid_at raw payment)
          (settled_payment) refl)

module _ (now : ℕ) (reference : Text) (s : Store) (payment : Payment) (ws : Workspace)
    (known : find_payment reference s ≡ some payment) (unpaid : payment.status ≢ PaymentStatus.paid)
    (found : find_workspace payment.workspace_id s ≡ some ws) where
  confirm-eq-processed :
      (input : Text)
      → trim input ≡ reference
      → is_empty reference ≡ false
      → let s' = settled_store now reference none now (mock_event reference) s payment in
        confirm_mock_payment now input s
        ≡ (ok (processed (status_of (find_workspace payment.workspace_id s'))), s')
  unfolding confirm_mock_payment
  confirm-eq-processed input trimmed given =
      let answer =
        gets (find_workspace payment.workspace_id) >>= λ o. pure (processed (status_of o)) in
      ap (λ t. confirm_reference now t s) trimmed
      ∙ throw_if-false (is_empty reference) reference_required
          (gets (find_payment reference) >>= λ o.
            or_throw payment_not_found o >>= confirm_payment now reference)
          s given
      ∙ or_throw-some payment_not_found (confirm_payment now reference) s _ known
      ∙ ap
          (λ (b : Bool).
            (if b
                then pure already_processed
                else (finalize_successful_payment now reference none now (mock_event reference)
                    >> answer))
              s)
          (==_ne payment.status PaymentStatus.paid unpaid)
      ∙ >>=_ok (finalize_successful_payment now reference none now (mock_event reference))
          (λ _. answer) s
          (finalize_found_lem now reference none now (mock_event reference) s payment known unpaid
            ws found)

  -- The mock confirmation needs nothing but the reference, which is not empty, of a payment that is
  -- known and not yet paid, of a workspace and a plan that exist, the plan with a name, whichever
  -- checkout made the payment: it answers that the workspace is active; the workspace is
  -- active in both status columns, on the plan of the payment and renewed at the end of its period;
  -- and the payment is paid at that instant with no transaction of the provider.
  pub confirm_mock_payment_activates :
      (input : Text) (plan_id : ℕ) (plan : Plan)
      → payment.plan_id ≡ some plan_id
      → find_plan plan_id s ≡ some plan
      → is_empty plan.name ≡ false
      → trim input ≡ reference
      → is_empty reference ≡ false
      → let (r, s') = confirm_mock_payment now input s in
        (r ≡ ok (processed (some WorkspaceStatus.active)))
        × IsActivated now payment.workspace_id plan s'
        × IsPaid reference none now s'
  confirm_mock_payment_activates input plan_id plan orders offered named trimmed given =
      let event = mock_event reference in
      let active = settled_workspace now reference none now event s payment ws known unpaid found in
      rw (confirm-eq-processed input trimmed given) (
        ap (λ o. ok (processed (status_of o))) active,
        settled-IsActivated now reference none now event s payment ws known unpaid found plan_id
            plan orders offered named,
        settled-IsPaid now reference none now event s payment ws known unpaid found,
      )

-- A payment that is known and not yet paid, of a workspace that exists, for the row `Toma Prime` of
-- the plans leaves its workspace active in both status columns, on that
-- plan and renewed at the end of its period, but with no entitlements: whenever they are asked for
-- next, the service throws a `TypeError`.
pub finalize-toma_prime :
    (now later : ℕ) (reference : Text) (txn_id : Option Text) (paid_at : ℕ) (raw : PaystackEvent)
    (s : Store) (payment : Payment) (ws : Workspace) (plan_id : ℕ) (plan : Plan)
    → find_payment reference s ≡ some payment
    → payment.status ≢ PaymentStatus.paid
    → find_workspace payment.workspace_id s ≡ some ws
    → payment.plan_id ≡ some plan_id
    → find_plan plan_id s ≡ some plan
    → plan.name ≡ toma_prime_row
    → let s' = (finalize_successful_payment now reference txn_id paid_at raw s).1 in
      IsActivated now payment.workspace_id plan s'
      × (get_workspace_entitlements later payment.workspace_id s' ≡ (err type_error, s'))
finalize-toma_prime now later reference txn_id paid_at raw s payment ws plan_id plan known unpaid
      found orders offered is_prime =
    let named : is_empty plan.name ≡ false = ap is_empty is_prime in
    let (_, _, (w, here, on, billed, on_plan, renews), _, cold, _) =
      finalize_successful_payment_takes_effect now reference txn_id paid_at raw s payment ws known
        unpaid found plan_id plan orders offered named in
    let prime : w.plan_name ≡ toma_prime_row = on_plan ∙ is_prime in
    (
      (w, here, on, billed, on_plan, renews),
      get_workspace_entitlements_toma_prime later payment.workspace_id _ w cold here
          (ap (λ n. if is_empty n then codes "Starter" else n) prime),
    )

-- ===== src/Billing/Tests/Settlement.antt =====
-- Settlement, the webhook, the callback and the mock confirmation at the test store.
use tomafix_backend.Prelude.{
  or_else, ◌+◌, ◌≡◌, ◌≢◌, refl, find, List, [], ◌∷◌, Option, none, some, ok, err, ◌==◌, nat_eq,
  list_eq, Text, codes, true, false, trim, upper,
}
use tomafix_backend.Billing.Store.{Store, Payment, type_error}
use tomafix_backend.Billing.Store.Enums.{WorkspaceStatus, PaymentStatus}
use tomafix_backend.Billing.Status.{is_allowed}
use tomafix_backend.Billing.Entitlements.{get_workspace_entitlements}
use tomafix_backend.Billing.Payments.{
  find_payment, processed, finalize_successful_payment, confirm_mock_payment,
}
use tomafix_backend.Billing.Payments.Columns.{IsPaid, IsActivated, IsSubscribed, OthersKept}
use tomafix_backend.Billing.Webhooks.Confirmed.{TookEffect}
use tomafix_backend.Billing.Payments.Effect.{
  finalize_successful_payment_takes_effect, confirm_mock_payment_activates, finalize-toma_prime,
}
use tomafix_backend.Billing.Webhooks.{
  event_id_of, find_event, handle_paystack_webhook, Transaction, matches_payment, verify_loop,
  verify_and_activate_payment,
}
use tomafix_backend.Billing.Webhooks.Laws.{IsConfirmed, verify_and_activate_payment-IsConfirmed}
use tomafix_backend.Billing.Webhooks.Delivery.{
  IsRecorded, attempts_of, handle_paystack_webhook_twice,
}
use tomafix_backend.Billing.Plans.Names.{toma_prime_row}
use tomafix_backend.Billing.Tests.{
  checkout_payment, store_of, plan_row, past_due_office, past_due_store, charge, reference, growth,
}

abbrev hmac : Text → Text → Text
hmac key body = key

abbrev secret : Text
secret = codes "sk"

finalize_successful_payment_takes_effect_example :
    let (r, s') = finalize_successful_payment 9 reference none 5 charge past_due_store in
    (r ≡ ok tt)
    × IsPaid reference none 5 s'
    × IsActivated 9 1 growth s'
    × IsSubscribed 9 1 5 growth s'
    × (find (λ e. e.key == 1) s'.cache ≡ none)
    × OthersKept reference 1 past_due_store s'
finalize_successful_payment_takes_effect_example =
    finalize_successful_payment_takes_effect 9 reference none 5 charge past_due_store
      checkout_payment past_due_office refl (λ e. cc e) refl 5 growth refl refl refl

confirm_mock_payment_activates_example :
    let (r, s') = confirm_mock_payment 9 (codes " ref-1") past_due_store in
    (r ≡ ok (processed (some WorkspaceStatus.active)))
    × IsActivated 9 1 growth s'
    × IsPaid reference none 9 s'
unfolding trim
confirm_mock_payment_activates_example =
    confirm_mock_payment_activates 9 reference past_due_store checkout_payment past_due_office refl
      (λ e. cc e) refl (codes " ref-1") 5 growth refl refl refl refl refl

abbrev prime_store : Store
prime_store = store_of (past_due_office ∷ []) (plan_row toma_prime_row) (checkout_payment ∷ []) []

finalize-toma_prime_example :
    let s' = (finalize_successful_payment 9 reference none 5 charge prime_store).1 in
    IsActivated 9 1 (plan_row toma_prime_row) s'
    × (get_workspace_entitlements 10 1 s' ≡ (err type_error, s'))
finalize-toma_prime_example =
    finalize-toma_prime 9 10 reference none 5 charge prime_store checkout_payment past_due_office 5
      (plan_row toma_prime_row) refl (λ e. cc e) refl refl refl refl

handle_paystack_webhook_twice_example :
    let (r, s') = handle_paystack_webhook hmac secret 9 [] (some secret) charge past_due_store in
    let (r', s'') = handle_paystack_webhook hmac secret 10 [] (some secret) charge s' in
    let attempts = attempts_of (find_event (event_id_of charge) past_due_store) in
    (r ≡ ok tt)
    × IsPaid reference charge.txn_id (or_else charge.paid_at 9) s'
    × IsRecorded (event_id_of charge) true false (attempts + 1) s'
    × (r' ≡ ok tt)
    × (s''.payments ≡ s'.payments)
    × (s''.workspaces ≡ s'.workspaces)
    × (s''.subscriptions ≡ s'.subscriptions)
    × IsRecorded (event_id_of charge) true false (attempts + 2) s''
handle_paystack_webhook_twice_example =
    handle_paystack_webhook_twice hmac secret 9 [] secret charge reference past_due_store
      checkout_payment refl refl refl refl refl refl (λ e. cc e) 10 past_due_office refl

abbrev answered : List (Option Transaction)
answered = none ∷ some (record { is_success = true; detail = charge }) ∷ []

abbrev verified : Store
verified = (verify_and_activate_payment 9 answered reference past_due_store).1

verify_and_activate_payment-IsConfirmed_example :
    (payment : Payment) × (find_payment reference past_due_store ≡ some payment)
    × (payment.status ≢ PaymentStatus.paid)
    × IsConfirmed answered reference past_due_store payment
    × TookEffect reference payment.workspace_id verified
unfolding verify_and_activate_payment verify_loop matches_payment upper finalize_successful_payment
    is_allowed
verify_and_activate_payment-IsConfirmed_example =
    verify_and_activate_payment-IsConfirmed 9 answered reference past_due_store verified refl

-- ===== src/Billing/Webhooks/Laws.antt =====
-- The webhook: what is let in, and that a charge that is delivered twice is settled once. The
-- callback: a payment is settled only on an answer or an event that states its amount.
use tomafix_backend.Prelude.{
  if-eq, Memᴰ, ℕ, ◌≡◌, ◌≢◌, refl, ap, sym, ◌∙◌, true, ◌⊎◌, inl, inr, List, [], ◌∷◌, Option, none,
  some, Text, ◌==◌, ==_ne, nat_eq, list_eq, if◌then◌else◌, ok, err, Action, ◌>>=◌, pure, gets,
  or_throw-eq_ok,
}
use tomafix_backend.Billing.Store.{
  Store, Payment, PaystackEvent, WebhookEvent, Error, missing_signature, invalid_signature,
  payment_not_found,
}
use tomafix_backend.Billing.Store.Enums.{PaymentStatus, payment_status_eq}
use tomafix_backend.Billing.Payments.{find_payment}
use tomafix_backend.Billing.Webhooks.Confirmed.{
  StatesAmount, TookEffect, settle_if_matches-TookEffect,
}
use tomafix_backend.Billing.Webhooks.{
  handle_paystack_webhook, Transaction, verify_loop, Verification, charge_event, settle_if_matches,
  verify_by_event, verify_transaction, verify_and_activate_payment,
}

-- A body without a signature, or with one that is not the HMAC of the body under the secret of the
-- configuration, is refused, and nothing is written.
handle_paystack_webhook_refuses :
    (hmac : Text → Text → Text) (secret : Text) (now : ℕ) (body : Text) (signature : Option Text)
    (raw : PaystackEvent) (s : Store)
    → signature ≢ some (hmac secret body)
    → let (r, s') = handle_paystack_webhook hmac secret now body signature raw s in
      (s' ≡ s) × ((r ≡ err missing_signature) ⊎ (r ≡ err invalid_signature))
unfolding handle_paystack_webhook
handle_paystack_webhook_refuses hmac secret now body none raw s ne = (refl, inl refl)
handle_paystack_webhook_refuses hmac secret now body (some []) raw s ne = (refl, inl refl)
handle_paystack_webhook_refuses hmac secret now body (some (c ∷ cs)) raw s ne =
    let other : hmac secret body ≢ (c ∷ cs) = λ e. ne (ap some (sym e)) in
    rw (==_ne (hmac secret body) (c ∷ cs) other) (refl, inr refl)

-- The transaction that the loop ends with is one of the answers.
verify_loop-Mem :
    (tries : List (Option Transaction)) (last : Option Transaction) (txn : Transaction)
    → verify_loop tries last ≡ some txn
    → Memᴰ (some txn) tries ⊎ (last ≡ some txn)
unfolding verify_loop
verify_loop-Mem [] last txn e = inr e
verify_loop-Mem (none ∷ tries) last txn e = elim (verify_loop-Mem tries last txn e) [
  | inl m ↦ inl (Memᴰ.tail m)
  | inr l ↦ inr l
]
verify_loop-Mem (some answer ∷ tries) last txn e =
    elim (if-eq answer.is_success (some answer) (verify_loop tries (some answer)) (some txn) e) [
      | inl (_, same) ↦ inl (Memᴰ.head (sym same))
      | inr (_, later) ↦ elim (verify_loop-Mem tries (some answer) txn later) [
        | inl m ↦ inl (Memᴰ.tail m)
        | inr same ↦ inl (Memᴰ.head (sym same))
      ]
    ]

-- What Paystack said of a reference: a successful transaction, or the stored event of a charge.
pub data Stated (tries : List (Option Transaction)) (reference : Text) (s : Store)
    : PaystackEvent → Type 0 where
  by_answer :
      (txn : Transaction)
      → Memᴰ (some txn) tries
      → txn.is_success ≡ true
      → Stated tries reference s txn.detail
  by_event :
      (e : WebhookEvent) → charge_event reference s ≡ some e → Stated tries reference s e.event

abbrev pub IsConfirmed : List (Option Transaction) → Text → Store → Payment → Type 0
IsConfirmed tries reference s payment =
    (paid : PaystackEvent) × Stated tries reference s paid × StatesAmount paid payment

was_answered :
    (tries : List (Option Transaction)) (txn : Transaction)
    → verify_loop tries none ≡ some txn
    → Memᴰ (some txn) tries
was_answered tries txn h = elim (verify_loop-Mem tries none txn h) [
  | inl m ↦ m
  | inr e ↦ absurd (cc e)
]

module _ (now : ℕ) (reference : Text) (payment : Payment) (s t : Store)
    (tries : List (Option Transaction)) (known : find_payment reference s ≡ some payment)
    (unpaid : payment.status ≢ PaymentStatus.paid) where
  abbrev Confirms : Type 0
  Confirms = IsConfirmed tries reference s payment × TookEffect reference payment.workspace_id t

  settled-Confirms :
      (txn_id : Option Text) (paid : PaystackEvent)
      → Stated tries reference s paid
      → settle_if_matches now reference txn_id paid payment s ≡ (ok Verification.activated, t)
      → Confirms
  settled-Confirms txn_id paid stated e =
      let (amount, effect) =
        settle_if_matches-TookEffect now reference payment s t known unpaid txn_id paid e in
      ((paid, stated, amount), effect)

  verify_by_event-Confirms :
      (o : Option WebhookEvent)
      → charge_event reference s ≡ o
      → verify_by_event now reference payment o s ≡ (ok Verification.activated, t)
      → Confirms
  verify_by_event-Confirms none h e = absurd (cc (ap (λ out. out.0) e))
  verify_by_event-Confirms (some ev) h e =
      settled-Confirms ev.event.txn_id ev.event (by_event ev h) e

  verify_transaction-Confirms :
      (o : Option Transaction)
      → verify_loop tries none ≡ o
      → verify_transaction now reference payment o s ≡ (ok Verification.activated, t)
      → Confirms
  verify_transaction-Confirms none h e = verify_by_event-Confirms _ refl e
  verify_transaction-Confirms (some txn) h e =
      let answered = settle_if_matches now reference txn.detail.reference txn.detail payment in
      let stored = gets (charge_event reference) >>= verify_by_event now reference payment in
      elim (if-eq txn.is_success answered stored _ refl) [
        | inl (success, same) ↦
            settled-Confirms txn.detail.reference txn.detail
              (by_answer txn (was_answered tries txn h) success) (ap (λ m. m s) same ∙ e)
        | inr (_, same) ↦ verify_by_event-Confirms _ refl (ap (λ m. m s) same ∙ e)
      ]

module _ (now : ℕ) (reference : Text) (tries : List (Option Transaction)) where
  -- what `verify_and_activate_payment` does with the payment that it found
  abbrev answer : Payment → Action Store Error Verification
  answer payment =
      if payment.status == PaymentStatus.paid
      then pure Verification.already_activated
      else verify_transaction now reference payment (verify_loop tries none)

  answer-Confirms :
      (payment : Payment) (s t : Store)
      → find_payment reference s ≡ some payment
      → answer payment s ≡ (ok Verification.activated, t)
      → (payment.status ≢ PaymentStatus.paid)
        × IsConfirmed tries reference s payment
        × TookEffect reference payment.workspace_id t
  answer-Confirms payment s t known e =
      let verified = verify_transaction now reference payment (verify_loop tries none) in
      elim (if-eq (payment.status == PaymentStatus.paid) (pure Verification.already_activated)
        verified _ refl) [
          | inl (_, same) ↦ absurd (cc (ap (λ m. (m s).0) same ∙ ap (λ out. out.0) e))
          | inr (unpaid, same) ↦
              let open_yet : payment.status ≢ PaymentStatus.paid = λ paid. cc (
                sym unpaid
                ∙ (payment_status_eq.same_iff payment.status PaymentStatus.paid).1 paid) in
              let (confirmed, effect) =
                verify_transaction-Confirms now reference payment s t tries known open_yet _ refl
                  (ap (λ m. m s) same ∙ e) in
              (open_yet, confirmed, effect)
        ]

pub verify_and_activate_payment-IsConfirmed :
    (now : ℕ) (tries : List (Option Transaction)) (reference : Text) (s t : Store)
    → verify_and_activate_payment now tries reference s ≡ (ok Verification.activated, t)
    → (payment : Payment) × (find_payment reference s ≡ some payment)
      × (payment.status ≢ PaymentStatus.paid)
      × IsConfirmed tries reference s payment
      × TookEffect reference payment.workspace_id t
unfolding verify_and_activate_payment
verify_and_activate_payment-IsConfirmed now tries reference s t e =
    let (payment, known, rest) =
      or_throw-eq_ok payment_not_found (find_payment reference s) (answer now reference tries) s
        e in
    let (unpaid, confirmed, effect) = answer-Confirms now reference tries payment s t known rest in
    (payment, known, unpaid, confirmed, effect)

-- ===== src/Billing/Webhooks/Delivery.antt =====
-- The delivery of a signed event: it is recorded with its outcome, and a second delivery of a charge
-- settles nothing again.
use tomafix_backend.Prelude.{
  or_else, arith, ℕ, ◌+◌, ◌≡◌, ◌≢◌, refl, ap, ◌∙◌, Bool, true, false, Option, none, some, Text,
  is_empty, ==_refl, nat_eq, list_eq, find-update_same, find-append_same, ok, ◌>>◌, throw, catch,
  >>=_ok, Option-cases, inl, inr,
}
use tomafix_backend.Billing.Store.{Store, Workspace, Payment, PaystackEvent, WebhookEvent}
use tomafix_backend.Billing.Store.Enums.{PaymentStatus, payment_status_eq}
use tomafix_backend.Billing.Status.{find_workspace}
use tomafix_backend.Billing.Payments.{find_payment, finalize_successful_payment}
use tomafix_backend.Billing.Payments.Finalize.{finalize_found_lem, settled_store}
use tomafix_backend.Billing.Payments.Columns.{IsPaid}
use tomafix_backend.Billing.Payments.Effect.{finalize_paid, settled_payment}
use tomafix_backend.Billing.Webhooks.{
  first_receipt, receipt_again, outcome, charge_success, event_id_of, act_on, paid_at_of,
  process_event, upsert_event, find_event, mark_event, handle_paystack_webhook,
}

-- The event of an id is on record with this outcome.
abbrev pub IsRecorded : Text → Bool → Bool → ℕ → Store → Type 0
IsRecorded id done failed attempts s =
    (e : WebhookEvent) × (find_event id s ≡ some e)
    × (e.meta.processed ≡ done)
    × (e.meta.last_error ≡ failed)
    × (e.meta.attempts ≡ attempts)

abbrev pub attempts_of : Option WebhookEvent → ℕ
attempts_of none = 0
attempts_of (some e) = e.meta.attempts

upsert_event_lem :
    (now : ℕ) (raw : PaystackEvent) (s : Store)
    → IsRecorded
        (event_id_of raw)
        false
        false
        (attempts_of (find_event (event_id_of raw) s) + 1)
        (upsert_event now raw s).1
upsert_event_lem now raw s = elim (Option-cases (find_event (event_id_of raw) s)) [
  | inl new ↦
      let made =
        find-append_same (λ e. e.event_id) (event_id_of raw) s.webhook_events
          (first_receipt now raw) new refl in
      rw new (first_receipt now raw, made, refl, refl, refl)
  | inr (e, old) ↦
      let rewritten =
        find-update_same (λ e. e.event_id) (event_id_of raw) (receipt_again raw) s.webhook_events e
          (λ _. refl) old in
      rw old (receipt_again raw e, rewritten, refl, refl, refl)
]

-- An outcome is written beside the attempts that are counted.
mark_event_lem :
    (id : Text) (was_done had_failed done failed : Bool) (attempts : ℕ) (s : Store)
    → IsRecorded id was_done had_failed attempts s
    → IsRecorded id done failed attempts (mark_event id done failed s).1
mark_event_lem id was_done had_failed done failed attempts s (e, known, _, _, counted) = (
  outcome done failed e,
  find-update_same (λ e. e.event_id) id (outcome done failed) s.webhook_events e (λ _. refl) known,
  refl,
  refl,
  counted,
)

module _ (hmac : Text → Text → Text) (secret : Text) (now : ℕ) (body : Text) (signature : Text)
    (raw : PaystackEvent) (s : Store) (given : is_empty signature ≡ false)
    (signed : hmac secret body ≡ signature) where
  abbrev recorded : Store
  recorded = (upsert_event now raw s).1

  handle-eq-process :
      handle_paystack_webhook hmac secret now body (some signature) raw s
      ≡ catch
          (process_event now raw)
          (λ e. mark_event (event_id_of raw) false true >> throw e)
          recorded
  unfolding handle_paystack_webhook
  handle-eq-process = rw given (rw signed (rw (==_refl signature) refl))

  handle_ok :
      (t : Store)
      → act_on now raw recorded ≡ (ok tt, t)
      → handle_paystack_webhook hmac secret now body (some signature) raw s
        ≡ (ok tt, (mark_event (event_id_of raw) true false t).1)
  handle_ok t acted =
      handle-eq-process
      ∙ ap
          (λ out.
            catch (λ _. out) (λ e. mark_event (event_id_of raw) false true >> throw e) recorded)
          (>>=_ok (act_on now raw) (λ _. mark_event (event_id_of raw) true false) recorded acted)

act_on-charge :
    (now : ℕ) (raw : PaystackEvent) (reference : Text) (s : Store)
    → raw.event ≡ some charge_success
    → raw.reference ≡ some reference
    → is_empty reference ≡ false
    → act_on now raw s
      ≡ finalize_successful_payment now reference raw.txn_id (paid_at_of now raw) raw s
act_on-charge now raw reference s charge names nonempty = rw names (rw charge (rw nonempty refl))

-- A charge of a payment that is paid is acknowledged, and only its attempt is counted.
handle_paid :
    (hmac : Text → Text → Text) (secret : Text) (now : ℕ) (body : Text) (signature : Text)
    (raw : PaystackEvent) (reference : Text) (s : Store) (payment : Payment)
    → is_empty signature ≡ false
    → hmac secret body ≡ signature
    → raw.event ≡ some charge_success
    → raw.reference ≡ some reference
    → is_empty reference ≡ false
    → find_payment reference s ≡ some payment
    → payment.status ≡ PaymentStatus.paid
    → let (r, s') = handle_paystack_webhook hmac secret now body (some signature) raw s in
      (r ≡ ok tt)
      × (s'.payments ≡ s.payments)
      × (s'.workspaces ≡ s.workspaces)
      × (s'.subscriptions ≡ s.subscriptions)
      × IsRecorded
          (event_id_of raw)
          true
          false
          (attempts_of (find_event (event_id_of raw) s) + 1)
          s'
handle_paid hmac secret now body signature raw reference s payment given signed charge names
      nonempty known paid =
    let before = recorded hmac secret now body signature raw s given signed in
    let acted =
      act_on-charge now raw reference before charge names nonempty
      ∙ finalize_paid now reference raw.txn_id (paid_at_of now raw) raw before payment known paid in
    rw (handle_ok hmac secret now body signature raw s given signed before acted) (
      refl,
      refl,
      refl,
      refl,
      mark_event_lem (event_id_of raw) false false true false _ before (upsert_event_lem now raw s),
    )

module _ (hmac : Text → Text → Text) (secret : Text) (now : ℕ) (body : Text) (signature : Text)
    (raw : PaystackEvent) (reference : Text) (s : Store) (payment : Payment)
    (given : is_empty signature ≡ false) (signed : hmac secret body ≡ signature)
    (charge : raw.event ≡ some charge_success) (names : raw.reference ≡ some reference)
    (nonempty : is_empty reference ≡ false) (known : find_payment reference s ≡ some payment)
    (unpaid : payment.status ≢ PaymentStatus.paid) where
  -- A signed charge of a payment that is known and not yet paid, of a workspace that exists, is
  -- delivered twice: it is acknowledged both times. The first delivery leaves the payment paid, with
  -- the transaction of the event, and the second leaves every payment, workspace and subscription as
  -- the first; the event is on record as processed without an error after each, with one attempt
  -- more.
  pub handle_paystack_webhook_twice :
      (later : ℕ) (ws : Workspace)
      → find_workspace payment.workspace_id s ≡ some ws
      → let (r, s') = handle_paystack_webhook hmac secret now body (some signature) raw s in
        let (r', s'') = handle_paystack_webhook hmac secret later body (some signature) raw s' in
        let attempts = attempts_of (find_event (event_id_of raw) s) in
        (r ≡ ok tt)
        × IsPaid reference raw.txn_id (or_else raw.paid_at now) s'
        × IsRecorded (event_id_of raw) true false (attempts + 1) s'
        × (r' ≡ ok tt)
        × (s''.payments ≡ s'.payments)
        × (s''.workspaces ≡ s'.workspaces)
        × (s''.subscriptions ≡ s'.subscriptions)
        × IsRecorded (event_id_of raw) true false (attempts + 2) s''
  handle_paystack_webhook_twice later ws found =
      let before = recorded hmac secret now body signature raw s given signed in
      let settled =
        settled_store now reference raw.txn_id (paid_at_of now raw) raw before payment in
      let acted =
        act_on-charge now raw reference before charge names nonempty
        ∙ finalize_found_lem now reference raw.txn_id (paid_at_of now raw) raw before payment known
            unpaid ws found in
      let first = handle_ok hmac secret now body signature raw s given signed settled acted in
      let after = (mark_event (event_id_of raw) true false settled).1 in
      let paid =
        settled_payment now reference raw.txn_id (paid_at_of now raw) raw before payment ws known
          unpaid found in
      let (row, counted, was_done, was_fine, attempts) =
        mark_event_lem (event_id_of raw) false false true false _ settled
          (upsert_event_lem now raw s) in
      let (acknowledged, payments, workspaces, subscriptions, event) =
        handle_paid hmac secret later body signature raw reference after _ given signed charge names
          nonempty paid refl in
      let (e, on_record, done, failed, n) = event in
      let total = ap attempts_of counted ∙ attempts in
      rw first (
        refl,
        (_, paid, refl, refl, refl),
        (row, counted, was_done, was_fine, attempts),
        acknowledged,
        payments,
        workspaces,
        subscriptions,
        (e, on_record, done, failed, omega (arith, n, total)),
      )

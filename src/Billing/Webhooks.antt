-- ===== src/Billing/Webhooks.antt =====
-- billing/billing.service.ts: the Paystack webhook and its replay, the verification of a payment on
-- the callback page, cancellation, and reconciliation. The HMAC of `crypto` and the answers of
-- Paystack are parameters; `now` is the time that a handler reads from the clock.

pub mod Confirmed
pub mod Laws
pub mod Delivery
use tomafix_backend.Prelude.{
  ltb, filter_rows, ℕ, ◌+◌, Bool, true, false, not, ◌&&◌, ◌||◌, List, [], ◌∷◌, ◌++◌, Option, none,
  some, Text, codes, upper, is_empty, ◌==◌, nat_eq, list_eq, if◌then◌else◌, or_else, is_some, find,
  update_where, ok, Action, ◌>>=◌, ◌>>◌, pure, throw, gets, modify, throw_if, or_throw, catch,
}
use tomafix_backend.Billing.Store.{
  Store, Payment, PaystackEvent, EventMeta, WebhookEvent, Error, missing_signature,
  invalid_signature, event_not_found, unsupported_event, subscription_not_found, payment_not_found,
}
use tomafix_backend.Billing.Store.Enums.{
  workspace_status_eq, billing_status_eq, PaymentStatus, payment_status_eq, SubscriptionStatus,
  interval_eq,
}
use tomafix_backend.Billing.Payments.{
  truthy, find_payment, find_subscription, finalize_successful_payment,
}

abbrev pub charge_success : Text
charge_success = codes "charge.success"

abbrev or_text : Option Text → Text → Text
or_text o d = if truthy o then or_else o d else d

abbrev pub find_event : Text → Store → Option WebhookEvent
find_event event_id s = find (λ e. e.event_id == event_id) s.webhook_events

-- `${eventType}:${reference || 'noref'}:${txnId || 'notxn'}`
unfoldable pub event_id_of : PaystackEvent → Text
event_id_of e =
    or_else e.event (codes "undefined")
    ++ (codes ":"
        ++ (or_text e.reference (codes "noref") ++ (codes ":" ++ or_text e.txn_id (codes "notxn"))))

abbrev pub pending_meta : ℕ → EventMeta
pending_meta attempts = record { processed = false; attempts = attempts; last_error = false }

abbrev pub first_receipt : ℕ → PaystackEvent → WebhookEvent
first_receipt now raw = record {
  event_id = event_id_of raw;
  event_type = or_text raw.event (codes "unknown");
  reference = raw.reference;
  event = raw;
  meta = pending_meta 1;
  received_at = now;
}

abbrev pub receipt_again : PaystackEvent → WebhookEvent → WebhookEvent
receipt_again raw e = record e { event = raw; meta = pending_meta (e.meta.attempts + 1) }

-- `webhookEvent.upsert`: the payload of a known event is replaced, with one attempt more.
abbrev pub upsert_event : ℕ → PaystackEvent → Action Store Error (Unit {0})
upsert_event now raw s = (
  ok tt,
  record s {
    webhook_events =
        if is_some (find_event (event_id_of raw) s)
        then update_where (λ e. e.event_id == event_id_of raw) (receipt_again raw) s.webhook_events
        else s.webhook_events ++ first_receipt now raw ∷ [];
  },
)

abbrev pub outcome : Bool → Bool → WebhookEvent → WebhookEvent
outcome processed failed e = record e {
  meta = record (e.meta) { processed = processed; last_error = failed };
}

abbrev pub mark_event : Text → Bool → Bool → Action Store Error (Unit {0})
mark_event id processed failed s = (
  ok tt,
  record s {
    webhook_events =
        update_where (λ e. e.event_id == id) (outcome processed failed) s.webhook_events;
  },
)

-- `data?.paid_at ? new Date(data.paid_at) : new Date()`
abbrev paid_at_of : ℕ → PaystackEvent → ℕ
paid_at_of now raw = or_else raw.paid_at now

-- Only a successful charge with a reference is acted on.
abbrev pub act_on : ℕ → PaystackEvent → Action Store Error (Unit {0})
act_on now raw = elim raw.reference [
  | none ↦ pure tt
  | some reference ↦
      if or_else raw.event [] == charge_success && not (is_empty reference)
      then finalize_successful_payment now reference raw.txn_id (paid_at_of now raw) raw
      else pure tt
]

abbrev process_event : ℕ → PaystackEvent → Action Store Error (Unit {0})
process_event now raw = do act_on now raw; mark_event (event_id_of raw) true false

-- `handlePaystackWebhook`: `secret` is that of `getPaystackConfig`, `hmac` the hexadecimal HMAC of
-- a body under a key, and `raw` what `payload` was parsed to from the body.
unfoldable pub handle_paystack_webhook :
    (Text → Text → Text)
    → Text
    → ℕ
    → Text
    → Option Text
    → PaystackEvent
    → Action Store Error (Unit {0})
unfolding event_id_of
handle_paystack_webhook hmac secret now body signature raw = do
  throw_if (not (truthy signature)) missing_signature
  throw_if (not (hmac secret body == or_else signature [])) invalid_signature
  upsert_event now raw
  catch (process_event now raw) (λ e. mark_event (event_id_of raw) false true >> throw e)

-- `replayFailedWebhook`
unfoldable pub replay_failed_webhook : ℕ → Text → Action Store Error (Unit {0})
replay_failed_webhook now event_id = do
  found ← gets (find_event event_id)
  evt ← or_throw event_not_found found
  if or_else (evt.event).event [] == charge_success && truthy (evt.event).reference
      then act_on now evt.event >> mark_event event_id true false
      else throw unsupported_event

-- `cancelWorkspaceSubscription`
unfoldable pub cancel_workspace_subscription : ℕ → Action Store Error (Unit {0})
cancel_workspace_subscription id = do
  found ← gets (find_subscription id)
  or_throw subscription_not_found found
  modify (λ s. record s {
    subscriptions =
        update_where (λ sub. sub.workspace_id == id)
          (λ sub. record sub { status = SubscriptionStatus.canceled }) s.subscriptions;
  })

-- What `verifyTransaction` resolves to, or that it rejects.
pub record Transaction : Type 0 where
  pub is_success : Bool
  pub detail : PaystackEvent

-- The three tries: the last transaction that was answered; a successful one ends the loop.
unfoldable pub verify_loop : List (Option Transaction) → Option Transaction → Option Transaction
verify_loop [] txn = txn
verify_loop (none ∷ tries) txn = verify_loop tries txn
verify_loop (some answer ∷ tries) txn =
    let more = verify_loop tries (some answer) in if answer.is_success then some answer else more

-- The amounts are equal, and so are the currencies where both are given.
unfoldable pub matches_payment : PaystackEvent → Payment → Bool
matches_payment paid payment =
    let got = upper paid.currency in
    let expected = upper payment.currency in
    paid.amount == payment.amount_pesewas && (is_empty expected || is_empty got || got == expected)

pub data Verification : Type 0 where
  already_activated activated mismatch not_confirmed : Verification

-- `orderBy: { receivedAt: 'desc' }`: the latest of the events
abbrev latest_received : List WebhookEvent → Option WebhookEvent
latest_received [] = none
latest_received (e ∷ es) = elim (latest_received es) [
  | none ↦ some e
  | some f ↦ if ltb e.received_at f.received_at then some f else some e
]

abbrev is_charge_of : Text → WebhookEvent → Bool
is_charge_of reference e =
    e.event_type == charge_success && elim e.reference [ none ↦ false | some r ↦ r == reference ]

-- `webhookEvent.findFirst({ where: { provider, eventType: 'charge.success', reference } })`
abbrev pub charge_event : Text → Store → Option WebhookEvent
charge_event reference s = latest_received (filter_rows (is_charge_of reference) s.webhook_events)

abbrev pub settle_if_matches :
    ℕ → Text → Option Text → PaystackEvent → Payment → Action Store Error Verification
settle_if_matches now reference txn_id paid payment =
    if matches_payment paid payment
    then finalize_successful_payment now reference txn_id (paid_at_of now paid) paid
      >> pure activated
    else pure mismatch

abbrev pub verify_by_event :
    ℕ → Text → Payment → Option WebhookEvent → Action Store Error Verification
verify_by_event now reference payment none = pure not_confirmed
verify_by_event now reference payment (some e) =
    settle_if_matches now reference e.event.txn_id e.event payment

abbrev pub verify_transaction :
    ℕ → Text → Payment → Option Transaction → Action Store Error Verification
verify_transaction now reference payment none =
    gets (charge_event reference) >>= verify_by_event now reference payment
verify_transaction now reference payment (some txn) =
    if txn.is_success
    then settle_if_matches now reference txn.detail.reference txn.detail payment
    else gets (charge_event reference) >>= verify_by_event now reference payment

-- `verifyAndActivatePayment`; `tries` are the answers of Paystack to the three tries.
unfoldable pub verify_and_activate_payment :
    ℕ → List (Option Transaction) → Text → Action Store Error Verification
unfolding verify_loop matches_payment
verify_and_activate_payment now tries reference = do
  found ← gets (find_payment reference)
  payment ← or_throw payment_not_found found
  if payment.status == PaymentStatus.paid
      then pure already_activated
      else verify_transaction now reference payment (verify_loop tries none)

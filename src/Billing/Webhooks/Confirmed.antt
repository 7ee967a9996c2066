-- ===== src/Billing/Webhooks/Confirmed.antt =====
-- What it takes for the callback to settle a payment, and what it then leaves.
use tomafix_backend.Prelude.{
  ℕ, ◌≡◌, ◌≢◌, refl, ap, sym, ◌∙◌, subst, true, ◌⊎◌, inl, inr, [], Option, some, Text, upper,
  is_empty, ◌==◌, nat_eq, list_eq, arith, ok, pure, >>=-eq_ok, Bool-cases, Option-cases,
}
use tomafix_backend.Billing.Store.{Store, Workspace, Payment, PaystackEvent}
use tomafix_backend.Billing.Store.Enums.{WorkspaceStatus, BillingStatus, PaymentStatus}
use tomafix_backend.Billing.Status.{find_workspace}
use tomafix_backend.Billing.Payments.{find_payment, finalize_successful_payment}
use tomafix_backend.Billing.Payments.Finalize.{finalize_found_lem, finalize_rolls_back}
use tomafix_backend.Billing.Payments.Effect.{settled_payment, settled_workspace}
use tomafix_backend.Billing.Webhooks.{matches_payment, Verification, paid_at_of, settle_if_matches}

-- The event states the amount of the payment, in its currency where both are given.
abbrev pub StatesAmount : PaystackEvent → Payment → Type 0
StatesAmount paid payment =
    (paid.amount ≡ payment.amount_pesewas)
    × ((upper payment.currency ≡ [])
        ⊎ ((upper paid.currency ≡ []) ⊎ (upper paid.currency ≡ upper payment.currency)))

-- The payment of the reference is paid, and its workspace is active in both status columns.
abbrev pub TookEffect : Text → ℕ → Store → Type 0
TookEffect reference workspace_id s =
    ((p : Payment) × (find_payment reference s ≡ some p) × (p.status ≡ PaymentStatus.paid))
    × ((w : Workspace) × (find_workspace workspace_id s ≡ some w)
        × (w.status ≡ WorkspaceStatus.active)
        × (w.billing_status ≡ BillingStatus.active))

empty_text : (t : Text) → is_empty t ≡ true → t ≡ []
empty_text t h = ground (arith, h)

matches_payment-StatesAmount :
    (paid : PaystackEvent) (payment : Payment)
    → matches_payment paid payment ≡ true
    → StatesAmount paid payment
unfolding matches_payment
matches_payment-StatesAmount paid payment h =
    let got = upper paid.currency in
    let expected = upper payment.currency in
    let amount : paid.amount ≡ payment.amount_pesewas =
      ground (arith, h, nat_eq.same_iff paid.amount payment.amount_pesewas) in
    elim (Bool-cases (is_empty expected)) [
      | inl e ↦ (amount, inl (empty_text expected e))
      | inr e ↦ elim (Bool-cases (is_empty got)) [
        | inl e' ↦ (amount, inr (inl (empty_text got e')))
        | inr e' ↦
            let same : (got == expected) ≡ true = ground (arith, h, e, e') in
            (amount, inr (inr ((list_eq.same_iff got expected).0 same)))
      ]
    ]

module _ (now : ℕ) (reference : Text) (payment : Payment) (s t : Store)
    (known : find_payment reference s ≡ some payment)
    (unpaid : payment.status ≢ PaymentStatus.paid) where
  finalize-TookEffect :
      (txn_id : Option Text) (paid_at : ℕ) (raw : PaystackEvent)
      → finalize_successful_payment now reference txn_id paid_at raw s ≡ (ok tt, t)
      → TookEffect reference payment.workspace_id t
  finalize-TookEffect txn_id paid_at raw e =
      elim (Option-cases (find_workspace payment.workspace_id s)) [
        | inl missing ↦
            let thrown =
              finalize_rolls_back now reference txn_id paid_at raw s payment known unpaid missing in
            absurd (cc (ap (λ out. out.0) (sym e ∙ thrown)))
        | inr (ws, found) ↦
            let settled =
              finalize_found_lem now reference txn_id paid_at raw s payment known unpaid ws found in
            subst (TookEffect reference payment.workspace_id) (ap (λ out. out.1) (sym settled ∙ e))
              (
                (
                  _,
                  settled_payment now reference txn_id paid_at raw s payment ws known unpaid found,
                  refl,
                ),
                (
                  _,
                  settled_workspace now reference txn_id paid_at raw s payment ws known unpaid
                      found,
                  refl,
                  refl,
                ),
              )
      ]

  pub settle_if_matches-TookEffect :
      (txn_id : Option Text) (paid : PaystackEvent)
      → settle_if_matches now reference txn_id paid payment s ≡ (ok Verification.activated, t)
      → StatesAmount paid payment × TookEffect reference payment.workspace_id t
  settle_if_matches-TookEffect txn_id paid e = elim (Bool-cases (matches_payment paid payment)) [
    | inl m ↦
        let (_, s', settled, answered) =
          >>=-eq_ok (finalize_successful_payment now reference txn_id (paid_at_of now paid) paid)
            (λ _. pure Verification.activated) s (rw m at e) in
        (
          matches_payment-StatesAmount paid payment m,
          finalize-TookEffect txn_id (paid_at_of now paid) paid
              (settled ∙ ap (λ t. (ok tt, t)) (ap (λ out. out.1) answered)),
        )
    | inr f ↦ absurd (cc (ap (λ out. out.0) (rw f at e)))
  ]

-- ===== src/Billing/Reconcile/Laws/Demotes.antt =====
-- What a checkout that was left open does to the reconciliation of a workspace that has paid.
use tomafix_backend.Prelude.{
  ℕ, ◌≡◌, refl, ap, sym, ◌∙◌, true, false, Bool-cases, Option-cases, if-eq, inl, inr, List, [], ◌∷◌,
  Option, none, some, Memᴰ, Text, ◌==◌, nat_eq, leb, ok, arith,
}
use tomafix_backend.Billing.Store.{Store, Workspace, Plan, Payment}
use tomafix_backend.Billing.Store.Enums.{
  WorkspaceStatus, workspace_status_eq, BillingStatus, billing_status_eq, PaymentStatus,
}
use tomafix_backend.Billing.Status.{find_workspace}
use tomafix_backend.Billing.Payments.{find_subscription}
use tomafix_backend.Billing.Reconcile.{
  Columns, columns_of, stands_before, first_of_two, latest_paid, plan_of_subscription, reconciled,
  set_columns, reconcile_workspace_billing,
}
use tomafix_backend.Billing.Reconcile.Laws.{
  row, from_payment, from_subscription, from_subscription_statuses, recomputed, found_again,
  reconcile_workspace_billing_lem,
}

some_eq : {A : Type 0} (a b : A) → some a ≡ some b → a ≡ b
some_eq a b e = cc e

-- Of two payments the one that was never paid stands first.
open_first : (p q : Payment) → p.paid_at ≡ none → stands_before p q ≡ false → q.paid_at ≡ none
open_first p q never later = ground (arith, never, later)

open_kept : (p q : Payment) → q.paid_at ≡ none → stands_before p q ≡ true → p.paid_at ≡ none
open_kept p q never first = ground (arith, never, first)

-- The payment that is taken for the latest of a workspace is one of its payments.
latest_paid-Mem :
    (id : ℕ) (ps : List Payment) (q : Payment)
    → latest_paid id ps ≡ some q
    → Memᴰ q ps × (q.workspace_id ≡ id)
unfolding latest_paid first_of_two
latest_paid-Mem id [] q e = absurd (cc e)
latest_paid-Mem id (p ∷ ps) q e = elim (Bool-cases (p.workspace_id == id)) [
  | inl here ↦
      let own : p.workspace_id ≡ id = (nat_eq.same_iff p.workspace_id id).0 here in
      elim (Option-cases (latest_paid id ps)) [
        | inl nothing ↦
            let same : p ≡ q = cc (rw nothing at (rw here at e)) in
            (Memᴰ.head (sym same), ap (λ q. q.workspace_id) (sym same) ∙ own)
        | inr (r, old) ↦
            elim (if-eq (stands_before p r) (some p) (some r) (some q) (rw old at (rw here at e))) [
              | inl (_, taken) ↦
                  let same = some_eq p q taken in
                  (Memᴰ.head (sym same), ap (λ q. q.workspace_id) (sym same) ∙ own)
              | inr (_, taken) ↦
                  let (m, own') = latest_paid-Mem id ps q (old ∙ taken) in (Memᴰ.tail m, own')
            ]
      ]
  | inr other ↦ let (m, own) = latest_paid-Mem id ps q (rw other at e) in (Memᴰ.tail m, own)
]

-- A payment of the workspace that was never paid is taken for the latest, whatever else was paid.
latest_paid-open :
    (id : ℕ) (p : Payment) (ps : List Payment)
    → Memᴰ p ps
    → p.workspace_id ≡ id
    → p.paid_at ≡ none
    → (q : Payment) × (latest_paid id ps ≡ some q) × (q.paid_at ≡ none)
unfolding latest_paid first_of_two
latest_paid-open id p [] m own never = elim m [ ]
latest_paid-open id p (x ∷ ps) (Memᴰ.head same) own never =
    let here : (x.workspace_id == id) ≡ true =
      (nat_eq.same_iff x.workspace_id id).1 (ap (λ q. q.workspace_id) (sym same) ∙ own) in
    let never' : x.paid_at ≡ none = ap (λ q. q.paid_at) (sym same) ∙ never in
    elim (Option-cases (latest_paid id ps)) [
      | inl nothing ↦ (x, rw here (rw nothing refl), never')
      | inr (r, old) ↦ elim (Bool-cases (stands_before x r)) [
        | inl first ↦ (x, rw here (rw old (rw first refl)), never')
        | inr later ↦ (r, rw here (rw old (rw later refl)), open_first x r never' later)
      ]
    ]
latest_paid-open id p (x ∷ ps) (Memᴰ.tail m) own never =
    let (q, old, never') = latest_paid-open id p ps m own never in
    elim (Bool-cases (x.workspace_id == id)) [
      | inl here ↦ elim (Bool-cases (stands_before x q)) [
        | inl first ↦ (x, rw here (rw old (rw first refl)), open_kept x q never' first)
        | inr later ↦ (q, rw here (rw old (rw later refl)), never')
      ]
      | inr other ↦ (q, rw other old, never')
    ]

-- Active columns, after a pending payment.
row-demotes :
    (now : ℕ) (b : BillingStatus) (w : WorkspaceStatus) (n : Text) (o : Option ℕ)
    (plan : Option Plan) (p : Payment)
    → p.status ≡ PaymentStatus.pending
    → b ≡ BillingStatus.active
    → w ≡ WorkspaceStatus.active
    → let c = from_payment now plan (some p) (row now b w n o) in
      (c.billing_status ≡ BillingStatus.past_due) × (c.status ≡ WorkspaceStatus.pending_payment)
row-demotes now b w n none plan p pending billed on = rw (pending, billed, on) (refl, refl)
row-demotes now b w n (some end) plan p pending billed on =
    rw (pending, billed, on)
      (elim (Bool-cases (leb end now)) [
        | inl over ↦ rw over (refl, refl)
        | inr running ↦ rw running (refl, refl)
      ])

-- A workspace that is active in both status columns and has a payment that was never paid, such as
-- a checkout that it left, is put past due and waits for payment when it is reconciled, whatever it
-- has paid and however long its subscription runs, if its payments that were never paid are pending.
pub reconcile_workspace_billing_demotes :
    (now id : ℕ) (s : Store) (ws : Workspace) (p : Payment)
    → find_workspace id s ≡ some ws
    → ws.billing_status ≡ BillingStatus.active
    → ws.status ≡ WorkspaceStatus.active
    → Memᴰ p s.payments
    → p.workspace_id ≡ id
    → p.paid_at ≡ none
    → ((q : Payment)
        → Memᴰ q s.payments
        → q.workspace_id ≡ id
        → q.paid_at ≡ none
        → q.status ≡ PaymentStatus.pending)
    → let (r, s') = reconcile_workspace_billing now id s in
      (c : Columns) × (r ≡ ok c)
      × (find_workspace id s' ≡ some (set_columns c ws))
      × (c.billing_status ≡ BillingStatus.past_due)
      × (c.status ≡ WorkspaceStatus.pending_payment)
unfolding reconciled
reconcile_workspace_billing_demotes now id s ws p found billed on m own never pending =
    let c = recomputed now id s ws found in
    let (q, latest, never') = latest_paid-open id p s.payments m own never in
    let (m', own') = latest_paid-Mem id s.payments q latest in
    let sub = find_subscription id s in
    let plan = plan_of_subscription sub s in
    let before = from_subscription sub plan (columns_of ws) in
    let read : c ≡ from_payment now plan (some q) before =
      ap (λ o. reconciled now o sub plan ws) latest in
    let (same, same') = from_subscription_statuses sub plan (columns_of ws) in
    let (billing, status) =
      row-demotes now before.billing_status before.status before.plan_name before.next_renewal plan
        q (pending q m' own' never') (same ∙ billed) (same' ∙ on) in
    rw (reconcile_workspace_billing_lem now id s ws found) (
      c,
      refl,
      found_again now id s ws found,
      ap (λ c. c.billing_status) read ∙ billing,
      ap (λ c. c.status) read ∙ status,
    )

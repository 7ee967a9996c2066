-- ===== src/Billing/Status/Machine.antt =====
-- The billing state machine: which moves `setBillingStatus` and `retryLatestPayment` make, and the
-- agreement of the two status columns of a workspace.
use tomafix_backend.Prelude.{
  ℕ, true, false, ◌≡◌, ◌≢◌, refl, none, some, ◌==◌, nat_eq, find, All, All-update_where,
  find-update_same, find-update_other, Option-cases, ==_ne, Bool-cases, inl, inr, find-delete_same,
  update_where, delete_where, ok, err, ◌++◌, ◌∷◌, [],
}
use tomafix_backend.Billing.Store.{
  Store, Workspace, Payment, Error, workspace_not_found, invalid_transition, status_changed,
}
use tomafix_backend.Billing.Store.Enums.{BillingStatus, PaymentStatus, payment_status_eq}
use tomafix_backend.Billing.Status.{
  is_allowed, assert_billing_transition, workspace_status_for, find_workspace, set_billing_status,
  retry_latest_payment, latest_payment,
}

-- The columns `status` and `billingStatus` agree.
abbrev pub IsAligned : Workspace → Type 0
IsAligned w = w.status ≡ workspace_status_for w.billing_status

abbrev pub AllAligned : Store → Type 0
AllAligned s = All IsAligned s.workspaces

abbrev pub set_status : BillingStatus → Workspace → Workspace
set_status to w = record w { billing_status = to; status = workspace_status_for to }

-- A call ends in one of three ways, and writes only in the last.
set_billing_status_unknown :
    (id : ℕ) (to : BillingStatus) (s : Store)
    → find_workspace id s ≡ none
    → set_billing_status id to s ≡ (err workspace_not_found, s)
unfolding set_billing_status
set_billing_status_unknown id to s found = rw found

set_billing_status_refused :
    (id : ℕ) (to : BillingStatus) (s : Store) (ws : Workspace)
    → find_workspace id s ≡ some ws
    → is_allowed ws.billing_status to ≡ false
    → set_billing_status id to s ≡ (err invalid_transition, s)
unfolding assert_billing_transition set_billing_status
set_billing_status_refused id to s ws found refused = rw found (rw refused)

-- The tables after a move that is allowed, but for the notice.
set_billing_status_tables :
    (id : ℕ) (to : BillingStatus) (s : Store) (ws : Workspace)
    → find_workspace id s ≡ some ws
    → is_allowed ws.billing_status to ≡ true
    → let (r, s') = set_billing_status id to s in
      (r ≡ ok (to, workspace_status_for to))
      × (s'.workspaces ≡ update_where (λ w. w.id == id) (set_status to) s.workspaces)
      × (s'.payments ≡ s.payments)
      × (s'.cache ≡ delete_where (λ e. e.key == id) s.cache)
      × (s'.audit_logs
          ≡ s.audit_logs
            ++ record { workspace_id = id; action = status_changed ws.billing_status to } ∷ [])
unfolding assert_billing_transition set_billing_status
set_billing_status_tables id BillingStatus.active s ws found allowed =
    rw found (rw allowed (refl, refl, refl, refl, refl))
set_billing_status_tables id BillingStatus.past_due s ws found allowed =
    rw found (rw allowed (refl, refl, refl, refl, refl))
set_billing_status_tables id BillingStatus.suspended s ws found allowed =
    rw found (rw allowed (refl, refl, refl, refl, refl))
set_billing_status_tables id BillingStatus.cancelled s ws found allowed =
    rw found (rw allowed (refl, refl, refl, refl, refl))
set_billing_status_tables id BillingStatus.pending_payment s ws found allowed =
    rw found (rw allowed (refl, refl, refl, refl, refl))

-- A known workspace with a move that the machine allows: the call succeeds, the row holds the new
-- billing status with the workspace status that belongs to it and is otherwise as it was, no row of
-- another id and no payment is written, the cached entitlements of the workspace are
-- gone, and the move is in the audit log.
pub set_billing_status_moves :
    (id : ℕ) (to : BillingStatus) (s : Store) (ws : Workspace)
    → find_workspace id s ≡ some ws
    → is_allowed ws.billing_status to ≡ true
    → let (r, s') = set_billing_status id to s in
      (r ≡ ok (to, workspace_status_for to))
      × (find_workspace id s' ≡ some (set_status to ws))
      × (s'.workspaces ≡ update_where (λ w. w.id == id) (set_status to) s.workspaces)
      × (s'.payments ≡ s.payments)
      × (find (λ e. e.key == id) s'.cache ≡ none)
      × (s'.audit_logs
          ≡ s.audit_logs
            ++ record { workspace_id = id; action = status_changed ws.billing_status to } ∷ [])
set_billing_status_moves id to s ws found allowed =
    let (r, rows, payments, cache, logs) = set_billing_status_tables id to s ws found allowed in
    let rest = s.workspaces in
    (
      r,
      rw rows (find-update_same (λ w. w.id) id (set_status to) rest ws (λ w. refl) found),
      rows,
      payments,
      rw cache (find-delete_same (λ e. e.key) id s.cache),
      logs,
    )

-- A call that is not such a move throws, and then nothing at all is written.
set_billing_status_rejects :
    (id : ℕ) (to : BillingStatus) (s : Store)
    → ((ws : Workspace) → find_workspace id s ≡ some ws → is_allowed ws.billing_status to ≡ false)
    → (e : Error) × (set_billing_status id to s ≡ (err e, s))
set_billing_status_rejects id to s refused = elim (Option-cases (find_workspace id s)) [
  | inl unknown ↦ (workspace_not_found, set_billing_status_unknown id to s unknown)
  | inr (ws, found) ↦
      (invalid_transition, set_billing_status_refused id to s ws found (refused ws found))
]

-- Whatever the call, agreement of the two status columns in every row is kept.
pub set_billing_status-AllAligned :
    (id : ℕ) (to : BillingStatus) (s : Store)
    → AllAligned s
    → AllAligned (set_billing_status id to s).1
set_billing_status-AllAligned id to s h = elim (Option-cases (find_workspace id s)) [
  | inl unknown ↦ rw (set_billing_status_unknown id to s unknown) h
  | inr (ws, found) ↦ elim (Bool-cases (is_allowed ws.billing_status to)) [
    | inl allowed ↦
        rw (set_billing_status_tables id to s ws found allowed).1
          (All-update_where IsAligned _ (set_status to) s.workspaces (λ w _. refl) h)
    | inr refused ↦ rw (set_billing_status_refused id to s ws found refused) h
  ]
]

-- No other workspace is touched, whatever the call.
pub set_billing_status_others :
    (id : ℕ) (to : BillingStatus) (s : Store) (j : ℕ)
    → j ≢ id
    → find_workspace j (set_billing_status id to s).1 ≡ find_workspace j s
set_billing_status_others id to s j ne = elim (Option-cases (find_workspace id s)) [
  | inl unknown ↦ rw (set_billing_status_unknown id to s unknown)
  | inr (ws, found) ↦ elim (Bool-cases (is_allowed ws.billing_status to)) [
    | inl allowed ↦
        rw (set_billing_status_tables id to s ws found allowed).1
          (find-update_other (λ w. w.id) id j (set_status to) s.workspaces (λ w. refl) ne)
    | inr refused ↦ rw (set_billing_status_refused id to s ws found refused)
  ]
]

past_due-of_active :
    (b : BillingStatus) → b ≢ BillingStatus.active → is_allowed b BillingStatus.past_due ≡ false
unfolding is_allowed
past_due-of_active BillingStatus.active h = absurd (h refl)
past_due-of_active BillingStatus.past_due h = refl
past_due-of_active BillingStatus.suspended h = refl
past_due-of_active BillingStatus.cancelled h = refl
past_due-of_active BillingStatus.pending_payment h = refl

-- A payment that is due is put back to pending, and the call then succeeds only for an active
-- workspace. For any other the retry throws, with the payment rewritten all the same and the
-- workspaces untouched: so no retry succeeds once the workspace is past due.
pub retry_latest_payment_past_due :
    (id : ℕ) (s : Store) (ws : Workspace) (p : Payment)
    → find_workspace id s ≡ some ws
    → latest_payment id s.payments ≡ some p
    → p.status ≢ PaymentStatus.paid
    → ws.billing_status ≢ BillingStatus.active
    → let (r, s') = retry_latest_payment id s in
      (r ≡ err invalid_transition)
      × (s'.workspaces ≡ s.workspaces)
      × (s'.payments
          ≡ update_where
              (λ q. q.id == p.id)
              (λ q. record q { status = PaymentStatus.pending })
              s.payments)
unfolding assert_billing_transition retry_latest_payment
retry_latest_payment_past_due id s ws p found latest unpaid inactive = rw found (
    rw latest (
      rw (==_ne p.status PaymentStatus.paid unpaid)
        (rw (past_due-of_active ws.billing_status inactive) (refl, refl, refl))))

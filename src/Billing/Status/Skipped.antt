-- ===== src/Billing/Status/Skipped.antt =====
-- What `runDunningSweep` of billing/billing.service.ts passes over.
use tomafix_backend.Prelude.{
  ℕ, ◌+◌, ◌*◌, ◌≤◌, ◌≡◌, sym, subst, >>=_ok, pure, ◌∙◌, List, [], ◌∷◌, some, All, ok, inl, inr,
  ℕ_discrete, le→leb,
}
use tomafix_backend.Billing.Store.{Store, Workspace, Payment}
use tomafix_backend.Billing.Store.Enums.{BillingStatus, billing_status_eq}
use tomafix_backend.Billing.Status.{
  is_allowed, assert_billing_transition, find_workspace, set_billing_status, day_ms, Swept, left,
  sweep_workspace, sweep_payment, SweepCounts, count, none_moved, result_of, sweep_loop,
  pending_payments, run_dunning_sweep,
}
use tomafix_backend.Billing.Status.Machine.{set_billing_status_others}
use tomafix_backend.Billing.Status.Sweep.{sweep_payment-Effect, loop_keeps}

-- A workspace that is billed normally is left alone for a payment of seven days or more.
sweep_payment_skips :
    (now : ℕ) (p : Payment) (s : Store) (ws : Workspace)
    → find_workspace p.workspace_id s ≡ some ws
    → ws.billing_status ≡ BillingStatus.active
    → p.created_at + 7 * day_ms ≤ now
    → sweep_payment now p s ≡ (ok left, s)
unfolding sweep_payment sweep_workspace assert_billing_transition is_allowed
sweep_payment_skips now p s ws found active due = rw found (rw (le→leb _ _ due) (rw active))

-- What one round does to a workspace that is billed normally, if the payment is old or another's.
round_skips :
    (now id : ℕ) (p : Payment) (s : Store) (ws : Workspace)
    → find_workspace id s ≡ some ws
    → ws.billing_status ≡ BillingStatus.active
    → (p.workspace_id ≡ id → p.created_at + 7 * day_ms ≤ now)
    → (swept : Swept) × (s' : Store) × (sweep_payment now p s ≡ (ok swept, s'))
      × (find_workspace id s' ≡ some ws)
round_skips now id p s ws found active old = elim (ℕ_discrete p.workspace_id id) [
  | yes own ↦ (
    left,
    s,
    sweep_payment_skips now p s ws (subst (λ j. find_workspace j s ≡ some ws) (sym own) found)
        active (old own),
    found,
  )
  | no foreign ↦
      let (swept, effect) = sweep_payment-Effect now p s in
      elim effect [
        | inl same ↦ (swept, s, same, found)
        | inr (to, moved) ↦ (
          swept,
          (set_billing_status p.workspace_id to s).1,
          moved,
          set_billing_status_others p.workspace_id to s id (λ e. foreign (sym e)) ∙ found,
        )
      ]
]

loop_skips :
    (now id : ℕ) (ps : List Payment) (c : SweepCounts) (s : Store) (ws : Workspace)
    → find_workspace id s ≡ some ws
    → ws.billing_status ≡ BillingStatus.active
    → All (λ p. p.workspace_id ≡ id → p.created_at + 7 * day_ms ≤ now) ps
    → find_workspace id (sweep_loop now ps c s).1 ≡ some ws
unfolding sweep_loop
loop_skips now id [] c s ws found active old = found
loop_skips now id (p ∷ ps) c s ws found active (h, old) =
    let (swept, s1, step, found1) = round_skips now id p s ws found active h in
    subst (λ out. find_workspace id out.1 ≡ some ws)
      (sym (>>=_ok (sweep_payment now p) (λ done. sweep_loop now ps (count done c)) s step))
      (loop_skips now id ps (count swept c) s1 ws found1 active old)

-- A workspace that is billed normally, and for which the sweep finds only payments that have been
-- pending for seven days or more, is left as it is, neither past due nor suspended, however old
-- they get.
pub run_dunning_sweep_skips :
    (now id : ℕ) (s : Store) (ws : Workspace)
    → find_workspace id s ≡ some ws
    → ws.billing_status ≡ BillingStatus.active
    → All (λ p. p.workspace_id ≡ id → p.created_at + 7 * day_ms ≤ now) (pending_payments s.payments)
    → find_workspace id (run_dunning_sweep now s).1 ≡ some ws
unfolding run_dunning_sweep
run_dunning_sweep_skips now id s ws found active old =
    let pending = pending_payments s.payments in
    let (counts, s', swept, _, _) =
      loop_keeps (λ _. Unit {0}) (λ _ _ _ _. tt) now pending none_moved s tt in
    subst (λ out. find_workspace id out.1 ≡ some ws)
      (sym (>>=_ok (sweep_loop now pending none_moved) (λ c. pure (result_of pending c)) s swept))
      (subst (λ out. find_workspace id out.1 ≡ some ws) swept
        (loop_skips now id pending none_moved s ws found active old))

-- ===== src/Billing/Status/Sweep.antt =====
-- The dunning sweep: `runDunningSweep` of billing/billing.service.ts.
use tomafix_backend.Prelude.{
  nat_eq, ℕ, ◌+◌, ◌*◌, ◌≤◌, true, false, not, ◌&&◌, ◌⊎◌, ◌≡◌, refl, ap, sym, subst, >>=_ok, pure,
  ◌∙◌, List, [], ◌∷◌, some, ◌==◌, leb, Result, ok, arith, Option-cases, Bool-cases, inl, inr,
  length, length-take-le, key-find,
}
use tomafix_backend.Billing.Store.{Store, Workspace, Payment, Error}
use tomafix_backend.Billing.Store.Enums.{BillingStatus, billing_status_eq}
use tomafix_backend.Billing.Status.{
  is_allowed, assert_billing_transition, find_workspace, set_billing_status, day_ms, Swept, left,
  moved_to_past_due, moved_to_suspended, move, sweep_workspace, sweep_payment, SweepCounts,
  SweepResult, count, none_moved, result_of, sweep_loop, pending_payments, run_dunning_sweep,
}
use tomafix_backend.Billing.Status.Machine.{
  AllAligned, set_billing_status-AllAligned, set_billing_status_moves,
}

-- `move` tries the transition: it is made, or nothing is written and the round goes on.
move_made :
    (ws : Workspace) (to : BillingStatus) (done : Swept) (s : Store)
    → find_workspace ws.id s ≡ some ws
    → is_allowed ws.billing_status to ≡ true
    → move ws to done s ≡ (ok done, (set_billing_status ws.id to s).1)
unfolding assert_billing_transition
move_made ws to done s found allowed =
    let moved = set_billing_status_moves ws.id to s ws found allowed in ground (arith, moved.0)

move_refused :
    (ws : Workspace) (to : BillingStatus) (done : Swept) (s : Store)
    → is_allowed ws.billing_status to ≡ false
    → move ws to done s ≡ (ok left, s)
unfolding assert_billing_transition
move_refused ws to done s refused = rw refused

-- The two ways in which a round may end: it writes nothing, or it has set a status of workspace
-- `id`.
abbrev Effect : Store → ℕ → Result Error Swept × Store → Type 0
Effect s id out =
    (swept : Swept) × ((out ≡ (ok swept, s))
      ⊎ ((to : BillingStatus) × (out ≡ (ok swept, (set_billing_status id to s).1))))

move-Effect :
    (ws : Workspace) (to : BillingStatus) (done : Swept) (s : Store)
    → find_workspace ws.id s ≡ some ws
    → Effect s ws.id (move ws to done s)
move-Effect ws to done s found = elim (Bool-cases (is_allowed ws.billing_status to)) [
  | inl allowed ↦ (done, inr (to, move_made ws to done s found allowed))
  | inr refused ↦ (left, inl (move_refused ws to done s refused))
]

sweep_workspace-Effect :
    (now : ℕ) (p : Payment) (ws : Workspace) (s : Store)
    → find_workspace ws.id s ≡ some ws
    → Effect s ws.id (sweep_workspace now p (some ws) s)
unfolding sweep_workspace
sweep_workspace-Effect now p ws s found =
    elim (Bool-cases
      (leb (p.created_at + 7 * day_ms) now && not (ws.billing_status == BillingStatus.suspended))) [
        | inl old ↦ rw old (move-Effect ws BillingStatus.suspended moved_to_suspended s found)
        | inr young ↦
            rw young
              (elim (Bool-cases (
                leb (p.created_at + 3 * day_ms) now && ws.billing_status == BillingStatus.active)) [
                  | inl due ↦
                      rw due (move-Effect ws BillingStatus.past_due moved_to_past_due s found)
                  | inr not_due ↦ rw not_due (left, inl refl)
                ])
      ]

-- A round never throws.
pub sweep_payment-Effect :
    (now : ℕ) (p : Payment) (s : Store) → Effect s p.workspace_id (sweep_payment now p s)
unfolding sweep_payment
sweep_payment-Effect now p s = elim (Option-cases (find_workspace p.workspace_id s)) [
  | inl unknown ↦ (left, inl (unfold sweep_workspace in rw unknown))
  | inr (ws, found) ↦
      let same : ws.id ≡ p.workspace_id =
        key-find (λ w. w.id) p.workspace_id s.workspaces ws found in
      rw found (
        subst (λ id. Effect s id (sweep_workspace now p (some ws) s)) same
          (sweep_workspace-Effect now p ws s
            (subst (λ id. find_workspace id s ≡ some ws) (sym same) found)))
]

-- What holds of a store and is kept by `setBillingStatus` is kept by the sweep, which never throws.
module _ (P : Store → Type 0)
    (keep : (id : ℕ) (to : BillingStatus) (s : Store)
      → P s
      → P (set_billing_status id to s).1) where
  round_keeps :
      (now : ℕ) (p : Payment) (s : Store)
      → P s
      → (swept : Swept) × (s' : Store) × (sweep_payment now p s ≡ (ok swept, s')) × P s'
  round_keeps now p s h =
      let (swept, effect) = sweep_payment-Effect now p s in
      elim effect [
        | inl same ↦ (swept, s, same, h)
        | inr (to, moved) ↦
            (swept, (set_billing_status p.workspace_id to s).1, moved, keep p.workspace_id to s h)
      ]

  pub loop_keeps :
      (now : ℕ) (ps : List Payment) (c : SweepCounts) (s : Store)
      → P s
      → (c' : SweepCounts) × (s' : Store) × (sweep_loop now ps c s ≡ (ok c', s'))
        × P s'
        × (c'.past_due + c'.suspended ≤ c.past_due + c.suspended + length ps)
  unfolding sweep_loop
  loop_keeps now [] c s h = (c, s, refl, h, omega arith)
  loop_keeps now (p ∷ ps) c s h =
      let (swept, s1, step, h1) = round_keeps now p s h in
      let (c', s', rest, h', bound) = loop_keeps now ps (count swept c) s1 h1 in
      (
        c',
        s',
        >>=_ok (sweep_payment now p) (λ done. sweep_loop now ps (count done c)) s step ∙ rest,
        h',
        ground (arith, bound),
      )

-- The sweep of any store returns; it reads 500 payments at most, and moves no more workspaces than it
-- read payments.
pub run_dunning_sweep_lem :
    (now : ℕ) (s : Store)
    → (result : SweepResult) × ((run_dunning_sweep now s).0 ≡ ok result)
      × (result.scanned ≤ 500)
      × (result.moved_to_past_due + result.moved_to_suspended ≤ result.scanned)
unfolding run_dunning_sweep
run_dunning_sweep_lem now s =
    let pending = pending_payments s.payments in
    let (counts, s', swept, _, bound) =
      loop_keeps (λ _. Unit) (λ _ _ _ _. tt) now pending none_moved s tt in
    (
      result_of pending counts,
      ap (λ out. out.0)
          (>>=_ok (sweep_loop now pending none_moved) (λ c. pure (result_of pending c)) s swept),
      length-take-le 500 _,
      omega (arith, bound),
    )

-- If the two status columns of every workspace agree, then they do after a sweep.
pub run_dunning_sweep-AllAligned :
    (now : ℕ) (s : Store) → AllAligned s → AllAligned (run_dunning_sweep now s).1
unfolding run_dunning_sweep
run_dunning_sweep-AllAligned now s h =
    let pending = pending_payments s.payments in
    let (counts, s', swept, h', _) =
      loop_keeps AllAligned set_billing_status-AllAligned now pending none_moved s h in
    subst AllAligned
      (sym (
        ap (λ out. out.1)
          (>>=_ok (sweep_loop now pending none_moved) (λ c. pure (result_of pending c)) s swept)))
      h'

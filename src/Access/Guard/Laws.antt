-- ===== src/Access/Guard/Laws.antt =====
-- Who enters a workspace, and what becomes of one whose renewal has passed.
use tomafix_backend.Prelude.{
  ◌==◌, nat_eq, update_where, update_where, ◌==◌, nat_eq, >>=_ok, or_throw, ℕ, ◌+◌, ◌-◌, ◌*◌, ◌≤◌,
  ◌<◌, ◌≡◌, refl, ap, ◌∙◌, true, false, Option, none, some, Text, nat_eq, lt→leb_false, le→leb,
  if◌then◌else◌, find-update_same, ok, ◌>>=◌, pure, arith,
}
use tomafix_backend.Billing.Store.{Store, Workspace, Member}
use tomafix_backend.Billing.Store.Enums.{
  WorkspaceStatus, workspace_status_eq, BillingStatus, billing_status_eq,
}
use tomafix_backend.Billing.Status.{find_workspace, day_ms}
use tomafix_backend.Access.Guard.{
  activate_for, Request, Grace, AccessError, Entry, find_membership, may_enter_as,
  assert_workspace_access, is_billing_route, is_locked_status, forward_slashes,
  relax_guards_for_local, grace_period_days, expired_active, grace_of, lapse, settle_expiry,
  is_permitted, decide, enter, can_activate,
}

-- The days that are left are rounded up, within the grace period.
grace_days :
    (now renewal : ℕ)
    → renewal ≤ now
    → now ≤ renewal + grace_period_days * day_ms
    → (1 ≤ (grace_of now renewal).days_left)
      × ((grace_of now renewal).days_left ≤ grace_period_days)
grace_days now renewal passed early = (ground arith, omega (arith, early))

expired_active_lem :
    (now renewal : ℕ) (ws : Workspace)
    → ws.status ≡ WorkspaceStatus.active
    → ws.next_renewal ≡ some renewal
    → renewal ≤ now
    → expired_active now ws ≡ some renewal
expired_active_lem now renewal ws active renews passed =
    rw renews (rw (le→leb renewal now passed) (rw active refl))

-- What the billing of a workspace is after its grace, and the row of one that waits for payment.
abbrev pub owed : BillingStatus → BillingStatus
owed BillingStatus.active = BillingStatus.past_due
owed BillingStatus.past_due = BillingStatus.past_due
owed BillingStatus.suspended = BillingStatus.past_due
owed BillingStatus.cancelled = BillingStatus.cancelled
owed BillingStatus.pending_payment = BillingStatus.past_due

abbrev pub waiting : Workspace → Workspace
waiting w = record w {
  status = WorkspaceStatus.pending_payment;
  billing_status = owed w.billing_status;
}

owed_lem :
    (b : BillingStatus)
    → (if b == BillingStatus.cancelled then BillingStatus.cancelled else BillingStatus.past_due)
      ≡ owed b
owed_lem BillingStatus.active = refl
owed_lem BillingStatus.past_due = refl
owed_lem BillingStatus.suspended = refl
owed_lem BillingStatus.cancelled = refl
owed_lem BillingStatus.pending_payment = refl

lapse-eq-waiting : (w : Workspace) → lapse w ≡ waiting w
lapse-eq-waiting w =
    ap (λ b. record w { status = WorkspaceStatus.pending_payment; billing_status = b })
      (owed_lem w.billing_status)

module _ (node_env local_relax_guards : Text) (now user id renewal : ℕ) (req : Request) (s : Store)
    (member : Member) (ws : Workspace)
    (strict : relax_guards_for_local node_env local_relax_guards ≡ false)
    (of_user : req.user_id ≡ some user) (of_workspace : req.workspace_id ≡ some id)
    (belongs : find_membership user id s ≡ some member) (found : find_workspace id s ≡ some ws)
    (in_role : may_enter_as req.allowed_roles member.role ≡ true)
    (active : ws.status ≡ WorkspaceStatus.active) (renews : ws.next_renewal ≡ some renewal)
    (passed : renewal ≤ now) where
  assert_ok : assert_workspace_access user id req.allowed_roles s ≡ (ok (member, ws), s)
  assert_ok = rw belongs (
      rw found
        (rw in_role (ap (λ o. pure (member, ws) (or_throw AccessError.no_access o s).1) found)))

  can_activate-eq-settle :
      can_activate node_env local_relax_guards now req s
      ≡ (settle_expiry now id ws (some renewal) >>= λ seen. pure (decide req member seen)) s
  unfolding can_activate
  can_activate-eq-settle =
      ap (λ o. activate_for node_env local_relax_guards now req o req.user_id s) of_workspace
      ∙ ap (λ o. activate_for node_env local_relax_guards now req (some id) o s) of_user
      ∙ >>=_ok (assert_workspace_access user id req.allowed_roles)
          (enter node_env local_relax_guards now req id) s assert_ok
      ∙ ap
          (λ b.
            (if b
                then pure (Entry.entered member ws none)
                else settle_expiry now id ws (expired_active now ws) >>= λ seen.
                    pure (decide req member seen))
              s)
          strict
      ∙ ap (λ o. (settle_expiry now id ws o >>= λ seen. pure (decide req member seen)) s)
          (expired_active_lem now renewal ws active renews passed)

  decide_permitted :
      (grace : Option Grace)
      → is_permitted req.permission member ws ≡ true
      → decide req member (ws, grace) ≡ Entry.entered member ws grace
  decide_permitted grace permitted =
      let unlocked : is_locked_status ws.status ≡ false = ap is_locked_status active in
      rw unlocked (rw permitted refl)

  -- In the five days after its renewal an active workspace stays open to the members that are
  -- permitted, with at least one day and at most five days left, and nothing is written.
  pub can_activate_in_grace :
      now ≤ renewal + grace_period_days * day_ms
      → is_permitted req.permission member ws ≡ true
      → (can_activate node_env local_relax_guards now req s
          ≡ (ok (Entry.entered member ws (some (grace_of now renewal))), s))
        × (1 ≤ (grace_of now renewal).days_left)
        × ((grace_of now renewal).days_left ≤ grace_period_days)
  can_activate_in_grace early permitted =
      let in_time : now - renewal ≤ grace_period_days * day_ms = omega (arith, early, passed) in
      let (least, most) = grace_days now renewal passed early in
      rw can_activate-eq-settle (
        rw (le→leb (now - renewal) (grace_period_days * day_ms) in_time)
            (ap (λ r. (ok r, s)) (decide_permitted _ permitted)),
        least,
        most,
      )

  -- Where the guards are not relaxed, more than five days after its renewal an active workspace is
  -- closed to a member whose role may enter on every route but those of billing, and its row in the table then waits for payment in the one status
  -- and is past due in the other, unless it was cancelled there; nothing else is changed of it, and
  -- no row of another id is changed.
  pub can_activate_lapses :
      renewal + grace_period_days * day_ms < now
      → is_billing_route (forward_slashes req.path) ≡ false
      → let (r, s') = can_activate node_env local_relax_guards now req s in
        (r ≡ ok Entry.refused)
        × (find_workspace id s' ≡ some (waiting ws))
        × (s'.workspaces ≡ update_where (λ w. w.id == id) waiting s.workspaces)
  can_activate_lapses late elsewhere =
      let over : grace_period_days * day_ms < now - renewal = omega (arith, late) in
      rw can_activate-eq-settle (
        rw (lt→leb_false (now - renewal) (grace_period_days * day_ms) over) (
          rw elsewhere refl,
          find-update_same (λ w. w.id) id lapse s.workspaces ws (λ _. refl) found
              ∙ ap some (lapse-eq-waiting ws),
          λ i. update_where (λ w. w.id == id) (λ w. lapse-eq-waiting w i) s.workspaces,
        ))

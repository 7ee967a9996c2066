-- ===== src/Billing/Status.antt =====
-- billing/billing.service.ts: the billing state machine, setBillingStatus, retryLatestPayment and
-- the dunning sweep. `now` is the time that a handler reads from the clock.

pub mod Machine
pub mod Sweep
pub mod Skipped
use tomafix_backend.Prelude.{
  ℕ, ◌+◌, ◌*◌, Bool, not, ◌&&◌, ◌||◌, List, [], ◌∷◌, ◌++◌, Option, none, some, Text, ◌==◌, nat_eq,
  leb, if◌then◌else◌, find, update_where, delete_where, filter_rows, length, take, sort_by, ok,
  Action, ◌>>=◌, ◌>>◌, pure, gets, throw_if, or_throw, catch,
}
use tomafix_backend.Billing.Store.{
  Store, Workspace, Payment, Error, workspace_not_found, invalid_transition, no_payment_to_retry,
  status_changed, retry_requested, billing_past_due, workspace_suspended, NoticeKind, AuditAction,
}
use tomafix_backend.Billing.Store.Enums.{
  WorkspaceStatus, BillingStatus, PaymentStatus, billing_status_eq, payment_status_eq,
}

-- `allowed[from]?.includes(to)`
unfoldable pub is_allowed : BillingStatus → BillingStatus → Bool
is_allowed BillingStatus.active to = to == BillingStatus.past_due || to == BillingStatus.cancelled
is_allowed BillingStatus.past_due to =
    to == BillingStatus.active || to == BillingStatus.suspended || to == BillingStatus.cancelled
is_allowed BillingStatus.suspended to = to == BillingStatus.active || to == BillingStatus.cancelled
is_allowed BillingStatus.cancelled to = to == BillingStatus.active
is_allowed BillingStatus.pending_payment to =
    to == BillingStatus.active || to == BillingStatus.cancelled

unfoldable pub assert_billing_transition :
    BillingStatus → BillingStatus → Action Store Error (Unit {0})
assert_billing_transition from to = throw_if (not (is_allowed from to)) invalid_transition

unfoldable pub workspace_status_for : BillingStatus → WorkspaceStatus
workspace_status_for BillingStatus.suspended = WorkspaceStatus.suspended
workspace_status_for BillingStatus.cancelled = WorkspaceStatus.suspended
workspace_status_for BillingStatus.past_due = WorkspaceStatus.pending_payment
workspace_status_for BillingStatus.pending_payment = WorkspaceStatus.pending_payment
workspace_status_for BillingStatus.active = WorkspaceStatus.active

-- `workspace.findUnique({ where: { id } })`
abbrev pub find_workspace : ℕ → Store → Option Workspace
find_workspace id s = find (λ w. w.id == id) s.workspaces

-- `workspace.update({ where: { id }, data })`
abbrev pub update_workspace : ℕ → (Workspace → Workspace) → Action Store Error (Unit {0})
update_workspace id f s =
    (ok tt, record s { workspaces = update_where (λ w. w.id == id) f s.workspaces })

-- `cacheBust(`billing:entitlements:${id}`)`
abbrev pub cache_bust : ℕ → Action Store Error (Unit {0})
cache_bust id s = (ok tt, record s { cache = delete_where (λ e. e.key == id) s.cache })

abbrev pub create_audit_log : ℕ → AuditAction → Action Store Error (Unit {0})
create_audit_log id action s = (
  ok tt,
  record s { audit_logs = s.audit_logs ++ record { workspace_id = id; action = action } ∷ [] },
)

-- The notice of `setBillingStatus`; a failure of its insertion would be swallowed.
abbrev notice_for : BillingStatus → Option NoticeKind
notice_for BillingStatus.past_due = some billing_past_due
notice_for BillingStatus.suspended = some workspace_suspended
notice_for _ = none

abbrev create_notice : Workspace → Option NoticeKind → Action Store Error (Unit {0})
create_notice ws none s = (ok tt, s)
create_notice ws (some kind) s = (
  ok tt,
  record s {
    notices =
        s.notices ++ record { table = ws.template_type; workspace_id = ws.id; kind = kind } ∷ [];
  },
)

-- `setBillingStatus`; the answer is the pair of the new statuses.
unfoldable pub set_billing_status :
    ℕ → BillingStatus → Action Store Error (BillingStatus × WorkspaceStatus)
unfolding is_allowed assert_billing_transition workspace_status_for
set_billing_status id to = do
  found ← gets (find_workspace id)
  ws ← or_throw workspace_not_found found
  assert_billing_transition ws.billing_status to
  update_workspace id (λ w. record w { billing_status = to; status = workspace_status_for to })
  cache_bust id
  create_audit_log id (status_changed ws.billing_status to)
  create_notice ws (notice_for to)
  pure (to, workspace_status_for to)

-- `payment.findFirst({ where: { workspaceId }, orderBy: { createdAt: 'desc' } })`: of the rows of
-- the workspace one that no other was created after.
later : Payment → Option Payment → Option Payment
later p none = some p
later p (some q) = if leb q.created_at p.created_at then some p else some q

unfoldable pub latest_payment : ℕ → List Payment → Option Payment
unfolding later
latest_payment id [] = none
latest_payment id (p ∷ ps) =
    let rest = latest_payment id ps in if p.workspace_id == id then later p rest else rest

abbrev pub update_payment : (Payment → Bool) → (Payment → Payment) → Action Store Error (Unit {0})
update_payment where_ f s = (ok tt, record s { payments = update_where where_ f s.payments })

-- The answers of `retryLatestPayment`, with the reference of the payment.
pub data Retry : Type 0 where
  already_paid retried : Text → Retry

abbrev retry_payment : ℕ → Workspace → Payment → Action Store Error Retry
retry_payment id ws latest = do
  update_payment (λ p. p.id == latest.id) (λ p. record p { status = PaymentStatus.pending })
  assert_billing_transition ws.billing_status BillingStatus.past_due
  update_workspace id (λ w. record w {
    billing_status = BillingStatus.past_due;
    status = workspace_status_for BillingStatus.past_due;
  })
  cache_bust id
  create_audit_log id (retry_requested latest.reference)
  pure (retried latest.reference)

unfoldable pub retry_latest_payment : ℕ → Action Store Error Retry
unfolding is_allowed assert_billing_transition workspace_status_for
retry_latest_payment id = do
  found ← gets (find_workspace id)
  ws ← or_throw workspace_not_found found
  payment ← gets (λ s. latest_payment id s.payments)
  latest ← or_throw no_payment_to_retry payment
  if latest.status == PaymentStatus.paid
      then pure (already_paid latest.reference)
      else retry_payment id ws latest

-- What the sweep did with one payment.
pub data Swept : Type 0 where
  left moved_to_past_due moved_to_suspended : Swept

abbrev pub day_ms : ℕ
day_ms = 86400000

-- `try { assertBillingTransition(…); await setBillingStatus(…); counter += 1 } catch {}`
abbrev pub move : Workspace → BillingStatus → Swept → Action Store Error Swept
move ws to done =
    catch
      (do assert_billing_transition ws.billing_status to; set_billing_status ws.id to; pure done)
      (λ _. pure left)

-- One round of the sweep's loop. The cutoffs are compared as ages of the payment.
unfoldable pub sweep_workspace : ℕ → Payment → Option Workspace → Action Store Error Swept
unfolding set_billing_status
sweep_workspace now p none = pure left
sweep_workspace now p (some ws) =
    if leb (p.created_at + 7 * day_ms) now && not (ws.billing_status == BillingStatus.suspended)
    then move ws BillingStatus.suspended moved_to_suspended
    else if leb (p.created_at + 3 * day_ms) now && ws.billing_status == BillingStatus.active
    then move ws BillingStatus.past_due moved_to_past_due
    else pure left

unfoldable pub sweep_payment : ℕ → Payment → Action Store Error Swept
sweep_payment now p = do found ← gets (find_workspace p.workspace_id); sweep_workspace now p found

pub record SweepCounts : Type 0 where
  pub past_due : ℕ
  pub suspended : ℕ

abbrev pub count : Swept → SweepCounts → SweepCounts
count left c = c
count moved_to_past_due c = record c { past_due = c.past_due + 1 }
count moved_to_suspended c = record c { suspended = c.suspended + 1 }

unfoldable pub sweep_loop : ℕ → List Payment → SweepCounts → Action Store Error SweepCounts
sweep_loop now [] c = pure c
sweep_loop now (p ∷ ps) c = sweep_payment now p >>= λ swept. sweep_loop now ps (count swept c)

-- The pending payments, oldest first, 500 at most.
unfoldable pub pending_payments : List Payment → List Payment
pending_payments ps =
    take 500 (sort_by (λ p. p.created_at) (filter_rows (λ p. p.status == PaymentStatus.pending) ps))

pub record SweepResult : Type 0 where
  pub scanned : ℕ
  pub moved_to_past_due : ℕ
  pub moved_to_suspended : ℕ

abbrev pub none_moved : SweepCounts
none_moved = record { past_due = 0; suspended = 0 }

abbrev pub result_of : List Payment → SweepCounts → SweepResult
result_of pending c = record {
  scanned = length pending;
  moved_to_past_due = c.past_due;
  moved_to_suspended = c.suspended;
}

unfoldable pub run_dunning_sweep : ℕ → Action Store Error SweepResult
unfolding sweep_payment sweep_loop pending_payments
run_dunning_sweep now = do
  pending ← gets (λ s. pending_payments s.payments)
  counts ← sweep_loop now pending none_moved
  pure (result_of pending counts)

-- ===== src/Access/Guard.antt =====
-- auth/workspace-access.guard.ts, with assertWorkspaceAccess of auth/auth.service.ts: whether a
-- request may enter a workspace. The environment of the process and what the decorators of the
-- handler say are arguments; `now` is the time of the request.
pub mod Laws
use tomafix_backend.Prelude.{
  ℕ, ◌+◌, ◌-◌, ◌*◌, ◌/◌, max, Bool, true, false, not, ◌&&◌, ◌||◌, List, [], ◌∷◌, ◌++◌, Option, none,
  some, Text, codes, lower, starts_with, map, ◌==◌, nat_eq, list_eq, leb, if◌then◌else◌, find,
  update_where, Action, ◌>>=◌, ◌>>◌, pure, gets, modify, throw_if, or_throw,
}
use tomafix_backend.Billing.Store.{Store, Workspace, Member}
use tomafix_backend.Billing.Store.Enums.{
  WorkspaceStatus, workspace_status_eq, BillingStatus, billing_status_eq, MemberRole, role_eq,
}
use tomafix_backend.Billing.Status.{find_workspace, day_ms}
use tomafix_backend.Access.Permissions.{PermissionKey, has_permission}

-- The two `UnauthorizedException`s.
pub data AccessError : Type 0 where
  no_access insufficient_role : AccessError

-- What the request and the metadata of its handler say. The roles are empty where there are none.
pub record Request : Type 0 where
  pub user_id : Option ℕ
  pub workspace_id : Option ℕ
  pub allowed_roles : List MemberRole
  pub permission : Option PermissionKey
  pub path : Text

-- `billingGrace`
pub record Grace : Type 0 where
  pub days_left : ℕ
  pub ends_at : ℕ

-- `canActivate` returns false, or true with the membership as the context of the request.
pub data Entry : Type 0 where
  refused : Entry
  entered : Member → Workspace → Option Grace → Entry

abbrev pub has_role : List MemberRole → MemberRole → Bool
has_role [] role = false
has_role (r ∷ rs) role = r == role || has_role rs role

abbrev pub may_enter_as : List MemberRole → MemberRole → Bool
may_enter_as [] role = true
may_enter_as (r ∷ rs) role = has_role (r ∷ rs) role

abbrev pub find_membership : ℕ → ℕ → Store → Option Member
find_membership user id s =
    find (λ m. m.user_id == user && m.workspace_id == id && m.is_active) s.members

-- `assertWorkspaceAccess`. The workspace comes with the membership: a foreign key says that it is
-- there, and without it there is no membership.
abbrev pub assert_workspace_access :
    ℕ → ℕ → List MemberRole → Action Store AccessError (Member × Workspace)
assert_workspace_access user id roles = do
  found ← gets (find_membership user id)
  member ← or_throw AccessError.no_access found
  row ← gets (find_workspace id)
  ws ← or_throw AccessError.no_access row
  throw_if (not (may_enter_as roles member.role)) AccessError.insufficient_role
  pure (member, ws)

-- `/\/billing\//.test(path)`
abbrev pub contains : Text → Text → Bool
contains part [] = starts_with [] part
contains part (c ∷ path) = starts_with (c ∷ path) part || contains part path

abbrev pub is_billing_route : Text → Bool
is_billing_route path = contains (codes "/billing/") path

abbrev pub is_locked_status : WorkspaceStatus → Bool
is_locked_status status =
    status == WorkspaceStatus.pending_payment || status == WorkspaceStatus.suspended

-- `.replace(/\\/g, '/')`
abbrev pub forward_slashes : Text → Text
forward_slashes path = map (λ c. if c == 92 then 47 else c) path

-- `NODE_ENV` is not `production`, and `LOCAL_RELAX_GUARDS` is `true`.
abbrev pub relax_guards_for_local : Text → Text → Bool
relax_guards_for_local node_env local_relax_guards =
    not (lower node_env == codes "production") && lower local_relax_guards == codes "true"

abbrev pub grace_period_days : ℕ
grace_period_days = 5

-- The renewal that an active workspace has passed.
abbrev pub expired_active : ℕ → Workspace → Option ℕ
expired_active now ws = elim ws.next_renewal [
  | none ↦ none
  | some renewal ↦
      if leb renewal now && ws.status == WorkspaceStatus.active then some renewal else none
]

-- `{ daysLeft, gracePeriodEndsAt }`; the days are rounded up.
abbrev pub grace_of : ℕ → ℕ → Grace
grace_of now renewal = record {
  days_left = max 1 ((grace_period_days * day_ms - (now - renewal) + (day_ms - 1)) / day_ms);
  ends_at = renewal + grace_period_days * day_ms;
}

-- The columns that are written when the grace period is over.
abbrev pub lapse : Workspace → Workspace
lapse w = record w {
  status = WorkspaceStatus.pending_payment;
  billing_status =
      if w.billing_status == BillingStatus.cancelled
      then BillingStatus.cancelled
      else BillingStatus.past_due;
}

-- The workspace as the rest of the guard sees it, with the grace that is left.
abbrev pub settle_expiry :
    ℕ → ℕ → Workspace → Option ℕ → Action Store AccessError (Workspace × Option Grace)
settle_expiry now id ws none = pure (ws, none)
settle_expiry now id ws (some renewal) =
    if leb (now - renewal) (grace_period_days * day_ms)
    then pure (ws, some (grace_of now renewal))
    else modify (λ s. record s { workspaces = update_where (λ w. w.id == id) lapse s.workspaces })
      >> pure (lapse ws, none)

-- The permission that the handler asks for, if it does.
abbrev pub is_permitted : Option PermissionKey → Member → Workspace → Bool
is_permitted none member ws = true
is_permitted (some permission) member ws =
    has_permission ws.template_type member.role permission ws.permission_policy

abbrev pub decide : Request → Member → Workspace × Option Grace → Entry
decide req member (ws, grace) =
    if is_locked_status ws.status && not (is_billing_route (forward_slashes req.path))
    then Entry.refused
    else if not (is_permitted req.permission member ws)
    then Entry.refused
    else Entry.entered member ws grace

abbrev pub enter :
    Text → Text → ℕ → Request → ℕ → Member × Workspace → Action Store AccessError Entry
enter node_env local_relax_guards now req id (member, ws) =
    if relax_guards_for_local node_env local_relax_guards
    then pure (Entry.entered member ws none)
    else settle_expiry now id ws (expired_active now ws) >>= λ seen. pure (decide req member seen)

abbrev pub activate_for :
    Text → Text → ℕ → Request → Option ℕ → Option ℕ → Action Store AccessError Entry
activate_for node_env local_relax_guards now req none user = pure Entry.refused
activate_for node_env local_relax_guards now req (some id) none = pure Entry.refused
activate_for node_env local_relax_guards now req (some id) (some user) =
    assert_workspace_access user id req.allowed_roles
    >>= enter node_env local_relax_guards now req id

-- `canActivate`
unfoldable pub can_activate : Text → Text → ℕ → Request → Action Store AccessError Entry
can_activate node_env local_relax_guards now req =
    activate_for node_env local_relax_guards now req req.workspace_id req.user_id

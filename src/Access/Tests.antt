-- ===== src/Access/Tests.antt =====
-- The permissions and the guard at the test store of billing.
use tomafix_backend.Prelude.{
  if◌then◌else◌, ◌*◌, ◌≤◌, ◌≡◌, ◌⊎◌, ◌↔◌, refl, true, false, none, some, ok, ◌==◌, nat_eq, inl,
  codes, or_else, [], update_where, arith, lower, starts_with,
}
use tomafix_backend.Billing.Plans.{TemplateType}
use tomafix_backend.Billing.Store.{Member}
use tomafix_backend.Billing.Store.Enums.{MemberRole, role_eq, WorkspaceStatus, BillingStatus}
use tomafix_backend.Billing.Status.{find_workspace, day_ms}
use tomafix_backend.Billing.Tests.{active_office, active_store}
use tomafix_backend.Access.Permissions.{
  PermissionKey, permission_eq, PermissionPolicy, has_permission,
}
use tomafix_backend.Access.Permissions.Laws.{has_permission_hard_rules, has_permission_policy}
use tomafix_backend.Access.Guard.{Request, Entry, grace_of, grace_period_days, can_activate}
use tomafix_backend.Access.Guard.Laws.{waiting, can_activate_in_grace, can_activate_lapses}

-- A policy that lets nobody see the dashboard, and says nothing else.
abbrev policy : PermissionPolicy
policy role permission = if permission == PermissionKey.dashboard_view then some false else none

has_permission_hard_rules_example :
    ((has_permission TemplateType.office MemberRole.manager PermissionKey.users_manage (some policy)
        ≡ true)
      ↔ ((MemberRole.manager ≡ MemberRole.owner_admin) ⊎ (MemberRole.manager ≡ MemberRole.manager)))
    × (has_permission TemplateType.office MemberRole.staff PermissionKey.units_manage (some policy)
        ≡ false)
has_permission_hard_rules_example =
    has_permission_hard_rules TemplateType.office MemberRole.manager (some policy)

has_permission_policy_example :
    has_permission TemplateType.office MemberRole.staff PermissionKey.dashboard_view (some policy)
    ≡ or_else
        (policy MemberRole.staff PermissionKey.dashboard_view)
        (has_permission TemplateType.office MemberRole.staff PermissionKey.dashboard_view none)
has_permission_policy_example =
    has_permission_policy TemplateType.office MemberRole.staff PermissionKey.dashboard_view policy
      (λ e. cc e) (inl (λ e. cc e))

abbrev staff_member : Member
staff_member = record {
  id = 3;
  user_id = 4;
  workspace_id = 1;
  role = MemberRole.staff;
  is_active = true;
}

abbrev view_units : Request
view_units = record {
  user_id = some 4;
  workspace_id = some 1;
  allowed_roles = [];
  permission = some PermissionKey.units_view;
  path = codes "/u";
}

can_activate_in_grace_example :
    (can_activate (codes "production") [] (31 * day_ms) view_units active_store ≡ (
      ok (Entry.entered staff_member active_office (some (grace_of (31 * day_ms) (30 * day_ms)))),
      active_store,
    ))
    × (1 ≤ (grace_of (31 * day_ms) (30 * day_ms)).days_left)
    × ((grace_of (31 * day_ms) (30 * day_ms)).days_left ≤ grace_period_days)
unfolding lower has_permission
can_activate_in_grace_example =
    can_activate_in_grace (codes "production") [] (31 * day_ms) 4 1 (30 * day_ms) view_units
      active_store staff_member active_office refl refl refl refl refl refl refl refl (omega arith)
      (omega arith) refl

can_activate_lapses_example :
    let (r, s') = can_activate (codes "production") [] (36 * day_ms) view_units active_store in
    (r ≡ ok Entry.refused)
    × (find_workspace 1 s'
        ≡ some (record active_office {
          status = WorkspaceStatus.pending_payment;
          billing_status = BillingStatus.past_due;
        }))
    × (s'.workspaces ≡ update_where (λ w. w.id == 1) waiting active_store.workspaces)
unfolding lower starts_with
can_activate_lapses_example =
    can_activate_lapses (codes "production") [] (36 * day_ms) 4 1 (30 * day_ms) view_units
      active_store staff_member active_office refl refl refl refl refl refl refl refl (omega arith)
      (omega arith) refl

-- ===== src/Access/Permissions/Laws.antt =====
-- The rules that no policy overrides, and what a policy decides.
use tomafix_backend.Prelude.{
  or_else, Bool-cases, ◌≡◌, ◌≢◌, ◌↔◌, ◌⊎◌, refl, Bool, true, false, ◌&&◌, ◌||◌, Option, none, some,
  ◌==◌, ==_ne, nat_eq, inl, inr, arith,
}
use tomafix_backend.Billing.Plans.{TemplateType}
use tomafix_backend.Billing.Store.Enums.{MemberRole, role_eq}
use tomafix_backend.Access.Permissions.{
  answer_or_base, default_policy_for, all_permissions, PermissionKey, permission_eq,
  PermissionPolicy, includes, base_by_role, has_permission,
}

not_managed :
    (role : MemberRole)
    → role ≢ MemberRole.owner_admin
    → role ≢ MemberRole.manager
    → (false ≡ true) ↔ ((role ≡ MemberRole.owner_admin) ⊎ (role ≡ MemberRole.manager))
not_managed role not_owner not_manager = (
  λ h. absurd (cc h),
  λ h. elim h [ inl e ↦ absurd (not_owner e) | inr e ↦ absurd (not_manager e) ],
)

-- Whatever the policy of the workspace says, its members are managed by owners and managers and by
-- nobody else, and staff never manages units.
pub has_permission_hard_rules :
    (template : TemplateType) (role : MemberRole) (policy : Option PermissionPolicy)
    → ((has_permission template role PermissionKey.users_manage policy ≡ true)
        ↔ ((role ≡ MemberRole.owner_admin) ⊎ (role ≡ MemberRole.manager)))
      × (has_permission template MemberRole.staff PermissionKey.units_manage policy ≡ false)
unfolding has_permission
has_permission_hard_rules template MemberRole.owner_admin policy =
    ((λ h. inl refl, λ h. refl), refl)
has_permission_hard_rules template MemberRole.manager policy = ((λ h. inr refl, λ h. refl), refl)
has_permission_hard_rules template MemberRole.technician policy =
    (not_managed MemberRole.technician (λ e. cc e) (λ e. cc e), refl)
has_permission_hard_rules template MemberRole.guard policy =
    (not_managed MemberRole.guard (λ e. cc e) (λ e. cc e), refl)
has_permission_hard_rules template MemberRole.resident policy =
    (not_managed MemberRole.resident (λ e. cc e) (λ e. cc e), refl)
has_permission_hard_rules template MemberRole.staff policy =
    (not_managed MemberRole.staff (λ e. cc e) (λ e. cc e), refl)

-- Without a policy a role has the permissions of its list, and a manager also manages members.
has_permission_base :
    (template : TemplateType) (role : MemberRole) (permission : PermissionKey)
    → has_permission template role permission none ≡ (
        includes (base_by_role role) permission
        || (role == MemberRole.manager && permission == PermissionKey.users_manage))
unfolding has_permission
has_permission_base template MemberRole.owner_admin permission = ground (arith)
has_permission_base template MemberRole.manager permission = ground (arith)
has_permission_base template MemberRole.technician permission = ground (arith)
has_permission_base template MemberRole.guard permission = ground (arith)
has_permission_base template MemberRole.resident permission = ground (arith)
has_permission_base template MemberRole.staff permission = ground (arith)

not_restricted :
    (role : MemberRole) (permission : PermissionKey)
    → (permission ≢ PermissionKey.units_manage) ⊎ (role ≢ MemberRole.staff)
    → (permission == PermissionKey.units_manage && role == MemberRole.staff) ≡ false
not_restricted role permission (inl other) =
    rw (==_ne permission PermissionKey.units_manage other) refl
not_restricted role permission (inr other) =
    rw (==_ne role MemberRole.staff other)
      (elim (Bool-cases (permission == PermissionKey.units_manage)) [
        | inl t ↦ rw t refl
        | inr f ↦ rw f refl
      ])

entry_or_base :
    (template : TemplateType) (role : MemberRole) (permission : PermissionKey) (entry : Option Bool)
    → answer_or_base role permission entry
      ≡ or_else entry (answer_or_base role permission (default_policy_for template role permission))
entry_or_base template role permission (some b) = refl
entry_or_base template role permission none =
    elim (Bool-cases (includes all_permissions permission)) [
      | inl t ↦ rw t refl
      | inr f ↦ rw f refl
    ]

-- Outside the two hard rules, an entry of the policy decides, and a role without an entry keeps
-- what it has without a policy.
pub has_permission_policy :
    (template : TemplateType) (role : MemberRole) (permission : PermissionKey)
    (policy : PermissionPolicy)
    → permission ≢ PermissionKey.users_manage
    → (permission ≢ PermissionKey.units_manage) ⊎ (role ≢ MemberRole.staff)
    → has_permission template role permission (some policy)
      ≡ or_else (policy role permission) (has_permission template role permission none)
unfolding has_permission
has_permission_policy template role permission policy not_users allowed =
    rw (==_ne permission PermissionKey.users_manage not_users) (
      rw (not_restricted role permission allowed)
        (entry_or_base template role permission (policy role permission)))

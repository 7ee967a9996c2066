-- ===== src/Access/Permissions.antt =====
-- auth/permissions.ts: the permissions of each role, and the policy of a workspace over them.
pub mod Laws
use tomafix_backend.Prelude.{
  ℕ, ◌≡◌, refl, Bool, true, false, ◌||◌, ◌&&◌, List, [], ◌∷◌, Option, none, some, nat_eq, Eq, ◌==◌,
  place_beq, place_beq_iff, Lists, if◌then◌else◌,
}
use tomafix_backend.Billing.Plans.{TemplateType}
use tomafix_backend.Billing.Store.Enums.{MemberRole, role_eq}

pub data PermissionKey : Type 0 where
  dashboard_view units_view units_manage residents_view residents_manage : PermissionKey
  requests_view requests_create notices_view notices_manage inspections_view : PermissionKey
  inspections_manage users_manage visitors_view visitors_manage : PermissionKey

abbrev pub permission_place : PermissionKey → ℕ
permission_place PermissionKey.dashboard_view = 0
permission_place PermissionKey.units_view = 1
permission_place PermissionKey.units_manage = 2
permission_place PermissionKey.residents_view = 3
permission_place PermissionKey.residents_manage = 4
permission_place PermissionKey.requests_view = 5
permission_place PermissionKey.requests_create = 6
permission_place PermissionKey.notices_view = 7
permission_place PermissionKey.notices_manage = 8
permission_place PermissionKey.inspections_view = 9
permission_place PermissionKey.inspections_manage = 10
permission_place PermissionKey.users_manage = 11
permission_place PermissionKey.visitors_view = 12
permission_place PermissionKey.visitors_manage = 13

-- `ALL_PERMISSIONS`
abbrev pub all_permissions : List PermissionKey
all_permissions =
    PermissionKey.dashboard_view ∷ PermissionKey.units_view ∷ PermissionKey.units_manage
    ∷ PermissionKey.residents_view ∷ PermissionKey.residents_manage ∷ PermissionKey.requests_view
    ∷ PermissionKey.requests_create ∷ PermissionKey.notices_view ∷ PermissionKey.notices_manage
    ∷ PermissionKey.inspections_view ∷ PermissionKey.inspections_manage ∷ PermissionKey.users_manage
    ∷ PermissionKey.visitors_view ∷ PermissionKey.visitors_manage ∷ []

pub Lists-all_permissions : Lists permission_place all_permissions
Lists-all_permissions PermissionKey.dashboard_view = refl
Lists-all_permissions PermissionKey.units_view = refl
Lists-all_permissions PermissionKey.units_manage = refl
Lists-all_permissions PermissionKey.residents_view = refl
Lists-all_permissions PermissionKey.residents_manage = refl
Lists-all_permissions PermissionKey.requests_view = refl
Lists-all_permissions PermissionKey.requests_create = refl
Lists-all_permissions PermissionKey.notices_view = refl
Lists-all_permissions PermissionKey.notices_manage = refl
Lists-all_permissions PermissionKey.inspections_view = refl
Lists-all_permissions PermissionKey.inspections_manage = refl
Lists-all_permissions PermissionKey.users_manage = refl
Lists-all_permissions PermissionKey.visitors_view = refl
Lists-all_permissions PermissionKey.visitors_manage = refl

instance abbrev pub permission_eq : Eq PermissionKey
permission_eq = record {
  same_as = place_beq permission_place;
  same_iff = place_beq_iff permission_place all_permissions Lists-all_permissions;
}

abbrev pub includes : List PermissionKey → PermissionKey → Bool
includes [] p = false
includes (q ∷ qs) p = q == p || includes qs p

abbrev pub base_by_role : MemberRole → List PermissionKey
base_by_role MemberRole.owner_admin = all_permissions
base_by_role MemberRole.guard =
    PermissionKey.dashboard_view ∷ PermissionKey.visitors_view ∷ PermissionKey.visitors_manage
    ∷ PermissionKey.notices_view ∷ []
base_by_role MemberRole.manager =
    PermissionKey.dashboard_view ∷ PermissionKey.units_view ∷ PermissionKey.residents_view
    ∷ PermissionKey.residents_manage ∷ PermissionKey.requests_view ∷ PermissionKey.requests_create
    ∷ PermissionKey.notices_view ∷ PermissionKey.notices_manage ∷ PermissionKey.inspections_view
    ∷ PermissionKey.inspections_manage ∷ PermissionKey.visitors_view ∷ PermissionKey.visitors_manage
    ∷ []
base_by_role MemberRole.staff =
    PermissionKey.dashboard_view ∷ PermissionKey.units_view ∷ PermissionKey.residents_view
    ∷ PermissionKey.residents_manage ∷ PermissionKey.requests_view ∷ PermissionKey.requests_create
    ∷ PermissionKey.notices_view ∷ PermissionKey.inspections_view ∷ PermissionKey.inspections_manage
    ∷ PermissionKey.visitors_view ∷ []
base_by_role MemberRole.technician =
    PermissionKey.dashboard_view ∷ PermissionKey.requests_view ∷ PermissionKey.requests_create
    ∷ PermissionKey.inspections_view ∷ PermissionKey.inspections_manage
    ∷ PermissionKey.visitors_view ∷ []
base_by_role MemberRole.resident =
    PermissionKey.dashboard_view ∷ PermissionKey.requests_view ∷ PermissionKey.requests_create
    ∷ PermissionKey.notices_view ∷ PermissionKey.visitors_view ∷ []

-- `PermissionPolicy`: the Boolean that it holds for a role and a permission, where there is one.
abbrev pub PermissionPolicy : Type 0
PermissionPolicy = MemberRole → PermissionKey → Option Bool

-- `defaultPolicyFor` writes every permission of every role.
abbrev pub default_policy_for : TemplateType → PermissionPolicy
default_policy_for template role permission =
    if includes all_permissions permission
    then some (includes (base_by_role role) permission)
    else none

abbrev pub policy_or_default : TemplateType → Option PermissionPolicy → PermissionPolicy
policy_or_default template none = default_policy_for template
policy_or_default template (some policy) = policy

-- What the policy says, or else the role.
abbrev pub answer_or_base : MemberRole → PermissionKey → Option Bool → Bool
answer_or_base role permission none = includes (base_by_role role) permission
answer_or_base role permission (some b) = b

-- `hasPermission`
unfoldable pub has_permission :
    TemplateType → MemberRole → PermissionKey → Option PermissionPolicy → Bool
has_permission template role permission policy =
    if permission == PermissionKey.users_manage
    then role == MemberRole.owner_admin || role == MemberRole.manager
    else if permission == PermissionKey.units_manage && role == MemberRole.staff
    then false
    else answer_or_base role permission (policy_or_default template policy role permission)

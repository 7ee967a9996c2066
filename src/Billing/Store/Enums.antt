-- ===== src/Billing/Store/Enums.antt =====
-- Enumerations of prisma/schema.prisma, with their equality.
use tomafix_backend.Prelude.{ℕ, List, [], ◌∷◌, refl, Eq, place_beq, place_beq_iff, Lists}

pub data WorkspaceStatus : Type 0 where
  pending_otp pending_payment active suspended : WorkspaceStatus

pub data BillingStatus : Type 0 where
  pending_payment active past_due suspended cancelled : BillingStatus

pub data PaymentStatus : Type 0 where
  pending paid failed refunded : PaymentStatus

pub data SubscriptionStatus : Type 0 where
  trial active past_due canceled : SubscriptionStatus

pub data PlanInterval : Type 0 where
  monthly yearly : PlanInterval

pub data MemberRole : Type 0 where
  owner_admin manager technician guard resident staff : MemberRole

abbrev pub workspace_status_place : WorkspaceStatus → ℕ
workspace_status_place WorkspaceStatus.pending_otp = 0
workspace_status_place WorkspaceStatus.pending_payment = 1
workspace_status_place WorkspaceStatus.active = 2
workspace_status_place WorkspaceStatus.suspended = 3

abbrev pub all_workspace_status : List WorkspaceStatus
all_workspace_status =
    WorkspaceStatus.pending_otp ∷ WorkspaceStatus.pending_payment ∷ WorkspaceStatus.active
    ∷ WorkspaceStatus.suspended ∷ []

pub Lists-all_workspace_status : Lists workspace_status_place all_workspace_status
Lists-all_workspace_status WorkspaceStatus.pending_otp = refl
Lists-all_workspace_status WorkspaceStatus.pending_payment = refl
Lists-all_workspace_status WorkspaceStatus.active = refl
Lists-all_workspace_status WorkspaceStatus.suspended = refl

instance abbrev pub workspace_status_eq : Eq WorkspaceStatus
workspace_status_eq = record {
  same_as = place_beq workspace_status_place;
  same_iff = place_beq_iff workspace_status_place all_workspace_status Lists-all_workspace_status;
}

abbrev pub billing_status_place : BillingStatus → ℕ
billing_status_place BillingStatus.pending_payment = 0
billing_status_place BillingStatus.active = 1
billing_status_place BillingStatus.past_due = 2
billing_status_place BillingStatus.suspended = 3
billing_status_place BillingStatus.cancelled = 4

abbrev pub all_billing_status : List BillingStatus
all_billing_status =
    BillingStatus.pending_payment ∷ BillingStatus.active ∷ BillingStatus.past_due
    ∷ BillingStatus.suspended ∷ BillingStatus.cancelled ∷ []

pub Lists-all_billing_status : Lists billing_status_place all_billing_status
Lists-all_billing_status BillingStatus.pending_payment = refl
Lists-all_billing_status BillingStatus.active = refl
Lists-all_billing_status BillingStatus.past_due = refl
Lists-all_billing_status BillingStatus.suspended = refl
Lists-all_billing_status BillingStatus.cancelled = refl

instance abbrev pub billing_status_eq : Eq BillingStatus
billing_status_eq = record {
  same_as = place_beq billing_status_place;
  same_iff = place_beq_iff billing_status_place all_billing_status Lists-all_billing_status;
}

abbrev pub payment_status_place : PaymentStatus → ℕ
payment_status_place PaymentStatus.pending = 0
payment_status_place PaymentStatus.paid = 1
payment_status_place PaymentStatus.failed = 2
payment_status_place PaymentStatus.refunded = 3

abbrev pub all_payment_status : List PaymentStatus
all_payment_status =
    PaymentStatus.pending ∷ PaymentStatus.paid ∷ PaymentStatus.failed ∷ PaymentStatus.refunded ∷ []

pub Lists-all_payment_status : Lists payment_status_place all_payment_status
Lists-all_payment_status PaymentStatus.pending = refl
Lists-all_payment_status PaymentStatus.paid = refl
Lists-all_payment_status PaymentStatus.failed = refl
Lists-all_payment_status PaymentStatus.refunded = refl

instance abbrev pub payment_status_eq : Eq PaymentStatus
payment_status_eq = record {
  same_as = place_beq payment_status_place;
  same_iff = place_beq_iff payment_status_place all_payment_status Lists-all_payment_status;
}

abbrev pub interval_place : PlanInterval → ℕ
interval_place PlanInterval.monthly = 0
interval_place PlanInterval.yearly = 1

abbrev pub all_interval : List PlanInterval
all_interval = PlanInterval.monthly ∷ PlanInterval.yearly ∷ []

pub Lists-all_interval : Lists interval_place all_interval
Lists-all_interval PlanInterval.monthly = refl
Lists-all_interval PlanInterval.yearly = refl

instance abbrev pub interval_eq : Eq PlanInterval
interval_eq = record {
  same_as = place_beq interval_place;
  same_iff = place_beq_iff interval_place all_interval Lists-all_interval;
}

abbrev pub role_place : MemberRole → ℕ
role_place MemberRole.owner_admin = 0
role_place MemberRole.manager = 1
role_place MemberRole.technician = 2
role_place MemberRole.guard = 3
role_place MemberRole.resident = 4
role_place MemberRole.staff = 5

abbrev pub all_role : List MemberRole
all_role =
    MemberRole.owner_admin ∷ MemberRole.manager ∷ MemberRole.technician ∷ MemberRole.guard
    ∷ MemberRole.resident ∷ MemberRole.staff ∷ []

pub Lists-all_role : Lists role_place all_role
Lists-all_role MemberRole.owner_admin = refl
Lists-all_role MemberRole.manager = refl
Lists-all_role MemberRole.technician = refl
Lists-all_role MemberRole.guard = refl
Lists-all_role MemberRole.resident = refl
Lists-all_role MemberRole.staff = refl

instance abbrev pub role_eq : Eq MemberRole
role_eq = record {
  same_as = place_beq role_place;
  same_iff = place_beq_iff role_place all_role Lists-all_role;
}

-- ===== src/Billing/Store.antt =====
-- The tables that the billing services read and write (models of prisma/schema.prisma), and the
-- entitlements cache, as one state. Row ids are numbers, compared and never computed with; times
-- are milliseconds. A table is a list of rows in the order of creation.
pub mod Enums
use tomafix_backend.Prelude.{ℕ, Bool, List, Option, Text}
use tomafix_backend.Access.Permissions.{PermissionPolicy}
use tomafix_backend.Billing.Plans.{TemplateType, PlanFeatures, PlanLimits, LimitKey, FeatureKey}
use tomafix_backend.Billing.Plans.Overrides.{Overrides}
use Enums.{
  WorkspaceStatus, BillingStatus, PaymentStatus, SubscriptionStatus, PlanInterval, MemberRole,
}

pub record Workspace : Type 0 where
  pub id : ℕ
  pub template_type : TemplateType
  pub template : Option TemplateType
  pub plan_name : Text
  pub status : WorkspaceStatus
  pub billing_status : BillingStatus
  pub next_renewal : Option ℕ
  pub owner_email : Option Text
  -- the two parts of the JSON column `permissionPolicy`: `entitlementOverrides`, and the roles
  pub entitlement_overrides : Option Overrides
  pub permission_policy : Option PermissionPolicy

pub record Plan : Type 0 where
  pub id : ℕ
  pub template : TemplateType
  pub name : Text
  pub interval : PlanInterval
  pub amount_pesewas : ℕ
  pub currency : Text
  pub is_active : Bool

-- What the services read of the body of a Paystack event or transaction.
pub record PaystackEvent : Type 0 where
  pub event : Option Text
  pub reference : Option Text
  pub txn_id : Option Text
  pub channel : Option Text
  pub paid_at : Option ℕ
  pub amount : ℕ
  pub currency : Text

pub record Payment : Type 0 where
  pub id : ℕ
  pub workspace_id : ℕ
  pub plan_id : Option ℕ
  pub reference : Text
  pub amount_pesewas : ℕ
  pub currency : Text
  pub status : PaymentStatus
  pub provider_txn_id : Option Text
  pub channel : Option Text
  pub paid_at : Option ℕ
  pub raw_event : Option PaystackEvent
  pub created_at : ℕ

pub record Subscription : Type 0 where
  pub workspace_id : ℕ
  pub status : SubscriptionStatus
  pub plan_id : Option ℕ
  pub current_period_end : Option ℕ

-- `payload.meta` of a webhook event
pub record EventMeta : Type 0 where
  pub processed : Bool
  pub attempts : ℕ
  pub last_error : Bool

pub record WebhookEvent : Type 0 where
  pub event_id : Text
  pub event_type : Text
  pub reference : Option Text
  pub event : PaystackEvent
  pub meta : EventMeta
  pub received_at : ℕ

pub record Member : Type 0 where
  pub id : ℕ
  pub user_id : ℕ
  pub workspace_id : ℕ
  pub role : MemberRole
  pub is_active : Bool

-- The action of an entry of the audit log, with its `meta`.
pub data AuditAction : Type 0 where
  status_changed : BillingStatus → BillingStatus → AuditAction
  retry_requested : Text → AuditAction
  plan_switch_checkout_started : ℕ → Text → AuditAction

pub record AuditLog : Type 0 where
  pub workspace_id : ℕ
  pub action : AuditAction

pub data NoticeKind : Type 0 where
  billing_past_due workspace_suspended : NoticeKind

-- A row of `estateNotice`, `officeNotice` or `apartmentNotice`, by its table.
pub record Notice : Type 0 where
  pub table : TemplateType
  pub workspace_id : ℕ
  pub kind : NoticeKind

-- The rows that the usage counters count: the workspace of each, and of a request its creation.
pub record UsageTables : Type 0 where
  pub estates : List ℕ
  pub estate_units : List ℕ
  pub estate_residents : List ℕ
  pub estate_requests : List (ℕ × ℕ)
  pub apartment_units : List ℕ
  pub apartment_residents : List ℕ
  pub apartment_requests : List (ℕ × ℕ)
  pub office_assets : List ℕ
  pub office_areas : List ℕ
  pub office_requests : List (ℕ × ℕ)

-- `usage`: the counter of each limit.
abbrev pub Usage : Type 0
Usage = LimitKey → ℕ

-- `EntitlementsPayload`, which the service answers with and caches
pub record EntitlementsPayload : Type 0 where
  pub plan_name : Text
  pub limits : PlanLimits
  pub usage : Usage
  pub features : PlanFeatures
  pub over_cap : LimitKey → Bool
  pub billing_status : BillingStatus
  pub next_renewal : Option ℕ
  pub currency : Text
  pub amount : ℕ
  pub notes : List Text

-- `CachedShape`, which the guard caches
pub record CachedShape : Type 0 where
  pub plan_name : Text
  pub template_type : TemplateType
  pub usage : Usage
  pub overrides : Option Overrides

-- A value of the cache, which has no type at run time: whichever of the two was stored.
pub data Cached : Type 0 where
  payload : EntitlementsPayload → Cached
  shape : CachedShape → Cached

-- `CacheValue`, under its key `billing:entitlements:${workspaceId}`
pub record CacheEntry : Type 0 where
  pub key : ℕ
  pub value : Cached
  pub expires_at : ℕ

pub record Store : Type 0 where
  pub workspaces : List Workspace
  pub plans : List Plan
  pub payments : List Payment
  pub subscriptions : List Subscription
  pub webhook_events : List WebhookEvent
  pub members : List Member
  pub audit_logs : List AuditLog
  pub notices : List Notice
  pub usage_tables : UsageTables
  pub cache : List CacheEntry

-- Why a handler throws, by the message of its exception.
pub data Error : Type 0 where
  workspace_not_found owner_email_missing checkout_not_allowed plan_not_found : Error
  wrong_template paystack_init_failed reference_required payment_not_found : Error
  invalid_transition no_payment_to_retry missing_signature invalid_signature : Error
  paystack_not_configured event_not_found unsupported_event subscription_not_found : Error
  unknown_plan type_error workspace_id_required : Error
  -- the limit, what is used of it, its value, and the plan to buy
  limit_exceeded : LimitKey → ℕ → ℕ → Text → Error
  feature_locked : FeatureKey → Text → Error

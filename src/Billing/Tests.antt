-- ===== src/Billing/Tests.antt =====
-- The billing theorems at one store: an office on the Starter plan with a checkout for Growth.

pub mod Status
pub mod Settlement
pub mod Limits
pub mod Config
use tomafix_backend.Prelude.{ℕ, ◌*◌, true, List, [], ◌∷◌, Option, none, some, Text, codes}
use tomafix_backend.Billing.Plans.{TemplateType}
use tomafix_backend.Billing.Store.{
  Store, Workspace, Plan, Payment, PaystackEvent, Subscription, UsageTables, Member,
}
use tomafix_backend.Billing.Store.Enums.{
  WorkspaceStatus, BillingStatus, PaymentStatus, SubscriptionStatus, PlanInterval, MemberRole,
}
use tomafix_backend.Billing.Status.{day_ms}

abbrev pub office : Text → WorkspaceStatus → BillingStatus → Option ℕ → Workspace
office plan_name status billing renewal = record {
  id = 1;
  template_type = TemplateType.office;
  template = none;
  plan_name = plan_name;
  status = status;
  billing_status = billing;
  next_renewal = renewal;
  owner_email = none;
  entitlement_overrides = none;
  permission_policy = none;
}

abbrev pub active_office : Workspace
active_office =
    office (codes "Starter") WorkspaceStatus.active BillingStatus.active (some (30 * day_ms))

abbrev pub cancelled_office : Workspace
cancelled_office =
    office (codes "Starter") WorkspaceStatus.suspended BillingStatus.cancelled (some 7)

abbrev pub past_due_office : Workspace
past_due_office =
    office (codes "Starter") WorkspaceStatus.pending_payment BillingStatus.past_due (some 7)

abbrev pub plan_row : Text → Plan
plan_row name = record {
  id = 5;
  template = TemplateType.office;
  name = name;
  interval = PlanInterval.monthly;
  amount_pesewas = 90000;
  currency = codes "GHS";
  is_active = true;
}

abbrev pub reference : Text
reference = codes "ref-1"

abbrev pub checkout_payment : Payment
checkout_payment = record {
  id = 9;
  workspace_id = 1;
  plan_id = some 5;
  reference = reference;
  amount_pesewas = 90000;
  currency = codes "GHS";
  status = PaymentStatus.pending;
  provider_txn_id = none;
  channel = none;
  paid_at = none;
  raw_event = none;
  created_at = 0;
}

abbrev pub no_usage : UsageTables
no_usage = record {
  estates = [];
  estate_units = [];
  estate_residents = [];
  estate_requests = [];
  apartment_units = [];
  apartment_residents = [];
  apartment_requests = [];
  office_assets = 1 ∷ 1 ∷ [];
  office_areas = [];
  office_requests = [];
}

abbrev pub store_of : List Workspace → Plan → List Payment → List Subscription → Store
store_of workspaces plan payments subscriptions = record {
  workspaces = workspaces;
  plans = plan ∷ [];
  payments = payments;
  subscriptions = subscriptions;
  webhook_events = [];
  members =
      record { id = 3; user_id = 4; workspace_id = 1; role = MemberRole.staff; is_active = true }
      ∷ [];
  audit_logs = [];
  notices = [];
  usage_tables = no_usage;
  cache = [];
}

abbrev pub growth : Plan
growth = plan_row (codes "Growth")

abbrev pub active_store : Store
active_store = store_of (active_office ∷ []) growth (checkout_payment ∷ []) []

abbrev pub past_due_store : Store
past_due_store = store_of (past_due_office ∷ []) growth (checkout_payment ∷ []) []

abbrev pub charge : PaystackEvent
charge = record {
  event = some (codes "charge.success");
  reference = some reference;
  txn_id = some (codes "77");
  channel = some (codes "card");
  paid_at = some 5;
  amount = 90000;
  currency = codes "ghs";
}

-- ===== src/Billing.antt =====
-- The billing module of the backend (src/billing).
pub mod Plans
pub mod Store
pub mod Status
pub mod Entitlements
pub mod Gate
pub mod Payments
pub mod Checkout
pub mod Config
pub mod Webhooks
pub mod Reconcile
pub mod Tests

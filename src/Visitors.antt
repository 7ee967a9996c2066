-- ===== src/Visitors.antt =====
-- Visitor passes: visitors/visitors.service.ts.
pub mod Tables
pub mod Access
pub mod Token
pub mod Scan
pub mod Passes
pub mod Lifecycle
pub mod Calls
pub mod Refines
pub mod Runs
pub mod Histories
pub mod Gate
pub mod Tests

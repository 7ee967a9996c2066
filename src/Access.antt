-- ===== src/Access.antt =====
-- auth/permissions.ts and auth/workspace-access.guard.ts: who may do what in a workspace.
pub mod Permissions
pub mod Guard
pub mod Tests

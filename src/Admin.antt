-- ===== src/Admin.antt =====
-- The admin service: internal/services/admin.
pub mod Context
pub mod Authorization
pub mod Tenant
pub mod TenantPolicy
pub mod Guard
pub mod Repositories
pub mod Pages
pub mod Queries
pub mod Commands

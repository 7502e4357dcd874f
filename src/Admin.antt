-- ===== src/Admin.antt =====
-- backend/src/api/v1/admin/tenants: the life of a tenant, as the platform's administrators run it.
pub mod Tables
pub mod World
pub mod Tenants
pub mod Toggle
pub mod Users
pub mod Downgrade

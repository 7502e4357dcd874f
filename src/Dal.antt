-- ===== src/Dal.antt =====
-- The data access layer: backend/src/dal.
pub mod Rls
pub mod Context
pub mod Uuid
pub mod Quota
pub mod Interceptor
pub mod Pool
pub mod Cache
pub mod Reload

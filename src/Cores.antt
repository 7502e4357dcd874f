-- ===== src/Cores.antt =====
-- backend/src/plugins/cores: what the plugins do with their tables.
pub mod Store
pub mod CustomerData
pub mod CustomerCare
pub mod Marketing
pub mod Analytics
pub mod Isolation
pub mod Invalid

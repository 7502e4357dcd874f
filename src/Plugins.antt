-- ===== src/Plugins.antt =====
-- The plugin infrastructure: backend/src/plugins.
pub mod Manifest
pub mod Dependency
pub mod Hooks
pub mod Registry
pub mod Sandbox

-- ===== src/Admin/Tenants.antt =====
-- `list`, `findOne`, `create`, `update` and `offboard` of
-- backend/src/api/v1/admin/tenants/admin-tenants.service.ts.
mod Register
mod Change
mod Close
pub mod Offboard
pub mod Update
pub mod Create
pub mod Vip
unfoldable pub use Register.*
unfoldable pub use Change.*
unfoldable pub use Close.*

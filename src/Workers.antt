-- ===== src/Workers.antt =====
-- backend/src/workers/bullmq/processors: the jobs that move a tenant to a database of its own and
-- back.
pub mod Columns
pub mod VipMigration
pub mod VipDecommission
pub mod HardDelete

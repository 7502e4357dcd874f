-- ===== src/Tests.antt =====
-- Tests, and runs of the theorems at concrete inputs.
pub mod Samples
mod DalRuns
mod GatewayRuns
mod AuthRuns
mod PluginRuns
mod AdminRuns
mod EventRuns
mod WorkerRuns
mod AutomationRuns
mod CoreRuns
mod SecurityRuns

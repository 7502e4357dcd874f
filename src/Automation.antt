-- ===== src/Automation.antt =====
-- backend/src/plugins/cores/automation: triggers, the actions that they start, and the texts that are
-- filled in for them.
pub mod Values
pub mod Template
pub mod Conditions
pub mod Actions
pub mod Triggers
pub mod Catalogue
pub mod Handlers

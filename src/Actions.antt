-- ===== src/Actions.antt =====
-- The controller's actions: internal/store/settings_actions_defense.go, the policy actions and the
-- execution gate of internal/store/action_results.go, over the tables of internal/store/store.go.
pub mod Tables
pub mod Statement
pub mod Approval
pub mod Transitions
pub mod Policy
pub mod PolicyGrants
pub mod Gate
pub mod Details
pub mod Expiry
pub mod Queue
pub mod Receipt
pub mod Submission
pub mod Judgement
pub mod PlanDrafts
pub mod Completion
pub mod Revocation
pub mod Calls
pub mod Lifecycle
pub mod Stop
pub mod Examples

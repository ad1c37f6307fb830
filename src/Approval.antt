-- ===== src/Approval.antt =====
-- src/trading/trading-sell-approval-workflow.service.ts: a sell order that waits for an operator's decision
-- in Slack. `Defs` has the state, `Decide` the decision, `Submit` what follows an approval.
pub mod Defs
pub mod Decide
pub mod Submit
pub mod Execute
pub mod Decisions
pub mod Posting

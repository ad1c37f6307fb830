-- ===== src/Operator.antt =====
-- What an operator does about orders whose submission or cancellation ended unknown:
-- src/trading/trading-broker-order-resolution.service.ts, trading-broker-cancellation-recovery.service.ts and
-- the operator's part of trading-broker-order-recovery.service.ts.
pub mod Claim
pub mod Collisions
pub mod Submission
pub mod Written
pub mod Cancellation
pub mod Assignment
pub mod Views
pub mod Mirror

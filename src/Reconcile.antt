-- ===== src/Reconcile.antt =====
-- src/trading/trading-order-reconciliation.service.ts: open records are brought in line with what the
-- broker reports. `Matching` finds the report of a record, `Fill` the numbers, `Strategy` what is passed on, `Record` the
-- update of one record, `Orders` the loop; the other children state what holds.
pub mod Matching
pub mod Fill
pub mod Strategy
pub mod Record
pub mod Orders
pub mod Quantities
pub mod Once
pub mod Loop

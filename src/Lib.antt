-- ===== src/Lib.antt =====
-- The order path of the trading back end: how a trade record becomes a broker order, and how the broker's
-- answers and reports come back to it.
--
-- The program keeps one row of `trade_records` per order. An automatic order is admitted and sent by the
-- order execution, a protective sell waits for a click and is sent by the approval workflow, an unfilled
-- order is cancelled by the order cancellation, open orders are reconciled with the broker's reports
-- whenever the order synchronization finds that due, at a cold start the attempts that a stopped process
-- left behind are taken over, and an operator resolves what ended unknown after the broker's history was
-- read. All of them work on the same row at the same time, and meet only in the compare-and-set updates
-- of the database. Beside the rows, the balances of each account are cached, and a login is guarded by a
-- lockout.
--
-- Files:
--   Common    tests, lists and texts.
--   Model     the rows and enums of prisma/schema.prisma, the signals and broker answers.
--   Db        a row, its `updateMany` as an atomic compare-and-set, and the effects of a handler.
--   Env       the surroundings of a handler: switches, clock, context, broker, other tasks; and the
--             comparison with the current context of src/trading/trading-broker-context.service.ts.
--   Context   `getCurrentContext` of the same service: the account that the configuration names.
--   Recovery  src/trading/trading-broker-order-recovery.service.ts: `claimCancellation` and the other
--             compare-and-set updates; Recovery/TakeOver the cold start.
--   Execution src/trading/trading-order-execution.service.ts, `execute` from the admitted record on.
--   Guard     src/trading/trading-order-guard.service.ts, and `execute` up to the created record.
--   Approval  src/trading/trading-sell-approval-workflow.service.ts: Decide is `decide`, Execute
--             `executeClaimedApproval` and `approve`, Submit the sending and what follows it.
--   Reconcile src/trading/trading-order-reconciliation.service.ts: Matching, Fill, Strategy and Record the
--             helpers and branches, Orders the loop `reconcileOpenOrders`.
--   Dates     `isValidBrokerOrderDate`; Dates/Kst the Korean wall-clock times of the recovery services.
--   Matcher   src/trading/trading-broker-order-matcher.service.ts: the search for the order of an unknown
--             submission.
--   Operator  src/trading/trading-broker-order-resolution.service.ts: Claim the transaction and the unique
--             index of the table, Collisions `annotateCandidateCollisions`, Submission the three
--             resolutions; Operator/Cancellation
--             src/trading/trading-broker-cancellation-recovery.service.ts; Operator/Assignment
--             `assignCurrentContext` of the recovery service, Operator/Views its items and
--             `inspectCandidates`, Operator/Mirror the entry in a watched stock's log.
--   SellRequest src/trading/trading-sell-approval.service.ts, `requestApproval`: Expiry the closing of
--             pairs, Flow the request; what waits then is decided in Approval.
--   Positions src/trading/trading-position-sync.service.ts and trading-position-refresh.service.ts.
--   Cash      src/trading/trading-account-cash-sync.service.ts; Cash/Settings the rows of `app_settings`.
--   Sync      src/trading/order-sync.service.ts: Sync/Schedule the window and the interval, Sync the loop
--             over the brokers, which calls Reconcile and Cash, Sync/Unfilled the list of unfilled orders.
--   Mutation  src/kis/kis-mutation.error.ts: which answers of KIS are acceptances, rejections, or unknown;
--             Mutation/Timestamp the broker's time of an order.
--   Auth      src/auth/auth.service.ts, the login.
--   Cancellation  src/trading/trading-order-cancellation.service.ts.
--   Pagination src/kis/kis-order-history-pagination.service.ts, the walk over the pages of the order history.
--   History   src/kis/kis-order-history.service.ts: Rows the checks of a row of JSON values, Orders what it
--             becomes, Requests and Queries what KIS is asked, over the pages of Pagination.
--   Lifecycle the one-record system in which all these tasks take their steps in any order.
--   Examples  the theorems at concrete inputs.
--
-- Correspondence. A handler is a function of the row, and of an environment that answers each question
-- the handler asks of its surroundings at a numbered place; two places may get different answers, and the
-- environment may change the row before every database call, which is how other tasks appear. An operator's
-- operation works on a table of rows, and other tasks may change the whole table before each of its
-- steps. A database call that throws is modelled where the source catches it. Identifiers are in the
-- spelling of this language; every constructor of an enum stands for the source's. PENDING approvals are `waiting`,
-- REJECTED ones `refused`, a cancellation attempt SUBMITTING is `attempting`.
--
-- Numbers. Quantities are whole shares, prices whole units of the smallest price step, times
-- milliseconds, all natural numbers; the source guards or floors them there, and a subtraction that the
-- source clamps at 0 is the truncated one. `toUpperCase` is on ASCII letters. The retry loops run three
-- times, as in the source; every other loop is over a list.
--
-- The dates that `formatKisDate` writes are in the machine's time zone and are a parameter, as is the order
-- history that a broker gives for a span of days.
--
-- In Positions and History a price is an abstract type, and floating-point readings are parameters. In
-- SellRequest other tasks may change both tables before each step; a transaction is one step.
--
-- Not modelled: whether a sell needs an approval (patterns of its reason and floating-point values of the
-- strategy), the log entries of a request, the masked account of a recovery item, signing of tokens,
-- texts of log entries and Slack messages, the text of a report's details (a parameter, `details`), the
-- strategies' reaction to a fill (an effect with the quantity that they are told), the quota that a buy
-- without a fill restores (an effect), how the signal of an order is read back from the logs (a parameter),
-- what the brokers answer (a parameter), the strategies, screening, backtests and the client.
pub mod Common
pub mod Model
pub mod Db
pub mod Env
pub mod Recovery
pub mod Execution
pub mod Approval
pub mod Reconcile
pub mod Dates
pub mod Cancellation
pub mod Lifecycle
pub mod Guard
pub mod Pagination
pub mod Positions
pub mod History
pub mod SellRequest
pub mod Context
pub mod Auth
pub mod Matcher
pub mod Operator
pub mod Cash
pub mod Sync
pub mod Mutation
pub mod Examples

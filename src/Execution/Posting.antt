-- ===== src/Execution/Posting.antt =====
-- When `execute` sends an order, and how often.
use kis_trader_back.Common.{
  ℕ, zero, suc, ◌+◌, ◌≡◌, refl, ◌⊎◌, Bool, true, false, none, some, ◌∷◌, arith,
}
use kis_trader_back.Model.{TradeRecord, OrderResult, Outcome, submitting, order_submitted}
use kis_trader_back.Db.{World, log, mark_second_target}
use kis_trader_back.Env.{Env, Reply, answered, thrown, is_current_broker_context}
use kis_trader_back.Recovery.{mark_submission_unknown}
use kis_trader_back.Execution.{
  Request, persist_accepted, settle_outcome, settle_reply, submit_claimed, execute_claimed,
  claim_and_execute, execute_refreshed, execute_admitted, log_order_outcome,
}

persist_accepted-posts :
    (env : Env) (left k : ℕ) (result : OrderResult) (w : World)
    → (persist_accepted env left k result w).1.posts ≡ w.posts
unfolding persist_accepted
persist_accepted-posts env zero k result w = refl
persist_accepted-posts env (suc left) k result w =
    ground (arith, persist_accepted-posts env left (k + 1) result w)

mark_submission_unknown-posts :
    (m : _) (w : World) → (mark_submission_unknown m true w).1.posts ≡ w.posts
unfolding mark_submission_unknown
mark_submission_unknown-posts m w = ground arith

log_order_outcome-posts :
    (q : Request) (o : Outcome) (w : World) → (log_order_outcome q o w).1.posts ≡ w.posts
unfolding log_order_outcome
log_order_outcome-posts q o w = ground arith

settle_outcome-posts :
    (env : Env) (q : Request) (r : OrderResult) (o : Outcome) (w : World)
    → (settle_outcome env q r o w).1.posts ≡ w.posts
unfolding settle_outcome mark_submission_unknown log_order_outcome
settle_outcome-posts env q r Outcome.accepted w =
    ground (arith, persist_accepted-posts env 3 21 r w)
settle_outcome-posts env q r Outcome.rejected w = ground arith
settle_outcome-posts env q r Outcome.unknown w = ground arith

settle_reply-posts :
    (env : Env) (q : Request) (reply : Reply) (w : World)
    → (settle_reply env q reply w).1.posts ≡ w.posts
unfolding settle_reply mark_submission_unknown log_order_outcome
settle_reply-posts env q (answered r) w = settle_outcome-posts env q r r.outcome w
settle_reply-posts env q (thrown m) w = ground arith

-- The conditions that hold when the order goes out, read after the claim, and the row as the claim met it.
pub record IsCleared (env : Env) (q : Request) (row : TradeRecord) : Type 0 where
  pub context_current : is_current_broker_context env 2 q.context ≡ true
  pub live_on : env.live 2 ≡ true
  pub broker_on : env.active 2 ≡ true
  pub was_submitting : row.status ≡ submitting
  pub was_unclaimed : row.submission_started_at ≡ none

-- Nothing was sent and the result is false, or the signal was sent once by a cleared task.
abbrev Posted : Env → Request → World → TradeRecord → Bool × World → Type 0
Posted env q w row (ok, w') =
    ((ok ≡ false) × (w'.posts ≡ w.posts)) ⊎ ((w'.posts ≡ q.signal ∷ w.posts) × IsCleared env q row)

submit_claimed-posts :
    (env : Env) (q : Request) (w : World) → (submit_claimed env q w).1.posts ≡ q.signal ∷ w.posts
unfolding submit_claimed
submit_claimed-posts env q w = settle_reply-posts env q (env.submit q.signal) _

execute_claimed-posts :
    (env : Env) (q : Request) (t : ℕ) (w : World) (row : TradeRecord)
    → row.status ≡ submitting
    → row.submission_started_at ≡ none
    → Posted env q w row (execute_claimed env q t w)
unfolding execute_claimed
execute_claimed-posts env q t w row s u = ground (arith, submit_claimed-posts env q w)

claim_and_execute-posts :
    (env : Env) (q : Request) (w : World)
    → Posted env q w (env.meddle 10 w.row) (claim_and_execute env q w)
unfolding claim_and_execute
claim_and_execute-posts env q w =
    let met = env.meddle 10 w.row in
    let claimed = record w { row = record met { submission_started_at = some (env.now 1) } } in
    ground (arith, execute_claimed-posts env q (env.now 1) claimed met)

execute_refreshed-posts :
    (env : Env) (q : Request) (w : World)
    → Posted env q w (env.meddle 10 w.row) (execute_refreshed env q w)
unfolding execute_refreshed
execute_refreshed-posts env q w = ground (arith, claim_and_execute-posts env q w)

-- Whatever other tasks do to the record meanwhile, and whatever the configuration and the broker answer,
-- `execute` on an admitted record either sends nothing and returns false, or sends its signal exactly
-- once; and then it had won the claim on a SUBMITTING record that nobody had claimed, and after the
-- claim read trading enabled, the broker active and the broker context unchanged.
pub execute_admitted-posts :
    (env : Env) (q : Request) (w : World)
    → let (ok, w') = execute_admitted env q w in
      ((ok ≡ false) × (w'.posts ≡ w.posts))
      ⊎ ((w'.posts ≡ q.signal ∷ w.posts) × IsCleared env q (env.meddle 10 w.row))
unfolding execute_admitted
execute_admitted-posts env q w =
    let logged = record w { effects = log order_submitted ∷ w.effects } in
    ground (
      arith,
      execute_refreshed-posts env q w,
      execute_refreshed-posts env q logged,
      execute_refreshed-posts env q (record w { effects = mark_second_target ∷ w.effects }),
      execute_refreshed-posts env q (record w { effects = mark_second_target ∷ logged.effects }),
    )

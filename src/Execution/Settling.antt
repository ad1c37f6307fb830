-- ===== src/Execution/Settling.antt =====
-- The state in which `execute` leaves the record when no other task touches it.
use mathlib.Core.Path.{subst}
use kis_trader_back.Common.{
  ℕ, ◌≡◌, refl, ◌⊎◌, Bool, true, false, none, some, ◌∷◌, arith, is_some, inl, inr, sym, Bool-cases,
}
use kis_trader_back.Model.{
  TradeRecord, OrderResult, Outcome, pending, cancelled, failed, submitting, submission_unknown,
  order_submitted,
}
use kis_trader_back.Db.{World, log, mark_second_target}
use kis_trader_back.Env.{Env, Reply, answered, thrown, quiet}
use kis_trader_back.Recovery.{mark_submission_unknown}
use kis_trader_back.Execution.{
  Request, persist_accepted, settle_outcome, settle_reply, submit_claimed, execute_claimed,
  claim_and_execute, execute_refreshed, execute_admitted, has_complete_order_identity,
  log_order_outcome,
}

-- The answer that counts as an accepted order.
pub record IsAcceptance (reply : Reply) (r : OrderResult) : Type 0 where
  pub answer : reply ≡ answered r
  pub accepted : r.outcome ≡ Outcome.accepted
  pub identified : has_complete_order_identity r ≡ true

-- The broker's order is in the record, or every attempt to write it failed.
abbrev pub Recorded : Env → OrderResult → TradeRecord → Type 0
Recorded env r row =
    ((row.status ≡ pending) × (row.order_no ≡ r.order_no))
    ⊎ ((row.status ≡ submitting)
        × (env.throws 21 ≡ true)
        × (env.throws 22 ≡ true)
        × (env.throws 23 ≡ true))

abbrev pub Closed : TradeRecord → Type 0
Closed row = (row.status ≡ cancelled) ⊎ (row.status ≡ failed) ⊎ (row.status ≡ submission_unknown)

abbrev pub Ended : Env → Request → Bool × World → Type 0
Ended env q (ok, w') =
    ((ok ≡ false) × Closed w'.row)
    ⊎ ((ok ≡ true)
        × ((r : OrderResult) × IsAcceptance (env.submit q.signal) r × Recorded env r w'.row))

pub record IsClaimed (row : TradeRecord) : Type 0 where
  pub is_submitting : row.status ≡ submitting
  pub is_started : is_some row.submission_started_at ≡ true

persist_accepted-Recorded :
    (env : Env) (r : OrderResult) (w : World)
    → IsClaimed w.row
    → let (ok, w') = persist_accepted (quiet env) 3 21 r w in Recorded env r w'.row
unfolding persist_accepted
persist_accepted-Recorded env r w c = ground arith

-- The accepted answer: the record is as `persistAccepted` leaves it.
settle_outcome_identified :
    (env : Env) (q : Request) (r : OrderResult) (w : World)
    → has_complete_order_identity r ≡ true
    → let (ok, w') = settle_outcome env q r Outcome.accepted w in
      (ok ≡ true) × (w'.row ≡ (persist_accepted env 3 21 r w).1.row)
unfolding settle_outcome log_order_outcome
settle_outcome_identified env q r w h = ground arith

settle_outcome_unidentified :
    (env : Env) (q : Request) (r : OrderResult) (w : World)
    → has_complete_order_identity r ≡ false
    → IsClaimed w.row
    → let (ok, w') = settle_outcome env q r Outcome.accepted w in
      (ok ≡ false) × (w'.row.status ≡ submission_unknown)
unfolding settle_outcome mark_submission_unknown log_order_outcome
settle_outcome_unidentified env q r w h c = ground arith

settle_outcome-Ended :
    (env : Env) (q : Request) (r : OrderResult) (o : Outcome) (w : World)
    → env.submit q.signal ≡ answered r
    → r.outcome ≡ o
    → IsClaimed w.row
    → Ended env q (settle_outcome (quiet env) q r o w)
unfolding settle_outcome mark_submission_unknown log_order_outcome
settle_outcome-Ended env q r Outcome.accepted w a e c =
    elim (Bool-cases (has_complete_order_identity r)) [
      | inl whole ↦
          let (ok, same) = settle_outcome_identified (quiet env) q r w whole in
          inr (
            ok,
            (
              r,
              record { answer = a; accepted = e; identified = whole },
              subst (Recorded env r) (sym same) (persist_accepted-Recorded env r w c),
            ),
          )
      | inr broken ↦
          let (ok, lost) = settle_outcome_unidentified (quiet env) q r w broken c in
          inl (ok, inr (inr lost))
    ]
settle_outcome-Ended env q r Outcome.rejected w a e c = ground arith
settle_outcome-Ended env q r Outcome.unknown w a e c = ground arith

settle_reply-Ended :
    (env : Env) (q : Request) (reply : Reply) (w : World)
    → env.submit q.signal ≡ reply
    → IsClaimed w.row
    → Ended env q (settle_reply (quiet env) q reply w)
unfolding settle_reply mark_submission_unknown log_order_outcome
settle_reply-Ended env q (answered r) w a c = settle_outcome-Ended env q r r.outcome w a refl c
settle_reply-Ended env q (thrown m) w a c = ground arith

submit_claimed-Ended :
    (env : Env) (q : Request) (w : World)
    → IsClaimed w.row
    → Ended env q (submit_claimed (quiet env) q w)
unfolding submit_claimed
submit_claimed-Ended env q w c = settle_reply-Ended env q _ _ refl c

execute_claimed-Ended :
    (env : Env) (q : Request) (t : ℕ) (w : World)
    → w.row.status ≡ submitting
    → w.row.submission_started_at ≡ some t
    → Ended env q (execute_claimed (quiet env) q t w)
unfolding execute_claimed
execute_claimed-Ended env q t w s u =
    ground (arith, submit_claimed-Ended env q w (record { is_submitting = s; is_started = rw u }))

claim_and_execute-Ended :
    (env : Env) (q : Request) (w : World)
    → w.row.status ≡ submitting
    → w.row.submission_started_at ≡ none
    → Ended env q (claim_and_execute (quiet env) q w)
unfolding claim_and_execute
claim_and_execute-Ended env q w s u =
    let claimed = record w { row = record (w.row) { submission_started_at = some (env.now 1) } } in
    ground (arith, execute_claimed-Ended env q (env.now 1) claimed s refl)

execute_refreshed-Ended :
    (env : Env) (q : Request) (w : World)
    → w.row.status ≡ submitting
    → w.row.submission_started_at ≡ none
    → Ended env q (execute_refreshed (quiet env) q w)
unfolding execute_refreshed
execute_refreshed-Ended env q w s u = ground (arith, claim_and_execute-Ended env q w s u)

-- With no other task at the record, `execute` on a freshly admitted record ends in one of two ways. It
-- returns false, and the record is CANCELLED, FAILED or SUBMISSION_UNKNOWN. Or it returns true; then the
-- broker accepted the order with a complete identity, and the record is PENDING under the broker's order
-- number, unless each of the three attempts to write that down failed.
pub execute_admitted-Ended :
    (env : Env) (q : Request) (w : World)
    → w.row.status ≡ submitting
    → w.row.submission_started_at ≡ none
    → Ended env q (execute_admitted (quiet env) q w)
unfolding execute_admitted
execute_admitted-Ended env q w s u =
    let logged = record w { effects = log order_submitted ∷ w.effects } in
    ground (
      arith,
      execute_refreshed-Ended env q w s u,
      execute_refreshed-Ended env q logged s u,
      execute_refreshed-Ended env q (record w { effects = mark_second_target ∷ w.effects }) s u,
      execute_refreshed-Ended env q (record w { effects = mark_second_target ∷ logged.effects }) s
          u,
    )

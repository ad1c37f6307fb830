-- ===== src/Recovery/TakeOver/Startup.antt =====
-- `takeOverStartupState` as a whole: submissions first, then cancellation attempts.
use mathlib.Core.Path.{subst}
use text.Mathlib.TextPositions.{eq_refl}
use kis_trader_back.Common.{
  ◌≡◌, refl, ℕ, String, Bool, true, false, not, ◌&&◌, ◌||◌, inl, inr, List, [], ◌∷◌, map, keep,
  str_eq, arith, any, length, Bool-cases,
}
use kis_trader_back.Model.{broker_eq}
use kis_trader_back.Db.{World}
use kis_trader_back.Recovery.{mark_cancellation_unknown}
use kis_trader_back.Recovery.TakeOver.{
  Table, with_row, Attempt, attempt_of, is_submitting, is_cancelling, is_unresolved,
  settle_cancellations, take_over_submission_attempts, take_over_cancellation_attempts,
  take_over_startup_state,
}
use kis_trader_back.Recovery.TakeOver.Settled.{
  Each, Each-mono, at_id, with_row-Each, take_over_submission_attempts-Each,
}

abbrev is_attempt_of : World → Attempt → Bool
is_attempt_of w a = str_eq w.row.id a.id && broker_eq w.row.broker a.broker

abbrev is_covered : List Attempt → World → Bool
is_covered attempts w =
    not (is_submitting w) && (not (is_cancelling w) || any (is_attempt_of w) attempts)

settle-covered :
    (message : String) (a : Attempt) (rest : List Attempt) (w : World)
    → is_covered (a ∷ rest) w ≡ true
    → is_covered rest (at_id a.id (mark_cancellation_unknown a.broker message false) w) ≡ true
unfolding mark_cancellation_unknown
settle-covered message a rest w h = ground arith

abbrev is_settled : World → Bool
is_settled w = not (is_submitting w) && not (is_cancelling w)

settle_cancellations-Each :
    (attempts : List Attempt) (n : ℕ) (t : Table)
    → Each (is_covered attempts) t
    → Each is_settled (settle_cancellations attempts n t).1
unfolding settle_cancellations
settle_cancellations-Each [] n t e = Each-mono _ _ (λ w h. ground arith) t e
settle_cancellations-Each (a ∷ rest) n t e =
    settle_cancellations-Each rest _ (with_row a.id _ t).1
      (with_row-Each a.id _ _ _ (settle-covered _ a rest) t e)

is_covered-later :
    (a : Attempt) (attempts : List Attempt) (w : World)
    → is_covered attempts w ≡ true
    → is_covered (a ∷ attempts) w ≡ true
is_covered-later a attempts w h = ground arith

covers_own :
    (w : World) (rest : List Attempt)
    → not (is_submitting w) ≡ true
    → is_covered (attempt_of w ∷ rest) w ≡ true
covers_own w rest h = ground (arith, eq_refl w.row.id)

snapshot-covered :
    (t : Table)
    → Each (λ w. not (is_submitting w)) t
    → Each (is_covered (map attempt_of (keep is_cancelling t))) t
snapshot-covered [] h = tt
snapshot-covered (w ∷ ws) (h, hs) =
    let later = map attempt_of (keep is_cancelling ws) in
    let tail : Each (is_covered later) ws = snapshot-covered ws hs in
    elim (Bool-cases (is_cancelling w)) [
      | inl stale ↦
          subst (λ xs. Each (is_covered xs) (w ∷ ws)) (stale_cons stale)
            (covers_own w later h, Each-mono _ _ (is_covered-later (attempt_of w) later) ws tail)
      | inr settled ↦
          subst (λ xs. Each (is_covered xs) (w ∷ ws)) (settled_cons settled) (ground arith, tail)
    ]
  where
    stale_cons :
        is_cancelling w ≡ true
        → attempt_of w ∷ map attempt_of (keep is_cancelling ws)
          ≡ map attempt_of (keep is_cancelling (w ∷ ws))
    stale_cons e = rw e refl

    settled_cons :
        is_cancelling w ≡ false
        → map attempt_of (keep is_cancelling ws) ≡ map attempt_of (keep is_cancelling (w ∷ ws))
    settled_cons e = rw e refl

-- After `takeOverStartupState`, whatever the table held, no record is left SUBMITTING, no record is left
-- with a cancellation attempt SUBMITTING, and the summary's unresolved count is the number of records
-- of the resulting table that are SUBMISSION_UNKNOWN or have an UNKNOWN cancellation.
pub take_over_startup_state-Each :
    (t : Table)
    → let (summary, final) = take_over_startup_state t in
      Each (λ w. not (is_submitting w) && not (is_cancelling w)) final
      × (summary.unresolved_count ≡ length (keep is_unresolved final))
unfolding take_over_startup_state take_over_cancellation_attempts
take_over_startup_state-Each t = (
  settle_cancellations-Each _ _ (take_over_submission_attempts t).1
      (snapshot-covered _ (take_over_submission_attempts-Each t)),
  refl,
)

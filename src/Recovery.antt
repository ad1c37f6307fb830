-- ===== src/Recovery.antt =====
-- src/trading/trading-broker-order-recovery.service.ts: the compare-and-set updates of the cancellation
-- attempt and of an unknown submission, and the take-over of unfinished attempts at a cold start.
pub mod TakeOver
use kis_trader_back.Common.{
  ℕ, zero, suc, String, Bool, true, false, ◌&&◌, ◌||◌, Option, none, some, if◌then◌else◌, ◌==◌,
  is_some, is_none, trim, is_empty, ◌≡◌, refl,
}
use Prim.Native.String
use kis_trader_back.Model.{
  TradeRecord, Broker, broker_eq, pending, partial, submitting, submission_unknown, status_eq,
  CancellationStatus, attempting, resolved, cancellation_eq, unknown_detected, cancellation_unknown,
}
use kis_trader_back.Db.{Update, update, M, ◌>>=◌, ◌>>◌, pure, emit, audit, alert_unknown}

clip : ℕ → String → String
clip zero s = ""
clip (suc n) String.[] = ""
clip (suc n) (String.◌∷◌ c s) = String.◌∷◌ c (clip n s)

-- `slice(0, 500)` counts UTF-16 units, which are the characters of the texts at hand.
unfoldable pub sanitize_message : String → String
unfolding clip trim
sanitize_message message =
    let normalized = trim message in
    clip 500 (if is_empty normalized then "Broker mutation outcome unknown" else normalized)

-- The `where` of `claimCancellation`.
abbrev pub is_claimable : TradeRecord → Bool
is_claimable r =
    (status_eq r.status pending || status_eq r.status partial)
    && is_some r.order_no
    && (is_none r.cancellation_status
        || cancellation_eq r.cancellation_status (some CancellationStatus.rejected)
        || cancellation_eq r.cancellation_status (some resolved))

abbrev pub claim_cancellation_update : ℕ → Broker → Update
claim_cancellation_update now broker = record {
  guard = λ r. broker_eq r.broker broker && is_claimable r;
  change = λ r. record r {
    cancellation_status = some attempting;
    cancellation_started_at = some now;
    cancellation_resolved_at = none;
    cancellation_resolved_by = none;
    cancellation_message = none;
  };
}

abbrev pub has_attempt : Broker → TradeRecord → Bool
has_attempt broker r =
    broker_eq r.broker broker && cancellation_eq r.cancellation_status (some attempting)

abbrev pub reject_cancellation_update : ℕ → Broker → String → Update
reject_cancellation_update now broker message = record {
  guard = has_attempt broker;
  change = λ r. record r {
    cancellation_status = some CancellationStatus.rejected;
    cancellation_resolved_at = some now;
    cancellation_resolved_by = some "system";
    cancellation_message = some (sanitize_message message);
  };
}

abbrev pub accept_cancellation_update : Broker → String → Update
accept_cancellation_update broker message = record {
  guard = has_attempt broker;
  change = λ r. record r {
    cancellation_status = some CancellationStatus.accepted;
    cancellation_message = some (sanitize_message message);
  };
}

abbrev pub lose_cancellation_update : Broker → String → Update
lose_cancellation_update broker message = record {
  guard = has_attempt broker;
  change = λ r. record r {
    cancellation_status = some CancellationStatus.unknown;
    cancellation_message = some (sanitize_message message);
  };
}

abbrev pub lose_submission_update : String → Update
lose_submission_update message = record {
  guard = λ r. status_eq r.status submitting && is_some r.submission_started_at;
  change = λ r. record r {
    status = submission_unknown;
    broker_message = some (sanitize_message message);
  };
}

abbrev pub positive : ℕ → Bool
positive n = if n == 0 then false else true

unfoldable pub claim_cancellation : ℕ → Broker → M Bool
unfolding update
claim_cancellation now broker = do
  count ← update (claim_cancellation_update now broker)
  pure (positive count)

unfoldable pub release_cancellation_claim : ℕ → Broker → String → M Bool
unfolding update
release_cancellation_claim now broker message = do
  count ← update (reject_cancellation_update now broker message)
  pure (positive count)

unfoldable pub mark_cancellation_accepted : Broker → String → M Bool
unfolding update
mark_cancellation_accepted broker message = do
  count ← update (accept_cancellation_update broker message)
  pure (positive count)

unfoldable pub mark_cancellation_rejected : ℕ → Broker → String → M Bool
unfolding update
mark_cancellation_rejected now broker message = do
  count ← update (reject_cancellation_update now broker message)
  pure (positive count)

abbrev alert_if : Bool → M Bool → M Bool
alert_if notify m = do
  changed ← m
  if changed && notify then (emit alert_unknown >> pure changed) else pure changed

unfoldable pub mark_cancellation_unknown : Broker → String → Bool → M Bool
unfolding update
mark_cancellation_unknown broker message notify = alert_if notify (do
  count ← update (lose_cancellation_update broker message)
  if count == 0
      then pure false
      else (emit (audit cancellation_unknown "system" none none) >> pure true))

unfoldable pub mark_submission_unknown : String → Bool → M Bool
unfolding update
mark_submission_unknown message notify = alert_if notify (do
  count ← update (lose_submission_update message)
  if count == 0
      then pure false
      else (emit (audit unknown_detected "system" (some submitting) (some submission_unknown))
          >> pure true))

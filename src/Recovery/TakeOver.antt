-- ===== src/Recovery/TakeOver.antt =====
-- `takeOverSubmissionAttempts`, `takeOverCancellationAttempts` and `takeOverStartupState`: at a cold start
-- the attempts that a stopped process left unfinished are settled, each row by its own compare-and-set.
pub mod Settled
pub mod Startup
use kis_trader_back.Common.{
  ℕ, ◌+◌, String, Bool, true, false, ◌&&◌, ◌||◌, Option, some, is_some, is_none, List, [], ◌∷◌, map,
  keep, length, if◌then◌else◌, ◌==◌, str_eq,
}
use kis_trader_back.Model.{
  TradeRecord, Broker, submitting, submission_unknown, cancelled, status_eq, CancellationStatus,
  attempting, cancellation_eq, action_not_submitted,
}
use kis_trader_back.Db.{World, Update, update, M, ◌>>=◌, ◌>>◌, pure, emit, audit}
use kis_trader_back.Recovery.{mark_submission_unknown, mark_cancellation_unknown, positive}

-- The trade record table, each row with the effects that concern it.
abbrev pub Table : Type 0
Table = List World

-- An operation on the row with a given primary key; the result says whether the row was changed.
unfoldable pub with_row : String → M Bool → Table → Bool × Table
with_row id m [] = (false, [])
with_row id m (w ∷ ws) =
    let (later, ws') = with_row id m ws in
    let (changed, w') = m w in
    if str_eq w.row.id id then (changed || later, w' ∷ ws') else (later, w ∷ ws')

pub record Attempt : Type 0 where
  pub id : String
  pub broker : Broker
  pub submission_started_at : Option ℕ

abbrev pub attempt_of : World → Attempt
attempt_of w = record {
  id = w.row.id;
  broker = w.row.broker;
  submission_started_at = w.row.submission_started_at;
}

abbrev pub is_submitting : World → Bool
is_submitting w = status_eq w.row.status submitting

abbrev pub is_cancelling : World → Bool
is_cancelling w = cancellation_eq w.row.cancellation_status (some attempting)

-- The row was never sent: cancelled with an audit entry.
abbrev pub cancel_stale_update : Update
cancel_stale_update = record {
  guard = λ r. status_eq r.status submitting && is_none r.submission_started_at;
  change = λ r. record r {
    status = cancelled;
    broker_message = some "Cold-start cancelled before broker submission";
  };
}

cancel_stale : M Bool
unfolding update
cancel_stale = do
  count ← update cancel_stale_update
  if count == 0
      then pure false
      else (emit (audit action_not_submitted "system" (some submitting) (some cancelled))
          >> pure true)

unfoldable pub settle_submission : Attempt → M Bool
unfolding cancel_stale mark_submission_unknown
settle_submission a =
    if is_some a.submission_started_at
    then mark_submission_unknown "Cold-start takeover of attempted order submission" false
    else cancel_stale

pub record Tally : Type 0 where
  pub unknown : ℕ
  pub cancelled : ℕ

abbrev count_if : Bool → ℕ → ℕ
count_if b n = if b then n + 1 else n

abbrev tally : Attempt → Bool → Tally → Tally
tally a changed s =
    if is_some a.submission_started_at
    then record s { unknown = count_if changed s.unknown }
    else record s { cancelled = count_if changed s.cancelled }

-- The loop over the snapshot of stale attempts.
unfoldable pub settle_submissions : List Attempt → Tally → Table → Tally × Table
unfolding with_row settle_submission
settle_submissions [] s t = (s, t)
settle_submissions (a ∷ rest) s t =
    let (changed, t') = with_row a.id (settle_submission a) t in
    settle_submissions rest (tally a changed s) t'

unfoldable pub take_over_submission_attempts : Table → Tally × Table
unfolding settle_submissions
take_over_submission_attempts t =
    settle_submissions (map attempt_of (keep is_submitting t))
      (record { unknown = 0; cancelled = 0 }) t

unfoldable pub settle_cancellations : List Attempt → ℕ → Table → ℕ × Table
unfolding with_row mark_cancellation_unknown
settle_cancellations [] n t = (n, t)
settle_cancellations (a ∷ rest) n t =
    let (changed, t') =
      with_row a.id
        (mark_cancellation_unknown a.broker "Cold-start takeover of unfinished cancellation" false)
        t in
    settle_cancellations rest (count_if changed n) t'

unfoldable pub take_over_cancellation_attempts : Table → ℕ × Table
unfolding settle_cancellations
take_over_cancellation_attempts t = settle_cancellations (map attempt_of (keep is_cancelling t)) 0 t

-- A row that an operator has to look at.
abbrev pub is_unresolved : World → Bool
is_unresolved w =
    status_eq w.row.status submission_unknown
    || cancellation_eq w.row.cancellation_status (some CancellationStatus.unknown)

pub record Summary : Type 0 where
  pub submission_unknown : ℕ
  pub submission_cancelled : ℕ
  pub cancellation_unknown : ℕ
  pub unresolved_count : ℕ

-- The summary goes to Slack as well.
unfoldable pub take_over_startup_state : Table → Summary × Table
unfolding take_over_submission_attempts take_over_cancellation_attempts
take_over_startup_state t =
    let (submissions, resumed) = take_over_submission_attempts t in
    let (lost, final) = take_over_cancellation_attempts resumed in
    (
      record {
        submission_unknown = submissions.unknown;
        submission_cancelled = submissions.cancelled;
        cancellation_unknown = lost;
        unresolved_count = length (keep is_unresolved final);
      },
      final,
    )

-- ===== src/Examples.antt =====
-- The theorems at concrete orders.
pub mod Data
pub mod Resolution
pub mod Services
pub mod Accounts
use Data.{
  page_of, identity_of, admitted, half_filled, listed, in_world, buy_signal, account, calm, request,
  desk, office, full_fill, report, sync, rest_listed,
}
use kis_trader_back.Common.{
  ℕ, String, zero, suc, ◌≡◌, ◌≤◌, ◌+◌, ◌⊎◌, ◌<◌, refl, Bool, true, false, not, ◌&&◌, none, some,
  List, [], ◌∷◌, length, keep, is_blank, All, ltb, arith, min,
}
use kis_trader_back.Model.{TradeRecord, sell, partial, filled, kis}
use kis_trader_back.Db.{World, update, update_many}
use kis_trader_back.Env.{matches_current_context}
use kis_trader_back.Execution.{execute_admitted}
use kis_trader_back.Execution.Posting.{IsCleared, execute_admitted-posts}
use kis_trader_back.Execution.Settling.{Ended, execute_admitted-Ended}
use kis_trader_back.Approval.Defs.{Office, quiet_office, already_handled}
use kis_trader_back.Approval.Decide.{authorized_actor, approve, reject, decide, Choice}
use kis_trader_back.Approval.Decisions.{decide_once}
use kis_trader_back.Approval.Execute.{approve_sell}
use kis_trader_back.Approval.Posting.{Sold, snapshot_of, approve_sell-posts}
use kis_trader_back.Reconcile.Record.{reconcile_reported, apply_report}
use kis_trader_back.Reconcile.Orders.{reconcile_record, reconcile_open_orders}
use kis_trader_back.Reconcile.Quantities.{told, IsExact, reconcile_record-IsExact}
use kis_trader_back.Reconcile.Once.{reconcile_reported_once}
use kis_trader_back.Reconcile.Loop.{executed_all, AreSettled, reconcile_open_orders-exact}
use kis_trader_back.Cancellation.{cancel_unfilled_order}
use kis_trader_back.Cancellation.Sending.{SentOnce, cancel_unfilled_order-SentOnce}
use kis_trader_back.Recovery.TakeOver.{
  take_over_startup_state, is_submitting, is_cancelling, is_unresolved,
}
use kis_trader_back.Recovery.TakeOver.Settled.{Each}
use kis_trader_back.Recovery.TakeOver.Startup.{take_over_startup_state-Each}
use kis_trader_back.Guard.{normalize_key, start_order, new_record, Start, began, blocks, key_of}
use kis_trader_back.Guard.Exclusive.{
  Started, IsExclusive, start_order-Started, start_order-IsExclusive,
}
use kis_trader_back.Common.First.{IsUnique}
use kis_trader_back.Pagination.{same_row, read_page, add_rows, resume, walk, paginate}
use kis_trader_back.Pagination.Complete.{
  collect, Trace, last, more, Walked, paginate_complete, paginate_sound,
}
use kis_trader_back.Lifecycle.{System, Reach, here, next, claim, send}
use kis_trader_back.Lifecycle.OnePost.{Reach-one_post}

execute_admitted-posts_example :
    let (ok, w) = execute_admitted calm request (in_world admitted) in
    ((ok ≡ false) × (w.posts ≡ []))
    ⊎ ((w.posts ≡ buy_signal ∷ []) × IsCleared calm request admitted)
execute_admitted-posts_example = execute_admitted-posts calm request (in_world admitted)

execute_admitted-Ended_example :
    Ended calm request (execute_admitted calm request (in_world admitted))
execute_admitted-Ended_example = execute_admitted-Ended calm request (in_world admitted) refl refl

-- A later click, after trading was disabled.
abbrev late_office : Office
late_office = record office { env = record office.env { now = λ k. 900000; live = λ k. false } }

decide_once_example :
    let d = (decide (quiet_office office) approve "U1" desk).1 in
    let (r, after) = decide (quiet_office late_office) reject "U2" d in
    (r.claimed ≡ false) × (r.reason ≡ some already_handled) × (after ≡ d)
unfolding decide is_blank matches_current_context
decide_once_example = decide_once office late_office approve reject "U1" "U2" desk refl

approve_sell-posts_example :
    let (r, d) = approve_sell office "U1" desk in
    ((r.submitted ≡ false) × (d.world.posts ≡ []))
    ⊎ ((actor : String) × (authorized_actor office "U1" ≡ some actor)
        × ((decide office approve actor desk).0.claimed ≡ true)
        × Sold office (snapshot_of office (decide office approve actor desk)) desk (r, d))
approve_sell-posts_example = approve_sell-posts office "U1" desk

reconcile_record-IsExact_example :
    IsExact report.links
      (in_world half_filled)
      (reconcile_record half_filled report (in_world half_filled))
reconcile_record-IsExact_example =
    reconcile_record-IsExact (in_world half_filled) report (omega arith)

-- A sell that is filled in part tells its strategy nothing, and a FILLED one the whole signal.
abbrev held_sell : TradeRecord
held_sell = record half_filled { side = sell }

sell_partial_lem :
    told (apply_report held_sell report partial 2 2 (in_world held_sell)).1.effects ≡ []
unfolding apply_report
sell_partial_lem = refl

sell_filled_lem :
    told (apply_report held_sell report filled 10 4 (in_world held_sell)).1.effects
    ≡ buy_signal.quantity ∷ []
unfolding apply_report
sell_filled_lem = refl

reconcile_reported_once_example :
    let after =
      (reconcile_reported half_filled (full_fill "100") report (in_world half_filled)).1 in
    reconcile_reported half_filled (full_fill "100") report after ≡ (false, after)
unfolding reconcile_reported update apply_report
reconcile_reported_once_example =
    reconcile_reported_once (in_world half_filled)
      ((reconcile_reported half_filled (full_fill "100") report (in_world half_filled)).1)
      (full_fill "100") report report refl (omega arith) refl

reconcile_open_orders-exact_example :
    let t = in_world half_filled ∷ in_world listed ∷ [] in
    let (fresh, after) = reconcile_open_orders sync t in
    AreSettled sync t after
    × (executed_all t ≤ executed_all after)
    × (fresh ≡ ltb (executed_all t) (executed_all after))
reconcile_open_orders-exact_example =
    reconcile_open_orders-exact sync (in_world half_filled ∷ in_world listed ∷ [])
      (omega arith, (omega arith, tt))

cancel_unfilled_order-SentOnce_example :
    SentOnce calm (half_filled.broker) half_filled (in_world half_filled) (
      cancel_unfilled_order calm
        (half_filled.broker)
        (half_filled.market)
        rest_listed
        (in_world half_filled))
cancel_unfilled_order-SentOnce_example =
    cancel_unfilled_order-SentOnce calm (half_filled.broker) (half_filled.market) rest_listed
      (in_world half_filled)

take_over_startup_state-Each_example :
    let (summary, final) =
      take_over_startup_state (in_world admitted ∷ in_world half_filled ∷ []) in
    Each (λ w. not (is_submitting w) && not (is_cancelling w)) final
    × (summary.unresolved_count ≡ length (keep is_unresolved final))
take_over_startup_state-Each_example =
    take_over_startup_state-Each (in_world admitted ∷ in_world half_filled ∷ [])

abbrev start : System
start = record { row = admitted; claims = 0; posts = 0 }

abbrev after_send : System
after_send = record {
  row = record admitted { submission_started_at = some 5 };
  claims = 0;
  posts = 1;
}

Reach-one_post_example : after_send.posts ≤ 1
unfolding update_many
Reach-one_post_example =
    Reach-one_post {s = start} {t = after_send} refl refl
      (next (next here (claim start 5 refl)) (send _ 0 refl))

start_order-Started_example :
    Started
      (buy_signal.broker)
      buy_signal
      (half_filled ∷ [])
      (start_order calm buy_signal "infinite-buy" "r2" 3000 (half_filled ∷ []))
start_order-Started_example =
    start_order-Started calm buy_signal "infinite-buy" "r2" 3000 (half_filled ∷ [])

start_order-IsExclusive_example :
    IsExclusive (start_order calm buy_signal "infinite-buy" "r2" 3000 (half_filled ∷ [])).1
start_order-IsExclusive_example =
    start_order-IsExclusive calm buy_signal "infinite-buy" "r2" 3000 (half_filled ∷ []) (refl, tt)

-- A PARTIAL record that gave up its order number does not stand in the way.
paginate_complete_example :
    paginate identity_of page_of
    ≡ some (collect identity_of [] (("100" ∷ "101" ∷ []) ∷ ("101" ∷ "102" ∷ []) ∷ []))
unfolding read_page
paginate_complete_example =
    paginate_complete identity_of page_of (("100" ∷ "101" ∷ []) ∷ ("101" ∷ "102" ∷ []) ∷ [])
      (record { tr_cont = "M"; fk = "f1"; nk = "n1" } ∷ [])
      (more 1 "" "" ("100" ∷ "101" ∷ []) (record { tr_cont = "M"; fk = "f1"; nk = "n1" })
        (("101" ∷ "102" ∷ []) ∷ []) [] refl (last 2 "f1" "n1" ("101" ∷ "102" ∷ []) refl))
      (refl, tt) (omega arith)

paginate_sound_example :
    Walked identity_of page_of 100 1 "" "" [] [] ("100" ∷ "101" ∷ "102" ∷ [])
    × IsUnique (same_row identity_of) ("100" ∷ "101" ∷ "102" ∷ [])
unfolding paginate
paginate_sound_example = paginate_sound identity_of page_of ("100" ∷ "101" ∷ "102" ∷ []) refl

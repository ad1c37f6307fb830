-- ===== src/Approval/Posting.antt =====
-- When an approved sell is sent, how often, and for how many shares.
use kis_trader_back.Common.{
  ℕ, zero, suc, ◌+◌, ◌≡◌, refl, ◌⊎◌, ◌<◌, String, true, false, none, some, ◌∷◌, arith, min, Option,
  List, if◌then◌else◌, inl, inr,
}
use Prim.Native.String
use kis_trader_back.Model.{OrderResult, BalanceItem, order_submitted}
use kis_trader_back.Db.{log}
use kis_trader_back.Env.{update_at, Reply, answered, thrown}
use kis_trader_back.Recovery.{mark_submission_unknown}
use kis_trader_back.Execution.{accept_submission_update}
use kis_trader_back.Approval.Defs.{
  Desk, Office, Reason, Result, context_matches, on_record, await, state_changed,
  broker_context_mismatch, broker_disabled, no_holding, trading_disabled, refresh_failed,
}
use kis_trader_back.Approval.Decide.{Choice, approve, authorized_actor, decide}
use kis_trader_back.Approval.Submit.{
  cancel_for, cancel_claimed_before_post, persist_accepted, report_accepted, report_rejected,
  report_unknown, report_reply, order_of, submit_order,
}
use kis_trader_back.Approval.Execute.{
  claim_quantity_update, persist_signal, held_quantity, Snapshot, post_logged, post_claimed,
  claim_and_post, persist_and_post, sell_held, sell_refreshed, execute_snapshot,
  execute_claimed_approval, approve_as, approve_sell,
}

persist_accepted-posts :
    (o : Office) (left k : ℕ) (r : OrderResult) (d : Desk)
    → (persist_accepted o left k r d).1.world.posts ≡ d.world.posts
unfolding persist_accepted
persist_accepted-posts o zero k r d = refl
persist_accepted-posts o (suc left) k r d =
    let missed = (on_record (update_at o.env k (accept_submission_update r)) d).1 in
    ground (
      arith,
      persist_accepted-posts o left (k + 1) r d,
      persist_accepted-posts o left (k + 1) r missed,
    )

-- The result says that the order was sent, and no further order goes out.
abbrev Reports : Desk → Result × Desk → Type 0
Reports d (r, d') = (r.submitted ≡ true) × (d'.world.posts ≡ d.world.posts)

report_accepted-Reports :
    (o : Office) (c : Result) (r : OrderResult) (d : Desk) → Reports d (report_accepted o c r d)
unfolding report_accepted
report_accepted-Reports o c r d = ground (arith, persist_accepted-posts o 3 61 r d)

report_rejected-Reports :
    (o : Office) (c : Result) (m : String) (d : Desk) → Reports d (report_rejected o c m d)
unfolding report_rejected
report_rejected-Reports o c m d = ground arith

report_unknown-Reports :
    (o : Office) (c : Result) (m : String) (d : Desk) → Reports d (report_unknown o c m d)
unfolding report_unknown mark_submission_unknown
report_unknown-Reports o c m d = ground arith

report_reply-Reports :
    (o : Office) (c : Result) (reply : Reply) (d : Desk) → Reports d (report_reply o c reply d)
unfolding report_reply
report_reply-Reports o c (thrown m) d = report_unknown-Reports o c m d
report_reply-Reports o c (answered r) d = ground (
  arith,
  report_accepted-Reports o c r d,
  report_rejected-Reports o c r.message d,
  report_unknown-Reports o c r.message d,
  report_unknown-Reports o c "Accepted broker response missing required order identity" d,
)

-- The last look at the conditions, after the claim and the execution log.
pub record IsOpen (o : Office) (s : Snapshot) : Type 0 where
  pub live_on : o.env.live 34 ≡ true
  pub context_current : context_matches o 34 s.row ≡ true
  pub broker_on : o.env.active 34 ≡ true

-- Nothing was sent and the result says so, or one order was sent and the result says so.
abbrev Placed : Office → Snapshot → ℕ → Desk → Result × Desk → Type 0
Placed o s quantity d (r, d') =
    ((r.submitted ≡ false) × (d'.world.posts ≡ d.world.posts))
    ⊎ ((r.submitted ≡ true)
        × (d'.world.posts ≡ order_of s.approval s.row quantity ∷ d.world.posts)
        × IsOpen o s)

post_logged-Placed :
    (o : Office) (s : Snapshot) (q t : ℕ) (d : Desk) → Placed o s q d (post_logged o s q t d)
unfolding post_logged submit_order cancel_claimed_before_post
post_logged-Placed o s q t d =
    let order = order_of s.approval s.row q in
    let sent = record d { world = record (d.world) { posts = order ∷ d.world.posts } } in
    ground (arith, report_reply-Reports o s.current (o.env.submit order) sent)

post_claimed-Placed :
    (o : Office) (s : Snapshot) (q t : ℕ) (d : Desk) → Placed o s q d (post_claimed o s q t d)
unfolding post_claimed cancel_claimed_before_post
post_claimed-Placed o s q t d =
    let logged = record d {
      world = record (d.world) { effects = log order_submitted ∷ d.world.effects };
    } in
    ground (arith, post_logged-Placed o s q t d, post_logged-Placed o s q t logged)

claim_and_post-Placed :
    (o : Office) (s : Snapshot) (q : ℕ) (d : Desk)
    → s.current.submitted ≡ false
    → Placed o s q d (claim_and_post o s q d)
unfolding claim_and_post
claim_and_post-Placed o s q d c =
    let claimed = (on_record (update_at o.env 48 (claim_quantity_update q (o.env.now 33))) d).1 in
    ground (arith, post_claimed-Placed o s q (o.env.now 33) claimed)

cancel_for-posts :
    (o : Office) (k : ℕ) (c : Result) (m : String) (why : Reason) (d : Desk)
    → let (r, d') = cancel_for o k c m why d in
      (r.submitted ≡ false) × (d'.world.posts ≡ d.world.posts)
unfolding cancel_for
cancel_for-posts o k c m why d = ground arith

persist_signal-posts :
    (o : Office) (q : ℕ) (d : Desk) → (persist_signal o q d).1.world.posts ≡ d.world.posts
unfolding persist_signal
persist_signal-posts o q d = ground arith

persist_and_post-Placed :
    (o : Office) (s : Snapshot) (q : ℕ) (d : Desk)
    → s.current.submitted ≡ false
    → Placed o s q d (persist_and_post o s q d)
unfolding persist_and_post
persist_and_post-Placed o s q d c =
    let stored = (persist_signal o q d).1 in
    ground (
      arith,
      persist_signal-posts o q d,
      claim_and_post-Placed o s q stored c,
      cancel_for-posts o 43 s.current "승인 주문 수량 저장 실패로 주문 취소" state_changed stored,
      cancel_for-posts o 44 s.current "Broker context changed before submission"
          broker_context_mismatch stored,
      cancel_for-posts o 46 s.current "Broker disabled before submission" broker_disabled stored,
    )

-- The shares of the approved stock that the refreshed account shows; none if the refresh failed.
abbrev pub shares_held : Office → Snapshot → ℕ
shares_held o s = elim o.env.holdings [ none ↦ 0 | some items ↦ held_quantity s.approval items ]

abbrev PlacedHeld : Office → Snapshot → ℕ → Desk → Result × Desk → Type 0
PlacedHeld o s held d (r, d') =
    ((r.submitted ≡ false) × (d'.world.posts ≡ d.world.posts))
    ⊎ ((r.submitted ≡ true)
        × (d'.world.posts ≡ order_of s.approval s.row (min s.row.quantity held) ∷ d.world.posts)
        × (0 < held)
        × IsOpen o s)

sell_held-PlacedHeld :
    (o : Office) (s : Snapshot) (held : ℕ) (d : Desk)
    → s.current.submitted ≡ false
    → PlacedHeld o s held d (sell_held o s held d)
unfolding sell_held
sell_held-PlacedHeld o s held d c = ground (
  arith,
  persist_and_post-Placed o s (min s.row.quantity held) d c,
  cancel_for-posts o 38 s.current "No matching broker holding" no_holding d,
  cancel_for-posts o 40 s.current "Live trading disabled before submission" trading_disabled d,
)

sell_refreshed-PlacedHeld :
    (o : Office) (s : Snapshot) (items : Option (List BalanceItem)) (d : Desk)
    → s.current.submitted ≡ false
    → PlacedHeld o s
        (elim items [ none ↦ 0 | some xs ↦ held_quantity s.approval xs ])
        d
        (sell_refreshed o s items d)
unfolding sell_refreshed
sell_refreshed-PlacedHeld o s none d c = ground (
  arith,
  cancel_for-posts o 36 s.current (String.◌++◌ "Position refresh failed: " o.env.refresh_error)
      refresh_failed d,
)
sell_refreshed-PlacedHeld o s (some items) d c =
    sell_held-PlacedHeld o s (held_quantity s.approval items) d c

execute_snapshot-PlacedHeld :
    (o : Office) (s : Snapshot) (d : Desk)
    → s.current.submitted ≡ false
    → PlacedHeld o s (shares_held o s) d (execute_snapshot o s d)
unfolding execute_snapshot
execute_snapshot-PlacedHeld o s d c = ground (
  arith,
  sell_refreshed-PlacedHeld o s o.env.holdings d c,
  cancel_for-posts o 34 s.current "Broker context changed before submission" broker_context_mismatch
      d,
  cancel_for-posts o 35 s.current "Broker disabled before submission" broker_disabled d,
)

-- The snapshot that the execution reads after a committed decision.
abbrev pub snapshot_of : Office → Result × Desk → Snapshot
snapshot_of o (current, d) =
    let seen = await o 33 d in
    record { approval = seen.approval; row = seen.world.row; current = current }

decide-posts :
    (o : Office) (choice : Choice) (actor : String) (d : Desk)
    → let (r, d') = decide o choice actor d in
      (r.submitted ≡ false) × (d'.world.posts ≡ d.world.posts)
unfolding decide
decide-posts o choice actor d = ground arith

execute_claimed_approval-PlacedHeld :
    (o : Office) (current : Result) (d : Desk)
    → current.submitted ≡ false
    → let s = snapshot_of o (current, d) in
      PlacedHeld o s (shares_held o s) d (execute_claimed_approval o current d)
unfolding execute_claimed_approval
execute_claimed_approval-PlacedHeld o current d c =
    let s = snapshot_of o (current, d) in
    ground (arith, execute_snapshot-PlacedHeld o s (await o 33 d) c)

abbrev pub Sold : Office → Snapshot → Desk → Result × Desk → Type 0
Sold o s d (r, d') =
    (r.submitted ≡ true)
    × (d'.world.posts
        ≡ order_of s.approval s.row (min s.row.quantity (shares_held o s)) ∷ d.world.posts)
    × (0 < shares_held o s)
    × IsOpen o s

decided-posts :
    (o : Office) (actor : String) (d : Desk)
    → let made = decide o approve actor d in
      let run = if made.0.claimed then execute_claimed_approval o made.0 made.1 else made in
      ((run.0.submitted ≡ false) × (run.1.world.posts ≡ d.world.posts))
      ⊎ ((made.0.claimed ≡ true) × Sold o (snapshot_of o made) d run)
decided-posts o actor d =
    let (current, decided) = decide o approve actor d in
    let (unsent, same) = decide-posts o approve actor d in
    ground (arith, execute_claimed_approval-PlacedHeld o current decided unsent)

approve_as-posts :
    (o : Office) (user : String) (who : Option String) (d : Desk)
    → authorized_actor o user ≡ who
    → let (r, d') = approve_as o who d in
      ((r.submitted ≡ false) × (d'.world.posts ≡ d.world.posts))
      ⊎ ((actor : String) × (authorized_actor o user ≡ some actor)
          × ((decide o approve actor d).0.claimed ≡ true)
          × Sold o (snapshot_of o (decide o approve actor d)) d (r, d'))
unfolding approve_as
approve_as-posts o user none d e = inl (refl, refl)
approve_as-posts o user (some actor) d e = elim (decided-posts o actor d) [
  | inl unsent ↦ inl unsent
  | inr (claimed, sold) ↦ inr (actor, e, claimed, sold)
]

-- Whatever other tasks do to the two rows, and whatever the configuration and the broker answer, a click
-- on approve either sends nothing and reports that, or sends exactly one order and reports that. Then
-- the click came from a configured approver whose decision was committed; the order is a sell of the
-- record's stock for the smaller of the record's quantity and the shares held, which are more than none;
-- and trading was enabled, the broker context unchanged and the broker active at the last look.
pub approve_sell-posts :
    (o : Office) (user : String) (d : Desk)
    → let (r, d') = approve_sell o user d in
      ((r.submitted ≡ false) × (d'.world.posts ≡ d.world.posts))
      ⊎ ((actor : String) × (authorized_actor o user ≡ some actor)
          × ((decide o approve actor d).0.claimed ≡ true)
          × Sold o (snapshot_of o (decide o approve actor d)) d (r, d'))
unfolding approve_sell
approve_sell-posts o user d = approve_as-posts o user (authorized_actor o user) d refl

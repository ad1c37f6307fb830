-- ===== src/SellRequest/Expiry.antt =====
-- `expireApprovalPair` and `expireDueApprovalPairs`: an approval and its record are closed together, in one
-- transaction. `none` is an exception, after which the tables are what they were.
use kis_trader_back.Common.{
  ℕ, String, Bool, ◌&&◌, Option, none, some, List, [], ◌∷◌, if◌then◌else◌, str_eq, leb, ◌==◌, keep,
}
use kis_trader_back.Model.{
  TradeRecord, Signal, Broker, awaiting_approval, cancelled, status_eq, expired,
}
use kis_trader_back.SellRequest.{Ticket, Counter, update_rows, is_of, is_owned, is_waiting}

abbrev pub set_expired : Ticket → Ticket
set_expired t = record t { approval = record t.approval { status = expired } }

abbrev pub set_cancelled : TradeRecord → TradeRecord
set_cancelled r = record r { status = cancelled }

abbrev pub awaits : String → TradeRecord → Bool
awaits id r = str_eq r.id id && status_eq r.status awaiting_approval

-- Exactly one record must be cancelled with the approvals.
unfoldable pub cancel_trade : String → List Ticket → Counter → Option Counter
unfolding update_rows
cancel_trade trade_id tickets c =
    let (n, trades) = update_rows (awaits trade_id) set_cancelled c.trades in
    if n == 1 then some (record { trades = trades; tickets = tickets }) else none

-- Approvals under a guard, and the record; no approval changes nothing.
unfoldable pub expire_where : (Ticket → Bool) → String → Counter → Option Counter
unfolding update_rows cancel_trade
expire_where guard trade_id c =
    let (n, tickets) = update_rows guard set_expired c.tickets in
    if n == 0 then some c else cancel_trade trade_id tickets c

abbrev pub is_pair : String → String → Ticket → Bool
is_pair id trade_id t = str_eq t.id id && str_eq t.trade_record_id trade_id && is_waiting t

unfoldable pub expire_approval_pair : String → String → Counter → Option Counter
unfolding expire_where
expire_approval_pair id trade_id c = expire_where (is_pair id trade_id) trade_id c

abbrev is_due : Broker → Signal → ℕ → Counter → Ticket → Bool
is_due b s now c t = is_owned b c t && is_of s t && is_waiting t && leb t.approval.expires_at now

abbrev is_still_due : Ticket → ℕ → Ticket → Bool
is_still_due due now t = str_eq t.id due.id && is_waiting t && leb t.approval.expires_at now

abbrev pub then_expire : (Counter → Option Counter) → Option Counter → Option Counter
then_expire rest none = none
then_expire rest (some c) = rest c

unfoldable pub expire_each : ℕ → List Ticket → Counter → Option Counter
unfolding expire_where
expire_each now [] c = some c
expire_each now (t ∷ ts) c =
    then_expire (expire_each now ts) (expire_where (is_still_due t now) t.trade_record_id c)

unfoldable pub expire_due_approval_pairs : Broker → Signal → ℕ → Counter → Option Counter
unfolding expire_each is_owned
expire_due_approval_pairs b s now c = expire_each now (keep (is_due b s now c) c.tickets) c

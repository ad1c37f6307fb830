-- ===== src/Guard/Exclusive.antt =====
-- At most one unresolved order per key, and what an admitted record looks like.
use kis_trader_back.Common.{
  ℕ, ◌≡◌, refl, String, Bool, false, ◌&&◌, Option, none, some, List, [], ◌∷◌, any, arith,
  Bool-cases, inl, inr,
}
use kis_trader_back.Model.{TradeRecord, Signal, Broker, broker_eq, BrokerContext, submitting}
use kis_trader_back.Env.{Env}
use kis_trader_back.Guard.{
  Key, is_unresolved, blocks, normalize_key, admit_normalized, admit, new_record, Start, declined,
  failed, began, start_of, key_of, start_in_context, start_at_broker, start_order,
}

abbrev pub record_key : TradeRecord → Key
record_key r = record {
  broker = r.broker;
  market = r.market;
  exchange_code = r.exchange_code;
  stock_code = r.stock_code;
  side = r.side;
}

-- Two unresolved orders for one broker, market, exchange, stock and side.
abbrev pub conflicts : TradeRecord → TradeRecord → Bool
conflicts r s = is_unresolved r && blocks (record_key r) s

-- No two records of the table conflict.
abbrev pub IsExclusive : List TradeRecord → Type 0
IsExclusive [] = Unit
IsExclusive (r ∷ rs) = (any (conflicts r) rs ≡ false) × IsExclusive rs

any_weaken :
    (b : Bool) (p : TradeRecord → Bool) (rs : List TradeRecord)
    → any p rs ≡ false
    → any (λ r. b && p r) rs ≡ false
any_weaken b p [] h = refl
any_weaken b p (r ∷ rs) h = ground (arith, any_weaken b p rs)

-- What became of the table: it is as it was, or a fresh record was put in front of it, whose key is
-- normalized and blocked by nothing.
pub record IsFresh (k : Key) (r : TradeRecord) (rows : List TradeRecord) : Type 0 where
  pub keyed : normalize_key k ≡ some (record_key r)
  pub unblocked : any (blocks (record_key r)) rows ≡ false
  pub is_submitting : r.status ≡ submitting
  pub is_unstarted : r.submission_started_at ≡ none

pub data Started (broker : Option Broker) (s : Signal) (rows : List TradeRecord)
    : Start × List TradeRecord → Type 0 where
  unchanged : Started broker s rows (declined, rows)
  threw : Started broker s rows (failed, rows)
  made :
      (b : Broker) (r : TradeRecord)
      → broker ≡ some b
      → IsFresh (key_of b s) r rows
      → Started broker s rows (began r, r ∷ rows)

admit_normalized-Started :
    (b : Broker) (s : Signal) (name : String) (c : BrokerContext) (id : String) (t : ℕ)
    (rows : List TradeRecord) (found : Option Key)
    → normalize_key (key_of b s) ≡ found
    → let (admission, rows') = admit_normalized found (new_record s name c id t) rows in
      Started (some b) s rows (start_of admission, rows')
unfolding admit_normalized
admit_normalized-Started b s name c id t rows none e = threw
admit_normalized-Started b s name c id t rows (some k) e = elim (Bool-cases (any (blocks k) rows)) [
  | inl taken ↦ rw taken unchanged
  | inr free ↦ rw free (
      made b (new_record s name c id t k) refl
        (record { keyed = e; unblocked = free; is_submitting = refl; is_unstarted = refl }))
]

start_in_context-Started :
    (s : Signal) (name id : String) (t : ℕ) (b : Broker) (c : Option BrokerContext)
    (rows : List TradeRecord)
    → Started (some b) s rows (start_in_context s name id t b c rows)
unfolding start_in_context admit
start_in_context-Started s name id t b none rows = threw
start_in_context-Started s name id t b (some c) rows = elim (Bool-cases (broker_eq c.broker b)) [
  | inl same ↦
      rw same (admit_normalized-Started b s name c id t rows (normalize_key (key_of b s)) refl)
  | inr other ↦ rw other unchanged
]

start_at_broker-Started :
    (env : Env) (s : Signal) (name id : String) (t : ℕ) (b : Option Broker)
    (rows : List TradeRecord)
    → Started b s rows (start_at_broker env s name id t b rows)
unfolding start_at_broker
start_at_broker-Started env s name id t none rows = unchanged
start_at_broker-Started env s name id t (some b) rows = elim (Bool-cases (env.active 0)) [
  | inl on ↦ rw on (start_in_context-Started s name id t b (env.context 0 b) rows)
  | inr off ↦ rw off unchanged
]

-- `execute` either returns false or throws before it created a record, and leaves the table as it was, or
-- it creates one record, under the normalized key of its signal, SUBMITTING and not started, when no
-- record of that key was unresolved.
pub start_order-Started :
    (env : Env) (s : Signal) (name id : String) (t : ℕ) (rows : List TradeRecord)
    → Started s.broker s rows (start_order env s name id t rows)
unfolding start_order
start_order-Started env s name id t rows = elim (Bool-cases (env.live 0)) [
  | inl on ↦ rw on (start_at_broker-Started env s name id t s.broker rows)
  | inr off ↦ rw off unchanged
]

Started-IsExclusive :
    {b : Option Broker} {s : Signal} {rows : List TradeRecord} {result : Start × List TradeRecord}
    → Started b s rows result
    → IsExclusive rows
    → IsExclusive (result.1)
Started-IsExclusive unchanged x = x
Started-IsExclusive threw x = x
Started-IsExclusive {rows = rows} (made b r e fresh) x =
    (any_weaken (is_unresolved r) (blocks (record_key r)) rows fresh.unblocked, x)

-- If no two records of the table are unresolved orders for one broker, market, exchange, stock and side,
-- then none are after the first part of `execute`.
pub start_order-IsExclusive :
    (env : Env) (s : Signal) (name id : String) (t : ℕ) (rows : List TradeRecord)
    → IsExclusive rows
    → IsExclusive (start_order env s name id t rows).1
start_order-IsExclusive env s name id t rows x =
    Started-IsExclusive (start_order-Started env s name id t rows) x

-- ===== src/SellRequest/Closing.antt =====
-- What the updates of a pair leave: an approval with its message, or a pair that is closed.
use mathlib.Core.Path.{subst}
use kis_trader_back.Common.{
  sym, ℕ, suc, ◌+◌, ◌*◌, ◌≡◌, ◌≤◌, ◌⊎◌, refl, String, Bool, true, false, ◌&&◌, ◌||◌, not, Option,
  none, some, List, [], ◌∷◌, any, str_eq, ltb, ◌==◌, arith, Bool-cases, inl, inr, and_split,
  is_empty, trim,
}
use kis_trader_back.Dates.{codes}
use kis_trader_back.SellRequest.{
  Ticket, Counter, Booth, Notice, Delivery, minute, approval_validity_minutes, update_rows,
  is_waiting, parse_slack_delivery, notice_at, is_decimal,
}
use kis_trader_back.SellRequest.Expiry.{
  expire_approval_pair, expire_where, cancel_trade, set_expired, set_cancelled, awaits, is_pair,
}
use kis_trader_back.SellRequest.Flow.{finalize, is_open, finalize_ticket, notice_of}

module _ {A : Type 0} (guard : A → Bool) (change : A → A) where
  update_rows-none :
      (xs : List A) → (update_rows guard change xs).0 == 0 ≡ true → any guard xs ≡ false
  unfolding update_rows
  update_rows-none [] h = refl
  update_rows-none (x ∷ xs) h = elim (Bool-cases (guard x)) [
    | inl hit ↦ absurd_lem (update_rows guard change xs).0 (rw hit at h)
    | inr miss ↦ rw miss (update_rows-none xs (rw miss at h))
  ]
    where
      absurd_lem : (n : ℕ) → suc n == 0 ≡ true → any guard (x ∷ xs) ≡ false
      absurd_lem n g = ground arith

  -- What no changed row satisfies, none satisfies afterwards.
  update_rows-cleared :
      ((x : A) → guard x ≡ true → guard (change x) ≡ false)
      → (xs : List A) → any guard (update_rows guard change xs).1 ≡ false
  unfolding update_rows
  update_rows-cleared c [] = refl
  update_rows-cleared c (x ∷ xs) = elim (Bool-cases (guard x)) [
    | inl hit ↦ rw (hit, c x hit) (update_rows-cleared c xs)
    | inr miss ↦ rw (miss, miss) (update_rows-cleared c xs)
  ]

  -- What every changed row satisfies, one satisfies afterwards.
  update_rows-found :
      (q : A → Bool)
      → ((x : A) → guard x ≡ true → q (change x) ≡ true)
      → (xs : List A) → (update_rows guard change xs).0 == 0 ≡ false
      → any q (update_rows guard change xs).1 ≡ true
  unfolding update_rows
  update_rows-found q c [] h = ground arith
  update_rows-found q c (x ∷ xs) h = elim (Bool-cases (guard x)) [
    | inl hit ↦ rw (hit, c x hit) refl
    | inr miss ↦ rw miss (or_right (q x) (update_rows-found q c xs (rw miss at h)))
  ]
    where
      or_right : (b : Bool) {d : Bool} → d ≡ true → (b || d) ≡ true
      or_right b g = ground arith

-- The approval has its message, and ten minutes from it.
unfoldable pub is_final : Booth → Notice → Ticket → Bool
is_final e n t =
    str_eq t.id e.ticket_id
    && str_eq t.trade_record_id e.trade_id
    && is_waiting t
    && is_notified t.approval.notified_at
    && t.approval.expires_at == n.notified_at + approval_validity_minutes * minute
  where
    is_notified : Option ℕ → Bool
    is_notified none = false
    is_notified (some m) = m == n.notified_at

is_final-finalize :
    (e : Booth) (n : Notice) (t : Ticket) → is_open e t ≡ true → is_final e n (finalize n t) ≡ true
unfolding is_final
is_final-finalize e n t h =
    let (still_open, unexpired) = and_split _ _ h in conj _ still_open n.notified_at _
  where
    conj : (b : Bool) → b ≡ true → (x y : ℕ) → (b && x == x && y == y) ≡ true
    conj b g x y = ground arith

notice_at-bounds :
    (ts channel : String) (requested received : ℕ) (n : Notice) (o : Option ℕ)
    → notice_at ts channel requested received o ≡ some n
    → (requested ≤ n.notified_at) × (n.notified_at ≤ received)
notice_at-bounds ts channel requested received n none h = cc
notice_at-bounds ts channel requested received n (some t) h =
    elim (Bool-cases (ltb t requested || ltb received t)) [
      | inl outside ↦ absurd_lem (rw outside at h)
      | inr inside ↦
          let at_lem : t ≡ n.notified_at = time_lem (rw inside at h) in
          (
            subst (λ m. requested ≤ m) at_lem (ground arith),
            subst (λ m. m ≤ received) at_lem (ground arith),
          )
    ]
  where
    time_lem :
        some (record { ts = ts; channel = channel; notified_at = t }) ≡ some n → t ≡ n.notified_at
    time_lem g = cc

    absurd_lem : none ≡ some n → (requested ≤ n.notified_at) × (n.notified_at ≤ received)
    absurd_lem g = cc

-- A message that Slack delivered came between the request and the answer.
parse_slack_delivery-bounds :
    (instant : String → Option ℕ) (requested received : ℕ) (n : Notice) (o : Option Delivery)
    → parse_slack_delivery instant o requested received ≡ some n
    → (requested ≤ n.notified_at) × (n.notified_at ≤ received)
unfolding parse_slack_delivery
parse_slack_delivery-bounds instant requested received n none h = cc
parse_slack_delivery-bounds instant requested received n (some d) h =
    elim (Bool-cases
      (is_empty (trim d.ts) || is_empty (trim d.channel) || not (is_decimal (codes (trim d.ts))))) [
        | inl bad ↦ absurd_lem (rw bad at h)
        | inr good ↦
            notice_at-bounds (trim d.ts) (trim d.channel) requested received n (instant (trim d.ts))
              (rw good at h)
      ]
  where
    absurd_lem : none ≡ some n → (requested ≤ n.notified_at) × (n.notified_at ≤ received)
    absurd_lem g = cc

pub notice_of-bounds :
    (e : Booth) (n : Notice)
    → notice_of e ≡ some n
    → (e.now 0 ≤ n.notified_at) × (n.notified_at ≤ e.now 1)
notice_of-bounds e n h = elim (Bool-cases e.slack_enabled) [
  | inl on ↦ parse_slack_delivery-bounds e.instant (e.now 0) (e.now 1) n e.delivery (rw on at h)
  | inr off ↦ absurd_lem (rw off at h)
]
  where
    absurd_lem : none ≡ some n → (e.now 0 ≤ n.notified_at) × (n.notified_at ≤ e.now 1)
    absurd_lem g = cc

cancel_trade-cleared :
    (trade_id : String) (tickets : List Ticket) (c c' : Counter)
    → cancel_trade trade_id tickets c ≡ some c'
    → (c'.tickets ≡ tickets) × (any (awaits trade_id) c'.trades ≡ false)
unfolding cancel_trade
cancel_trade-cleared trade_id tickets c c' h =
    elim (Bool-cases ((update_rows (awaits trade_id) set_cancelled c.trades).0 == 1)) [
      | inl one ↦
          let gone =
            update_rows-cleared (awaits trade_id) set_cancelled
              (λ r e. not_awaiting (str_eq r.id trade_id)) c.trades in
          subst (λ d. (d.tickets ≡ tickets) × (any (awaits trade_id) d.trades ≡ false))
            (some_lem (rw one at h)) (refl, gone)
      | inr not_one ↦ absurd_lem (rw not_one at h)
    ]
  where
    some_lem : {d : Counter} → some d ≡ some c' → d ≡ c'
    some_lem g = cc

    not_awaiting : (b : Bool) → (b && false) ≡ false
    not_awaiting b = ground arith

    absurd_lem : none ≡ some c' → (c'.tickets ≡ tickets) × (any (awaits trade_id) c'.trades ≡ false)
    absurd_lem g = cc

pub cleared_pair :
    (id trade_id : String) (c c' : Counter)
    → expire_approval_pair id trade_id c ≡ some c'
    → (any (is_pair id trade_id) c'.tickets ≡ false)
      × ((any (is_pair id trade_id) c.tickets ≡ false) ⊎ (any (awaits trade_id) c'.trades ≡ false))
unfolding expire_approval_pair expire_where
cleared_pair id trade_id c c' h =
    elim (Bool-cases ((update_rows (is_pair id trade_id) set_expired c.tickets).0 == 0)) [
      | inl none_waits ↦
          let gone = update_rows-none (is_pair id trade_id) set_expired c.tickets none_waits in
          let same : some c ≡ some c' = rw none_waits at h in
          (subst (λ d. any (is_pair id trade_id) d.tickets ≡ false) (some_lem same) gone, inl gone)
      | inr some_wait ↦
          let gone =
            update_rows-cleared (is_pair id trade_id) set_expired
              (λ t e. not_waiting (str_eq t.id id) (str_eq t.trade_record_id trade_id)) c.tickets in
          let (tickets_are, closed_trade) =
            cancel_trade-cleared trade_id
              (update_rows (is_pair id trade_id) set_expired c.tickets).1 c c'
              (rw some_wait at h) in
          (
            subst (λ ts. any (is_pair id trade_id) ts ≡ false) (sym tickets_are) gone,
            inr closed_trade,
          )
    ]
  where
    some_lem : some c ≡ some c' → c ≡ c'
    some_lem e = cc

    not_waiting : (a b : Bool) → (a && b && false) ≡ false
    not_waiting a b = ground arith

pub finalize_ticket-final :
    (e : Booth) (n : Notice) (c : Counter)
    → (finalize_ticket e n c).0 ≡ true
    → any (is_final e n) (finalize_ticket e n c).1.tickets ≡ true
unfolding finalize_ticket
finalize_ticket-final e n c h =
    update_rows-found (is_open e) (finalize n) (is_final e n) (is_final-finalize e n) c.tickets
      (not_none (update_rows (is_open e) (finalize n) c.tickets).0 h)
  where
    not_none : (k : ℕ) → k == 1 ≡ true → k == 0 ≡ false
    not_none k g = ground arith

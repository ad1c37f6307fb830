-- ===== src/SellRequest/Settled.antt =====
-- What `requestApproval` leaves behind, whatever other tasks do meanwhile.
use kis_trader_back.Common.{
  ◌≡◌, ◌≤◌, ◌⊎◌, refl, Bool, true, false, Option, none, some, ◌∷◌, any, if◌then◌else◌, Bool-cases,
  inl, inr,
}
use kis_trader_back.Model.{Signal, Broker, BrokerContext}
use kis_trader_back.Guard.{Key, blocks, normalize_key, key_of}
use kis_trader_back.SellRequest.{Counter, Booth, Notice, normalize_approval_signal}
use kis_trader_back.SellRequest.Expiry.{
  expire_due_approval_pairs, expire_approval_pair, awaits, is_pair,
}
use kis_trader_back.SellRequest.Flow.{
  Labels, Ending, no_broker, threw, busy, cooling, lost_race, delivered, undelivered, is_cooling,
  is_pending_elsewhere, finalize_ticket, create_pair, admit_pair, new_trade, new_ticket,
  reload_pending_approval, after_sending, notice_of, send_request, closed, deliver, after_admission,
  admit_and_deliver, after_expiry, request_in, request_approval,
}
use kis_trader_back.SellRequest.Closing.{
  is_final, notice_of-bounds, cleared_pair, finalize_ticket-final,
}

-- The tables after the pairs that had run out were closed.
pub record Met (e : Booth) (s : Signal) (c : Counter) (b : Broker) (cleared : Counter)
    : Type 0 where
  pub broker_is : s.broker ≡ some b
  pub cleared_is : expire_due_approval_pairs b s (e.now 0) (e.meddle 0 c) ≡ some cleared

-- The tables in which the pair was created, and those with the pair: no order of the key is unresolved, no
-- approval of the instrument is pending, and no message of it is within the cooldown.
pub record Opened (e : Booth) (s : Signal) (l : Labels) (c c1 c2 : Counter) : Type 0 where
  pub broker : Broker
  pub cleared : Counter
  pub met : Met e s c broker cleared
  pub context : BrokerContext
  pub key : Key
  pub context_is : e.context broker ≡ some context
  pub key_is : normalize_key (key_of broker s) ≡ some key
  pub found : c1 ≡ e.meddle 1 cleared
  pub unblocked : any (blocks key) c1.trades ≡ false
  pub rested : is_cooling broker s (e.now 0) c1 ≡ false
  pub unpending : is_pending_elsewhere s c1 ≡ false
  pub trades_are : c2.trades ≡ new_trade s broker l context e.trade_id (e.now 0) ∷ c1.trades
  pub tickets_are : c2.tickets ≡ new_ticket s e.ticket_id e.trade_id (e.now 0) ∷ c1.tickets

-- The tables just before the pair is closed.
abbrev pub before_closing : Booth → Counter → Counter
before_closing e c2 = e.meddle 4 (send_request e (notice_of e) c2).1

-- Why a request ended before a pair was created, and the tables as it left them: as other tasks did, but
-- for the closing of the pairs that had run out.
pub data Refused (e : Booth) (s : Signal) (c : Counter) : Ending × Counter → Type 0 where
  unbrokered : s.broker ≡ none → Refused e s c (no_broker, c)
  unclosable :
      (b : Broker)
      → s.broker ≡ some b
      → expire_due_approval_pairs b s (e.now 0) (e.meddle 0 c) ≡ none
      → Refused e s c (threw, e.meddle 0 c)
  contextless :
      (b : Broker) (cleared : Counter)
      → Met e s c b cleared
      → e.context b ≡ none
      → Refused e s c (threw, cleared)
  keyless :
      (b : Broker) (cleared : Counter)
      → Met e s c b cleared
      → normalize_key (key_of b s) ≡ none
      → Refused e s c (threw, e.meddle 1 cleared)
  blocked :
      (b : Broker) (cleared : Counter) (k : Key)
      → Met e s c b cleared
      → normalize_key (key_of b s) ≡ some k
      → any (blocks k) (e.meddle 1 cleared).trades ≡ true
      → Refused e s c (busy, e.meddle 1 cleared)
  cooled :
      (b : Broker) (cleared : Counter)
      → Met e s c b cleared
      → is_cooling b s (e.now 0) (e.meddle 1 cleared) ≡ true
      → Refused e s c (cooling, e.meddle 1 cleared)
  raced :
      (b : Broker) (cleared : Counter)
      → Met e s c b cleared
      → is_pending_elsewhere s (e.meddle 1 cleared) ≡ true
      → Refused e s c (
        if reload_pending_approval b s (e.meddle 2 (e.meddle 1 cleared)) then lost_race else threw,
        e.meddle 2 (e.meddle 1 cleared),
      )

pub data Settled (e : Booth) (s : Signal) (l : Labels) (c : Counter)
    : Ending × Counter → Type 0 where
  not_opened : (r : Ending × Counter) → Refused e s c r → Settled e s l c r
  sent :
      (c1 c2 : Counter) (n : Notice)
      → Opened e s l c c1 c2
      → notice_of e ≡ some n
      → e.now 0 ≤ n.notified_at
      → n.notified_at ≤ e.now 1
      → any (is_final e n) (finalize_ticket e n (e.meddle 3 c2)).1.tickets ≡ true
      → Settled e s l c (delivered, (finalize_ticket e n (e.meddle 3 c2)).1)
  unsent :
      (c1 c2 c' : Counter)
      → Opened e s l c c1 c2
      → expire_approval_pair e.ticket_id e.trade_id (before_closing e c2) ≡ some c'
      → any (is_pair e.ticket_id e.trade_id) c'.tickets ≡ false
      → (any (is_pair e.ticket_id e.trade_id) (before_closing e c2).tickets ≡ false)
        ⊎ (any (awaits e.trade_id) c'.trades ≡ false)
      → Settled e s l c (undelivered, c')
  unclosed :
      (c1 c2 : Counter)
      → Opened e s l c c1 c2
      → expire_approval_pair e.ticket_id e.trade_id (before_closing e c2) ≡ none
      → Settled e s l c (threw, before_closing e c2)

closed-Settled :
    (e : Booth) (s : Signal) (l : Labels) (c c1 c2 : Counter) (x : Option Counter)
    → Opened e s l c c1 c2
    → expire_approval_pair e.ticket_id e.trade_id (before_closing e c2) ≡ x
    → Settled e s l c (closed x (before_closing e c2))
closed-Settled e s l c c1 c2 none o h = unclosed c1 c2 o h
closed-Settled e s l c c1 c2 (some c') o h =
    let (gone, closed_trade) = cleared_pair e.ticket_id e.trade_id (before_closing e c2) c' h in
    unsent c1 c2 c' o h gone closed_trade

sent_request-Settled :
    (e : Booth) (s : Signal) (l : Labels) (c c1 c2 : Counter) (x : Option Notice)
    → Opened e s l c c1 c2
    → notice_of e ≡ x
    → (send_request e x c2).0 ≡ true
    → Settled e s l c (delivered, (send_request e x c2).1)
unfolding send_request
sent_request-Settled e s l c c1 c2 none o h g = absurd (let n : ⊥ = cc in n)
sent_request-Settled e s l c c1 c2 (some n) o h g =
    let (after_request, before_answer) = notice_of-bounds e n h in
    sent c1 c2 n o h after_request before_answer (finalize_ticket-final e n (e.meddle 3 c2) g)

deliver-Settled :
    (e : Booth) (s : Signal) (l : Labels) (c c1 c2 : Counter)
    → Opened e s l c c1 c2
    → Settled e s l c (deliver e c2)
unfolding deliver after_sending
deliver-Settled e s l c c1 c2 o = by_sent (send_request e (notice_of e) c2).0 refl
  where
    by_sent :
        (b : Bool)
        → (send_request e (notice_of e) c2).0 ≡ b
        → Settled e s l c (after_sending e b (send_request e (notice_of e) c2).1)
    by_sent true h = sent_request-Settled e s l c c1 c2 (notice_of e) o refl h
    by_sent false h = closed-Settled e s l c c1 c2 _ o refl

create_pair-Settled :
    (e : Booth) (s : Signal) (b : Broker) (l : Labels) (context : BrokerContext) (k : Key)
    (c cleared : Counter)
    → Met e s c b cleared
    → e.context b ≡ some context
    → normalize_key (key_of b s) ≡ some k
    → any (blocks k) (e.meddle 1 cleared).trades ≡ false
    → is_cooling b s (e.now 0) (e.meddle 1 cleared) ≡ false
    → Settled e s l c (
        after_admission e b s
          (e.meddle 1 cleared)
          (create_pair s b l context e (e.meddle 1 cleared)))
unfolding create_pair
create_pair-Settled e s b l context k c cleared met context_is key_is free rest =
    elim (Bool-cases (is_pending_elsewhere s (e.meddle 1 cleared))) [
      | inl pending ↦ rw pending (not_opened _ (raced b cleared met pending))
      | inr unpending ↦ rw unpending (
          deliver-Settled e s l c (e.meddle 1 cleared) _ (record {
            broker = b;
            cleared = cleared;
            met = met;
            context = context;
            key = k;
            context_is = context_is;
            key_is = key_is;
            found = refl;
            unblocked = free;
            rested = rest;
            unpending = unpending;
            trades_are = refl;
            tickets_are = refl;
          }))
    ]

admit_pair-Settled :
    (e : Booth) (s : Signal) (b : Broker) (l : Labels) (context : BrokerContext) (x : Option Key)
    (c cleared : Counter)
    → Met e s c b cleared
    → e.context b ≡ some context
    → normalize_key (key_of b s) ≡ x
    → Settled e s l c (
        after_admission e b s
          (e.meddle 1 cleared)
          (admit_pair s b l context e x (e.meddle 1 cleared)))
unfolding admit_pair
admit_pair-Settled e s b l context none c cleared met context_is key_is =
    not_opened _ (keyless b cleared met key_is)
admit_pair-Settled e s b l context (some k) c cleared met context_is key_is =
    elim (Bool-cases (any (blocks k) (e.meddle 1 cleared).trades)) [
      | inl taken ↦ rw taken (not_opened _ (blocked b cleared k met key_is taken))
      | inr free ↦ elim (Bool-cases (is_cooling b s (e.now 0) (e.meddle 1 cleared))) [
        | inl hot ↦ rw (free, hot) (not_opened _ (cooled b cleared met hot))
        | inr rest ↦
            rw (free, rest)
              (create_pair-Settled e s b l context k c cleared met context_is key_is free rest)
      ]
    ]

context-Settled :
    (e : Booth) (s : Signal) (b : Broker) (l : Labels) (c cleared : Counter)
    (x : Option BrokerContext)
    → Met e s c b cleared
    → e.context b ≡ x
    → Settled e s l c (admit_and_deliver e s b l x cleared)
unfolding admit_and_deliver
context-Settled e s b l c cleared none met context_is =
    not_opened _ (contextless b cleared met context_is)
context-Settled e s b l c cleared (some context) met context_is =
    admit_pair-Settled e s b l context (normalize_key (key_of b s)) c cleared met context_is refl

after_expiry-Settled :
    (e : Booth) (s : Signal) (b : Broker) (l : Labels) (c : Counter) (x : Option Counter)
    → s.broker ≡ some b
    → expire_due_approval_pairs b s (e.now 0) (e.meddle 0 c) ≡ x
    → Settled e s l c (after_expiry e s b l (e.meddle 0 c) x)
after_expiry-Settled e s b l c none b_is h = not_opened _ (unclosable b b_is h)
after_expiry-Settled e s b l c (some cleared) b_is h =
    context-Settled e s b l c cleared (e.context b) (record { broker_is = b_is; cleared_is = h })
      refl

request_in-Settled :
    (e : Booth) (s : Signal) (b : Option Broker) (l : Labels) (c : Counter)
    → s.broker ≡ b
    → Settled e s l c (request_in e s b l c)
unfolding request_in
request_in-Settled e s none l c h = not_opened _ (unbrokered h)
request_in-Settled e s (some b) l c h = after_expiry-Settled e s b l c _ h refl

-- Whatever other tasks do to the two tables meanwhile, and whatever Slack answers, `requestApproval` ends in
-- one of four ways. Refused, before it created anything: there is no broker, context or valid key, an order
-- of the key is unresolved, an approval of the instrument is pending, or one of the broker's was notified
-- within thirty minutes, or closing the pairs that had run out failed; then the tables are those that other
-- tasks left, but for the closing of those pairs. In the other three the pair was created for the normalized signal in the
-- broker's context, in the tables met at the admission, when none of this held. Delivered: then the
-- message's time lies between the request and Slack's answer, and an approval of the pair is still waiting,
-- with that time and an expiry ten minutes after it. Undelivered: then no approval of the pair is waiting,
-- and if one still was before it was closed, then the record awaits no approval either. Or closing the pair
-- failed, which throws and leaves the tables as they were before it.
pub request_approval-Settled :
    (e : Booth) (signal : Signal) (l : Labels) (c : Counter)
    → Settled e (normalize_approval_signal signal) l c (request_approval e signal l c)
unfolding request_approval
request_approval-Settled e signal l c =
    request_in-Settled e (normalize_approval_signal signal) _ l c refl

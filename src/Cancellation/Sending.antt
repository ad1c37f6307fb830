-- ===== src/Cancellation/Sending.antt =====
-- When a cancellation is sent, for how many shares, and what its attempt ends as.
use kis_trader_back.Common.{
  ℕ, ◌≡◌, refl, ◌⊎◌, ◌≢◌, Bool, true, false, some, none, List, [], ◌∷◌, arith, inl, inr, Bool-cases,
  ==→eq, and_right, ◌∙◌, ap, Option,
}
use kis_trader_back.Model.{TradeRecord, UnfilledOrder, Market, Broker, BrokerContext}
use kis_trader_back.Db.{
  World, Effect, cancel_sent, strategy_fill, audit, log, alert_unknown, alert_failure,
  warn_persistence, mark_second_target, strategy_failure, notify_fill,
}
use kis_trader_back.Env.{Env, Reply, matches_current_context}
use kis_trader_back.Recovery.{
  claim_cancellation, release_cancellation_claim, mark_cancellation_accepted,
  mark_cancellation_rejected, mark_cancellation_unknown,
}
use kis_trader_back.Cancellation.{
  settle_cancellation, cancel_claimed, claim_and_cancel, cancel_in_context, cancel_normalized,
  normalize_unfilled_order, cancel_unfilled_order, remaining, is_same_target, is_eligible,
}

-- The cancellations that were sent, each with its shares.
abbrev pub sent : List Effect → List ℕ
sent [] = []
sent (cancel_sent n ∷ es) = n ∷ sent es
sent (strategy_fill b n ∷ es) = sent es
sent (audit a who x y ∷ es) = sent es
sent (log e ∷ es) = sent es
sent (alert_unknown ∷ es) = sent es
sent (alert_failure ∷ es) = sent es
sent (warn_persistence ∷ es) = sent es
sent (mark_second_target ∷ es) = sent es
sent (strategy_failure ∷ es) = sent es
sent (notify_fill n ∷ es) = sent es

settle_cancellation-sent :
    (env : Env) (b : Broker) (reply : Reply) (w : World)
    → sent (settle_cancellation env b reply w).1.effects ≡ sent w.effects
unfolding settle_cancellation mark_cancellation_unknown mark_cancellation_rejected
    mark_cancellation_accepted
settle_cancellation-sent env b reply w = ground arith

-- The last look at the conditions, after the claim; `row` is the record as it was read again.
pub record IsCleared (env : Env) (broker : Broker) (initial row : TradeRecord) : Type 0 where
  pub live_on : env.live 72 ≡ true
  pub broker_on : env.active 72 ≡ true
  pub same_target : is_same_target initial row ≡ true
  pub context_current :
      matches_current_context env 72 broker row.broker_environment row.broker_account_hash ≡ true

abbrev Sent :
    Env → Broker → UnfilledOrder → TradeRecord → TradeRecord → World → Bool × World → Type 0
Sent env b o initial row w (done, w') =
    ((done ≡ false) × (sent w'.effects ≡ sent w.effects))
    ⊎ ((sent w'.effects ≡ o.quantity ∷ sent w.effects) × IsCleared env b initial row)

release-sent :
    (now : ℕ) (b : Broker) (m : _) (w : World)
    → sent (release_cancellation_claim now b m w).1.effects ≡ sent w.effects
unfolding release_cancellation_claim
release-sent now b m w = ground arith

cancel_claimed-Sent :
    (env : Env) (b : Broker) (o : UnfilledOrder) (initial claimed : TradeRecord) (w : World)
    → Sent env b o initial claimed w (cancel_claimed env b o initial claimed w)
unfolding cancel_claimed release_cancellation_claim
cancel_claimed-Sent env b o initial claimed w =
    let out = record w { effects = cancel_sent o.quantity ∷ w.effects } in
    ground (arith, settle_cancellation-sent env b (env.cancel o.quantity) out)

claim_cancellation-effects :
    (now : ℕ) (b : Broker) (w : World) → (claim_cancellation now b w).1.effects ≡ w.effects
unfolding claim_cancellation
claim_cancellation-effects now b w = ground arith

-- The claim, on the record as other tasks left it, and the record that is read after it.
abbrev pub claim_of : Env → Broker → World → Bool × World
claim_of env b w = claim_cancellation (env.now 70) b (record w { row = env.meddle 70 w.row })

abbrev pub reread : Env → Broker → World → TradeRecord
reread env b w = env.meddle 71 (claim_of env b w).1.row

-- Nothing was sent and the answer is not true, or one cancellation was sent, for all that is left of the
-- record as it was found, by a task that had won the claim and cleared the record that it read after it.
abbrev pub SentOnce : Env → Broker → TradeRecord → World → Option Bool × World → Type 0
SentOnce env b initial w (done, w') =
    ((done ≢ some true) × (sent w'.effects ≡ sent w.effects))
    ⊎ ((sent w'.effects ≡ remaining initial ∷ sent w.effects)
        × ((claim_of env b w).0 ≡ true)
        × IsCleared env b initial (reread env b w))

claim_and_cancel-Sent :
    (env : Env) (b : Broker) (o : UnfilledOrder) (initial : TradeRecord) (w : World)
    → let (done, w') = claim_and_cancel env b o initial w in
      ((done ≡ false) × (sent w'.effects ≡ sent w.effects))
      ⊎ ((sent w'.effects ≡ o.quantity ∷ sent w.effects)
          × ((claim_of env b w).0 ≡ true)
          × IsCleared env b initial (reread env b w))
unfolding claim_and_cancel
claim_and_cancel-Sent env b o initial w =
    let start = record w { row = env.meddle 70 w.row } in
    let met = (claim_cancellation (env.now 70) b start).1 in
    let row = env.meddle 71 met.row in
    ground (
      arith,
      claim_cancellation-effects (env.now 70) b start,
      cancel_claimed-Sent env b o initial row (record met { row = row }),
    )

is_eligible-quantity :
    (c : BrokerContext) (b : Broker) (m : Market) (o : UnfilledOrder) (r : TradeRecord)
    → is_eligible c b m o r ≡ true
    → o.quantity ≡ remaining r
unfolding is_eligible
is_eligible-quantity c b m o r h = ==→eq _ _ (and_right _ _ h)

cancel_in_context-SentOnce :
    (env : Env) (b : Broker) (m : Market) (o : UnfilledOrder) (c : Option BrokerContext) (w : World)
    → SentOnce env b w.row w (cancel_in_context env b m o c w)
unfolding cancel_in_context
cancel_in_context-SentOnce env b m o none w = inl ((λ e. cc), refl)
cancel_in_context-SentOnce env b m o (some c) w = elim (Bool-cases (is_eligible c b m o w.row)) [
  | inr unfit ↦ rw unfit (inl ((λ e. cc), refl))
  | inl fit ↦ rw fit (elim (claim_and_cancel-Sent env b o w.row w) [
    | inl (failed, same) ↦ inl ((λ e. cc), same)
    | inr (out, won, cleared) ↦
        inr (
          out ∙ ap (λ n. n ∷ sent w.effects) (is_eligible-quantity c b m o w.row fit),
          won,
          cleared,
        )
  ])
]

cancel_normalized-SentOnce :
    (env : Env) (b : Broker) (m : Market) (o : Option UnfilledOrder) (w : World)
    → SentOnce env b w.row w (cancel_normalized env b m o w)
unfolding cancel_normalized
cancel_normalized-SentOnce env b m none w = inl ((λ e. cc), refl)
cancel_normalized-SentOnce env b m (some o) w = elim (Bool-cases (env.active 70)) [
  | inl on ↦ rw on (cancel_in_context-SentOnce env b m o (env.context 70 b) w)
  | inr off ↦ rw off (inl ((λ e. cc), refl))
]

-- Whatever other tasks do to the record meanwhile, and whatever the configuration and the broker answer,
-- `cancelUnfilledOrder` either sends nothing and does not return true, or sends exactly one cancellation,
-- for the shares that are left of the record as it was found. Then it had won the claim, and the record
-- that it read after the claim was still the same target, trading was enabled, the broker active and its
-- context that of this record.
pub cancel_unfilled_order-SentOnce :
    (env : Env) (b : Broker) (m : Market) (order : UnfilledOrder) (w : World)
    → SentOnce env b w.row w (cancel_unfilled_order env b m order w)
unfolding cancel_unfilled_order
cancel_unfilled_order-SentOnce env b m order w = elim (Bool-cases (env.live 70)) [
  | inl on ↦ rw on (cancel_normalized-SentOnce env b m (normalize_unfilled_order m order) w)
  | inr off ↦ rw off (inl ((λ e. cc), refl))
]

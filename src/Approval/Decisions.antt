-- ===== src/Approval/Decisions.antt =====
-- What `decide` does to the pair of rows.
use kis_trader_back.Common.{
  ℕ, ◌≡◌, refl, ◌⊎◌, inl, inr, String, Bool, true, false, ◌&&◌, not, if◌then◌else◌, Option, some,
  none, arith,
}
use kis_trader_back.Model.{cancelled, awaiting_approval, status_eq, waiting, expired, approval_eq}
use kis_trader_back.Approval.Defs.{
  Desk, Office, Reason, Result, expired_reason, already_handled, delivery_not_ready,
  broker_context_mismatch, trading_disabled, broker_disabled, await, context_matches, quiet_office,
}
use kis_trader_back.Approval.Decide.{
  Choice, approve, reject, is_approve, is_delivered, approval_after, record_after, unclaimed,
  expire_pair, answer_pair, decide,
}

-- The decision was committed: both rows carry it, and the approval names who took it.
pub record IsClaimed (choice : Choice) (actor : String) (r : Result) (d : Desk) : Type 0 where
  pub claimed : r.claimed ≡ true
  pub no_reason : r.reason ≡ none
  pub approval_decided : d.approval.status ≡ approval_after choice
  pub record_decided : d.world.row.status ≡ record_after choice
  pub responder : d.approval.responded_by ≡ some actor

-- The approval had run out: both rows are closed.
pub record IsExpired (r : Result) (d : Desk) : Type 0 where
  pub unclaimed : r.claimed ≡ false
  pub reported : r.reason ≡ some expired_reason
  pub approval_expired : d.approval.status ≡ expired
  pub record_cancelled : d.world.row.status ≡ cancelled

-- The reason holds of the rows that were read: they are not both waiting, the message was not delivered,
-- or an approval met another context, disabled trading or a disabled broker.
abbrev pub IsRefused : Office → Choice → Desk → Option Reason → Type 0
IsRefused o choice d reason =
    ((reason ≡ some already_handled)
      × ((approval_eq d.approval.status waiting && status_eq d.world.row.status awaiting_approval)
          ≡ false))
    ⊎ ((reason ≡ some delivery_not_ready) × (is_delivered d.approval ≡ false))
    ⊎ ((reason ≡ some broker_context_mismatch)
        × (is_approve choice ≡ true)
        × (context_matches o 30 d.world.row ≡ false))
    ⊎ ((reason ≡ some trading_disabled) × (is_approve choice ≡ true) × (o.env.live 30 ≡ false))
    ⊎ ((reason ≡ some broker_disabled) × (is_approve choice ≡ true) × (o.env.active 30 ≡ false))

-- Both rows are as the other tasks left them: the rows refuse the decision, or other tasks were faster.
pub record IsUntouched (o : Office) (choice : Choice) (before : Desk) (r : Result) (d : Desk)
    : Type 0 where
  pub unclaimed : r.claimed ≡ false
  pub approval_reported : r.approval_status ≡ some d.approval.status
  pub trade_reported : r.trade_status ≡ some d.world.row.status
  pub untouched :
      ((d ≡ await o 30 before) × IsRefused o choice d r.reason)
      ⊎ ((d ≡ await o 32 (await o 31 (await o 30 before))) × (r.reason ≡ some already_handled))

-- Other tasks were faster.
abbrev IsLate : Office → Desk → Result × Desk → Type 0
IsLate o seen (r, d) =
    (r.claimed ≡ false)
    × (r.approval_status ≡ some d.approval.status)
    × (r.trade_status ≡ some d.world.row.status)
    × (d ≡ await o 32 (await o 31 seen))
    × (r.reason ≡ some already_handled)

expire_pair_lem :
    (o : Office) (now : ℕ) (seen : Desk)
    → let (r, d) = expire_pair o now seen in IsExpired r d ⊎ IsLate o seen (r, d)
unfolding expire_pair
expire_pair_lem o now seen = ground arith

answer_pair_lem :
    (o : Office) (now : ℕ) (choice : Choice) (actor : String) (seen : Desk)
    → let (r, d) = answer_pair o now choice actor seen in
      IsClaimed choice actor r d ⊎ IsLate o seen (r, d)
unfolding answer_pair
answer_pair_lem o now choice actor seen = ground arith

abbrev Outcome : Office → Choice → String → Desk → Result × Desk → Type 0
Outcome o choice actor before (r, d) =
    IsClaimed choice actor r d ⊎ IsExpired r d ⊎ IsUntouched o choice before r d

refused_lem :
    (o : Office) (choice : Choice) (actor : String) (before : Desk) (reason : Reason)
    → IsRefused o choice (await o 30 before) (some reason)
    → Outcome o choice actor before (unclaimed reason (await o 30 before))
refused_lem o choice actor before reason h = inr (
    inr (record {
      unclaimed = refl;
      approval_reported = refl;
      trade_reported = refl;
      untouched = inl (refl, h);
    }))

late_lem :
    (o : Office) (choice : Choice) (before : Desk) (r : Result) (d : Desk)
    → IsLate o (await o 30 before) (r, d)
    → IsUntouched o choice before r d
late_lem o choice before r d (u, a, t, same, why) = record {
  unclaimed = u;
  approval_reported = a;
  trade_reported = t;
  untouched = inr (same, why);
}

admitted_lem :
    (o : Office) (choice : Choice) (actor : String) (before : Desk)
    → Outcome o choice actor before (answer_pair o (o.env.now 30) choice actor (await o 30 before))
admitted_lem o choice actor before =
    elim (answer_pair_lem o (o.env.now 30) choice actor (await o 30 before)) [
      | inl claimed ↦ inl claimed
      | inr late ↦ inr (inr (late_lem o choice before _ _ late))
    ]

overdue_lem :
    (o : Office) (choice : Choice) (actor : String) (before : Desk)
    → Outcome o choice actor before (expire_pair o (o.env.now 30) (await o 30 before))
overdue_lem o choice actor before = elim (expire_pair_lem o (o.env.now 30) (await o 30 before)) [
  | inl overdue ↦ inr (inl overdue)
  | inr late ↦ inr (inr (late_lem o choice before _ _ late))
]

-- A test of `decide`: refused if it holds, and else what follows.
refuse_if :
    (o : Office) (choice : Choice) (actor : String) (before : Desk) (reason : Reason) (b : Bool)
    {rest : Result × Desk}
    → (b ≡ true → IsRefused o choice (await o 30 before) (some reason))
    → Outcome o choice actor before rest
    → Outcome o choice actor before (if b then unclaimed reason (await o 30 before) else rest)
refuse_if o choice actor before reason true h k = refused_lem o choice actor before reason (h refl)
refuse_if o choice actor before reason false h k = k

expire_if :
    (o : Office) (choice : Choice) (actor : String) (before : Desk) (b : Bool)
    {rest : Result × Desk}
    → Outcome o choice actor before rest
    → Outcome o choice actor before
        (if b then expire_pair o (o.env.now 30) (await o 30 before) else rest)
expire_if o choice actor before true k = overdue_lem o choice actor before
expire_if o choice actor before false k = k

not_lem : (b : Bool) → not b ≡ true → b ≡ false
not_lem b h = ground arith

and_not_lem : (a b : Bool) → (a && not b) ≡ true → (a ≡ true) × (b ≡ false)
and_not_lem a b h = ground arith

pub decide_pair :
    (o : Office) (choice : Choice) (actor : String) (before : Desk)
    → let (r, d) = decide o choice actor before in
      IsClaimed choice actor r d ⊎ IsExpired r d ⊎ IsUntouched o choice before r d
unfolding decide
decide_pair o choice actor before =
    refuse_if o choice actor before already_handled _ (λ e. inl (refl, not_lem _ e))
      (expire_if o choice actor before _ (
        refuse_if o choice actor before delivery_not_ready _ (λ e. inr (inl (refl, not_lem _ e)))
          (refuse_if o choice actor before broker_context_mismatch _
            (λ e. let (p, q) = and_not_lem _ _ e in inr (inr (inl (refl, p, q))))
            (refuse_if o choice actor before trading_disabled _
              (λ e. let (p, q) = and_not_lem _ _ e in inr (inr (inr (inl (refl, p, q)))))
              (refuse_if o choice actor before broker_disabled _
                (λ e. let (p, q) = and_not_lem _ _ e in inr (inr (inr (inr (refl, p, q)))))
                (admitted_lem o choice actor before))))))

decide_settled :
    (o : Office) (choice : Choice) (actor : String) (d : Desk)
    → approval_eq d.approval.status waiting ≡ false
    → let (r, after) = decide (quiet_office o) choice actor d in
      (r.claimed ≡ false) × (r.reason ≡ some already_handled) × (after ≡ d)
unfolding decide
decide_settled o choice actor d h = ground arith

-- With no other task at the rows, a decision that was committed is final: any second decision, by any
-- operator, at any time and under any configuration, changes nothing and reports ALREADY_HANDLED.
pub decide_once :
    (o p : Office) (first second : Choice) (one two : String) (before : Desk)
    → (decide (quiet_office o) first one before).0.claimed ≡ true
    → let d = (decide (quiet_office o) first one before).1 in
      let (r, after) = decide (quiet_office p) second two d in
      (r.claimed ≡ false) × (r.reason ≡ some already_handled) × (after ≡ d)
decide_once o p approve second one two before h =
    let d = (decide (quiet_office o) approve one before).1 in
    decide_settled p second two d (ground (arith, decide_pair (quiet_office o) approve one before))
decide_once o p reject second one two before h =
    let d = (decide (quiet_office o) reject one before).1 in
    decide_settled p second two d (ground (arith, decide_pair (quiet_office o) reject one before))

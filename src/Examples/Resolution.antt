-- ===== src/Examples/Resolution.antt =====
-- The theorems on operators' resolutions at concrete records and histories.
use text.Mathlib.TextEquality.{eq_iff}
use kis_trader_back.Common.{
  trim, false, ◌≡◌, ◌⊎◌, refl, String, true, false, none, some, List, [], ◌∷◌, any, every, keep,
}
use kis_trader_back.Model.{
  Broker, BrokerEnvironment, BrokerContext, paper, prod, kis, toss, legacy_context_assigned,
  TradeRecord, submission_unknown, pending, partial, failed as failed_status,
  confirmed_not_submitted, broker_order_linked, action_not_submitted, cancellation_reconciled,
  cancellation_not_accepted, CancellationStatus, BrokerOrder, UnfilledOrder, not_rejected,
}
use kis_trader_back.Db.{World, audit}
use kis_trader_back.Matcher.{done, Candidate, find_submission_candidates}
use kis_trader_back.Matcher.Sound.{Searched, find_submission_candidates-Searched}
use kis_trader_back.Operator.Claim.{Recall, require_actor, find_unknown_submission, find_row}
use kis_trader_back.Operator.Submission.{
  to_match_request, CandidateInput, normalize_identity, is_selected, link_candidate,
  confirm_not_submitted, link_update, fail_update,
}
use kis_trader_back.Operator.Submission.Linking.{Linked, link_candidate-Linked}
use kis_trader_back.Operator.Submission.Refuting.{Refuted, confirm_not_submitted-Refuted}
use kis_trader_back.Operator.Cancellation.{
  is_open_order, is_execution_of, is_plain, status_after, close_update, not_accepted_update,
  inspect_cancellation, confirm_cancellation_not_accepted,
}
use kis_trader_back.Operator.Cancellation.Reading.{Read}
use kis_trader_back.Operator.Cancellation.Resolving.{
  StillOpen, Closed, Refused, inspect_cancellation-Resolved,
  confirm_cancellation_not_accepted-Refused,
}
use kis_trader_back.Operator.Views.{
  Inspection, inspection_entry, to_recovery_item, inspect_candidates,
}
use kis_trader_back.Operator.Views.Inspected.{Inspected, inspect_candidates-Inspected}
use kis_trader_back.Operator.Assignment.{assign_current_context}
use kis_trader_back.Operator.Assignment.Assigned.{Assigned, assign_current_context-Assigned}
use kis_trader_back.Examples.Data.{admitted, half_filled, in_world, account, full_fill, rest_listed}

-- Sent at 2026-07-15 10:30:00 in Korea, with an unknown end.
abbrev lost : TradeRecord
lost = record admitted { status = submission_unknown; submission_started_at = some 1784079000000 }

abbrev found : BrokerOrder
found = record (full_fill "200") {
  order_time = some "103005";
  filled_quantity = 0;
  remaining_quantity = 10;
}

abbrev asked : List BrokerOrder → List UnfilledOrder → Recall
asked orders unfilled = record {
  context = λ k b. some account;
  history = some orders;
  unfilled = some unfilled;
  meddle = λ k t. t;
  now = 1784080000000;
}

abbrev candidate : Candidate
candidate = record {
  order_no = "200";
  stock_code = "TQQQ";
  side = lost.side;
  order_quantity = 10;
  filled_quantity = 0;
  remaining_quantity = 10;
  order_price = some 5000;
  filled_price = some 4980;
  exchange_code = "NASD";
  order_date = "20260715";
  order_time = "103005";
  rejection_state = not_rejected;
  existing_trade_record_id = none;
  collision_type = none;
}

find_submission_candidates-Searched_example :
    Searched
      (to_match_request lost)
      (some account)
      (some (found ∷ full_fill "201" ∷ []))
      (candidate ∷ [])
unfolding find_submission_candidates
find_submission_candidates-Searched_example =
    find_submission_candidates-Searched (to_match_request lost) (some account)
      (some (found ∷ full_fill "201" ∷ [])) (candidate ∷ []) refl

abbrev chosen : CandidateInput
chosen = record {
  trade_record_id = "r1";
  broker_order_date = "20260715";
  exchange_code = "nasd";
  order_no = " 200";
}

abbrev linked : World
linked = record {
  row = (link_update lost candidate 1784080000000 "op").change lost;
  posts = [];
  effects = audit broker_order_linked "op" (some submission_unknown) (some pending) ∷ [];
}

link_candidate-Linked_example :
    (identity : CandidateInput) × (who : String) × (seen : World) × (c : Candidate)
    × (normalize_identity chosen ≡ done identity)
    × (require_actor "op" ≡ done who)
    × (find_unknown_submission identity.trade_record_id (in_world lost ∷ []) ≡ some seen)
    × (is_selected identity c ≡ true)
    × Linked (asked (found ∷ []) []) (in_world lost ∷ []) who seen.row c linked (linked ∷ [])
unfolding link_candidate
link_candidate-Linked_example =
    link_candidate-Linked (asked (found ∷ []) []) chosen "op" (in_world lost ∷ []) linked
      (linked ∷ []) refl

abbrev refuted : World
refuted = record {
  row = (fail_update lost confirmed_not_submitted 1784080000000 "op").change lost;
  posts = [];
  effects = audit action_not_submitted "op" (some submission_unknown) (some failed_status) ∷ [];
}

confirm_not_submitted-Refuted_example :
    (who : String) × (seen : World) × (require_actor "op" ≡ done who)
    × (find_unknown_submission "r1" (in_world lost ∷ []) ≡ some seen)
    × Refuted
        (asked (full_fill "201" ∷ []) [])
        (in_world lost ∷ [])
        who
        seen.row
        refuted
        (refuted ∷ [])
unfolding confirm_not_submitted
confirm_not_submitted-Refuted_example =
    confirm_not_submitted-Refuted (asked (full_fill "201" ∷ []) []) "r1" "op" (in_world lost ∷ [])
      refuted (refuted ∷ []) refl

-- Half filled, and its cancellation ended unknown.
abbrev withdrawn : TradeRecord
withdrawn = record half_filled { cancellation_status = some CancellationStatus.unknown }

abbrev six_filled : BrokerOrder
six_filled = record (full_fill "100") { filled_quantity = 6; remaining_quantity = 4 }

abbrev closed : World
closed = record {
  row = (close_update withdrawn six_filled 6 1784080000000 "op").change withdrawn;
  posts = [];
  effects = audit cancellation_reconciled "op" (some partial) (some partial) ∷ [];
}

inspect_cancellation-Resolved_example :
    let e = asked (six_filled ∷ []) [] in
    (who : String) × (seen : World) × (orders : List BrokerOrder) × (listed : List UnfilledOrder)
    × (require_actor "op" ≡ done who)
    × Read e "r1" (in_world withdrawn ∷ []) seen orders listed
    × (((any (is_open_order seen.row) listed ≡ true)
          × StillOpen seen
              (keep (is_execution_of seen.row) orders)
              (in_world withdrawn ∷ [])
              closed
              (closed ∷ []))
        ⊎ ((any (is_open_order seen.row) listed ≡ false)
            × Closed e
                (in_world withdrawn ∷ [])
                who
                seen.row
                (keep (is_execution_of seen.row) orders)
                closed
                (closed ∷ [])))
unfolding inspect_cancellation status_after
inspect_cancellation-Resolved_example =
    inspect_cancellation-Resolved (asked (six_filled ∷ []) []) "r1" "op" (in_world withdrawn ∷ [])
      closed (closed ∷ []) refl

abbrev refused : World
refused = record {
  row = (not_accepted_update withdrawn 1784080000000 "op").change withdrawn;
  posts = [];
  effects = audit cancellation_not_accepted "op" (some partial) (some partial) ∷ [];
}

confirm_cancellation_not_accepted-Refused_example :
    let e = asked (six_filled ∷ []) (rest_listed ∷ []) in
    (who : String) × (seen : World) × (orders : List BrokerOrder) × (listed : List UnfilledOrder)
    × (require_actor "op" ≡ done who)
    × Read e "r1" (in_world withdrawn ∷ []) seen orders listed
    × (every (is_plain seen.row) (keep (is_execution_of seen.row) orders) ≡ true)
    × (any (is_open_order seen.row) listed ≡ true)
    × Refused e (in_world withdrawn ∷ []) who seen.row refused (refused ∷ [])
unfolding confirm_cancellation_not_accepted
confirm_cancellation_not_accepted-Refused_example =
    confirm_cancellation_not_accepted-Refused (asked (six_filled ∷ []) (rest_listed ∷ [])) "r1" "op"
      (in_world withdrawn ∷ []) refused (refused ∷ []) refl

-- A record from before contexts were kept.
abbrev unbound : TradeRecord
unbound = record lost { broker_environment = none; broker_account_hash = none }

-- A token that no context but that of the example shares with it.
abbrev sealed : BrokerContext → String
sealed c = elim (c.broker) [
  | kis ↦ elim (c.environment) [ paper ↦ c.account_hash | prod ↦ "-" ]
  | toss ↦ "-"
]

no_dash : ◌≡◌ {A = String} "hash" "-" → ⊥
no_dash h = absurd (let e : false ≡ true = (eq_iff "hash" "-").1 h in let n : ⊥ = cc in n)

sealed_apart : (c : BrokerContext) → ◌≡◌ {A = String} "hash" (sealed c) → account ≡ c
sealed_apart c h = told (c.broker) (c.environment) (c.account_hash) h
  where
    told :
        (b : Broker) (e : BrokerEnvironment) (hash : String)
        → ◌≡◌ {A = String} "hash"
            (sealed (record { broker = b; environment = e; account_hash = hash }))
        → account ≡ record { broker = b; environment = e; account_hash = hash }
    told kis paper hash e = rw⁻¹ e refl
    told kis prod hash e = absurd (no_dash e)
    told toss paper hash e = absurd (no_dash e)
    told toss prod hash e = absurd (no_dash e)

abbrev assigned : World
assigned = record {
  row = lost;
  posts = [];
  effects =
      audit legacy_context_assigned "op" (some submission_unknown) (some submission_unknown) ∷ [];
}

assign_current_context-Assigned_example :
    (who : String) × (target : World) × (require_actor "op" ≡ done who)
    × (find_row "r1" (in_world unbound ∷ []) ≡ some target)
    × (some account ≡ some account)
    × Assigned "r1" who target.row.broker account (in_world unbound ∷ []) assigned (assigned ∷ [])
unfolding assign_current_context trim
assign_current_context-Assigned_example =
    assign_current_context-Assigned sealed (asked [] []) "r1" "op" "hash " account
      (in_world unbound ∷ []) assigned (assigned ∷ []) sealed_apart refl refl

abbrev noted_lost : World
noted_lost = record { row = lost; posts = []; effects = inspection_entry "op" ∷ [] }

abbrev inspection : Inspection
inspection = record {
  recovery_item = to_recovery_item lost (some account);
  candidates = candidate ∷ [];
}

inspect_candidates-Inspected_example :
    (who : String) × (seen : World) × (require_actor "op" ≡ done who)
    × (find_unknown_submission "r1" (in_world lost ∷ []) ≡ some seen)
    × Inspected
        (asked (found ∷ []) [])
        (in_world lost ∷ [])
        who
        seen.row
        inspection
        (noted_lost ∷ [])
unfolding inspect_candidates
inspect_candidates-Inspected_example =
    inspect_candidates-Inspected (asked (found ∷ []) []) "r1" "op" (in_world lost ∷ []) inspection
      (noted_lost ∷ []) refl

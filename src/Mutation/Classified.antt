-- ===== src/Mutation/Classified.antt =====
-- What each classification of an answer rests on.
use kis_trader_back.Common.{
  ℕ, ◌≡◌, ◌⊎◌, refl, inl, inr, true, false, String, Option, none, some, Bool-cases, Option-cases,
  is_empty, trim, get_or, opt_eq,
}
use kis_trader_back.Model.{OrderResult, Outcome}
use kis_trader_back.Mutation.Timestamp.{BrokerTime, resolve_broker_timestamp}
use kis_trader_back.Mutation.Timed.{Timed, resolve_broker_timestamp-Timed}
use kis_trader_back.Mutation.{
  KisResponse, is_explicit_rejection, classify_kis_order_response, accepted_result,
}

-- The answer says success, names the order, and gives a time near the call.
pub record Accepted (r : KisResponse) (called : Option ℕ) (message : String) (result : OrderResult)
    : Type 0 where
  pub says_success : opt_eq r.rt_cd (some "0") ≡ true
  pub named : is_empty (trim (get_or r.odno "")) ≡ false
  pub time : BrokerTime
  pub timed : Timed r.ord_tmd called time
  pub result_is : result ≡ accepted_result (trim (get_or r.odno "")) time message

-- How an answer is taken: accepted, rejected or unknown.
abbrev Classified : KisResponse → Option ℕ → String → OrderResult → Type 0
Classified r called message result =
    ((result.outcome ≡ Outcome.accepted) × Accepted r called message result)
    ⊎ ((result.outcome ≡ Outcome.rejected)
        × (result.order_no ≡ none)
        × (opt_eq r.rt_cd (some "0") ≡ false)
        × (is_explicit_rejection r ≡ true))
    ⊎ ((result.outcome ≡ Outcome.unknown)
        × (result.order_no ≡ none)
        × ((opt_eq r.rt_cd (some "0") ≡ true) ⊎ (is_explicit_rejection r ≡ false)))

-- Every answer of the order interface is taken in one of three ways. Accepted: only if it says
-- success, names the order, and gives a time within ten minutes of the call, and then the result
-- has the order's number, and the date and the time that were read. Rejected: only if it does not
-- say success, and its code and texts reject the order explicitly. Unknown: everything else, above
-- all a success that cannot be verified; so a success is never taken for a rejection.
pub classify_kis_order_response-Classified :
    (r : KisResponse) (called : Option ℕ) (message : String)
    → Classified r called message (classify_kis_order_response r called message)
unfolding classify_kis_order_response
classify_kis_order_response-Classified r called message =
    elim (Bool-cases (opt_eq r.rt_cd (some "0"))) [
      | inr failure ↦ elim (Bool-cases (is_explicit_rejection r)) [
        | inl explicit ↦ rw (failure, explicit) (inr (inl (refl, refl, refl, refl)))
        | inr vague ↦ rw (failure, vague) (inr (inr (refl, refl, inr refl)))
      ]
      | inl success ↦ elim (Bool-cases (is_empty (trim (get_or r.odno "")))) [
        | inl nameless ↦ rw (success, nameless) (inr (inr (refl, refl, inl refl)))
        | inr named ↦ elim (Option-cases (resolve_broker_timestamp r.ord_tmd called)) [
          | inl untimed ↦ rw (success, named, untimed) (inr (inr (refl, refl, inl refl)))
          | inr (b, found) ↦
              rw (success, named, found)
                (inl (
                  refl,
                  record {
                    says_success = success;
                    named = named;
                    time = b;
                    timed = resolve_broker_timestamp-Timed r.ord_tmd called b found;
                    result_is = refl;
                  },
                ))
        ]
      ]
    ]

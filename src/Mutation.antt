-- ===== src/Mutation.antt =====
-- src/kis/kis-mutation.error.ts: what an answer of the KIS order interface is taken for. A field of the
-- answer that is absent or no text is `none`, and so are the fields of an answer that is absent.
pub mod Timestamp
pub mod Timed
pub mod Classified
use Prim.Native.String
use kis_trader_back.Common.{
  ℕ, String, Bool, true, false, ◌&&◌, ◌||◌, not, Option, none, some, List, [], ◌∷◌, if◌then◌else◌,
  is_blank, is_empty, trim, get_or, leb, every, opt_eq, is_some,
}
use kis_trader_back.Model.{OrderResult, Outcome}
use kis_trader_back.Dates.{codes, is_digit}
use kis_trader_back.Mutation.Timestamp.{BrokerTime, resolve_broker_timestamp}

pub record KisResponse : Type 0 where
  pub rt_cd : Option String
  pub msg_cd : Option String
  pub msg1 : Option String
  pub odno : Option String
  pub ord_tmd : Option String

pub data ErrorKind : Type 0 where
  business_rejection transport_unknown : ErrorKind

-- What was thrown: `kind` is there for a `BrokerMutationError`.
pub record MutationError : Type 0 where
  pub kind : Option ErrorKind
  pub message : String

abbrev pub rejected_result : String → OrderResult
rejected_result m = record {
  outcome = Outcome.rejected;
  order_no = none;
  broker_order_date = none;
  order_time = none;
  message = m;
}

abbrev pub unknown_result : String → OrderResult
unknown_result m = record {
  outcome = Outcome.unknown;
  order_no = none;
  broker_order_date = none;
  order_time = none;
  message = m;
}

starts_at_one : List ℕ → Bool
unfolding is_digit
starts_at_one [] = false
starts_at_one (c ∷ cs) = leb b'1' c && leb c b'9' && every is_digit cs

-- `isKisBusinessRejectionCode`.
unfoldable pub is_kis_business_rejection_code : Option String → Bool
unfolding starts_at_one codes
is_kis_business_rejection_code none = false
is_kis_business_rejection_code (some code) = starts_at_one (codes code)

unfoldable pub is_explicit_rejection : KisResponse → Bool
unfolding is_kis_business_rejection_code is_blank
is_explicit_rejection r =
    is_kis_business_rejection_code r.rt_cd
    && is_some r.msg_cd
    && is_some r.msg1
    && (not (is_blank r.msg_cd) || not (is_blank r.msg1))

abbrev rejection_message : KisResponse → String
rejection_message r =
    String.◌++◌ "KIS API rejection: "
      (String.◌++◌ (get_or r.msg_cd "") (String.◌++◌ " - " (get_or r.msg1 "")))

abbrev accepted_result : String → BrokerTime → String → OrderResult
accepted_result order_no b m = record {
  outcome = Outcome.accepted;
  order_no = some order_no;
  broker_order_date = some b.order_date;
  order_time = some b.order_time;
  message = m;
}

abbrev with_time : String → String → Option BrokerTime → OrderResult
with_time order_no m none =
    unknown_result "KIS mutation response could not be verified: invalid or stale broker time"
with_time order_no m (some b) = accepted_result order_no b m

-- `classifyKisOrderResponse`.
unfoldable pub classify_kis_order_response : KisResponse → Option ℕ → String → OrderResult
unfolding is_explicit_rejection trim resolve_broker_timestamp
classify_kis_order_response r called m =
    if not (opt_eq r.rt_cd (some "0"))
    then (if is_explicit_rejection r
        then rejected_result (rejection_message r)
        else unknown_result
            "KIS mutation response could not be verified: malformed response envelope")
    else if is_empty (trim (get_or r.odno ""))
    then unknown_result "KIS mutation response could not be verified: missing broker order number"
    else with_time (trim (get_or r.odno "")) m (resolve_broker_timestamp r.ord_tmd called)

-- `classifyKisMutationFailure`.
unfoldable pub classify_kis_mutation_failure : MutationError → OrderResult
classify_kis_mutation_failure e = elim (e.kind) [
  | some business_rejection ↦ rejected_result e.message
  | _ ↦ unknown_result e.message
]

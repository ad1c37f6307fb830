-- ===== src/Matcher/Sound.antt =====
-- What the search of the broker's history finds.
use mathlib.Core.Path.{subst}
use text.Mathlib.TextPositions.{eq_refl}
use kis_trader_back.Common.{
  ℕ, ◌≡◌, refl, Bool, true, ◌||◌, not, ◌⊎◌, inl, inr, Option, none, some, List, [], ◌∷◌, any, All,
  arith, Bool-cases, if◌then◌else◌,
}
use kis_trader_back.Common.First.{
  add_first, IsUnique, add_first-IsUnique, All-add_first, any-add_first, any-add_first_self,
}
use kis_trader_back.Model.{BrokerOrder, BrokerContext}
use kis_trader_back.Matcher.{
  Answer, Failure, done, has_context, MatchRequest, Candidate, is_candidate, candidate_of,
  same_identity, collect_candidates, is_context_of, assert_current_context, search_history,
  find_submission_candidates,
}

module _ (q : MatchRequest) (submitted : ℕ) where
  -- A candidate is one of these orders, which passed every test.
  abbrev pub ComesFrom : List BrokerOrder → Candidate → Type 0
  ComesFrom [] c = ⊥
  ComesFrom (o ∷ os) c =
      ((is_candidate q submitted o ≡ true) × (c ≡ candidate_of q o)) ⊎ ComesFrom os c

  -- An order that passes every test is among the candidates, or one of its identity is.
  abbrev pub is_covered : List Candidate → BrokerOrder → Bool
  is_covered found o =
      not (is_candidate q submitted o) || any (λ f. same_identity f (candidate_of q o)) found

  -- What holds of every candidate of an order holds of all that are collected.
  collect_candidates-All :
      (P : Candidate → Type 0) (found : List Candidate) (os : List BrokerOrder)
      → All P found
      → All (λ o. is_candidate q submitted o ≡ true → P (candidate_of q o)) os
      → All P (collect_candidates q submitted found os)
  unfolding collect_candidates
  collect_candidates-All P found [] h k = h
  collect_candidates-All P found (o ∷ os) h (k, ks) =
      elim (Bool-cases (is_candidate q submitted o)) [
        | inl fit ↦ rw fit (
            collect_candidates-All P (add_first same_identity found (candidate_of q o)) os
              (All-add_first same_identity P found (candidate_of q o) h (k fit)) ks)
        | inr unfit ↦ rw unfit (collect_candidates-All P found os h ks)
      ]

  later-All :
      (o : BrokerOrder) (all os : List BrokerOrder)
      → All (λ o. is_candidate q submitted o ≡ true → ComesFrom all (candidate_of q o)) os
      → All (λ x. is_candidate q submitted x ≡ true → ComesFrom (o ∷ all) (candidate_of q x)) os
  later-All o all [] h = tt
  later-All o all (x ∷ os) (h, hs) = (λ e. inr (h e), later-All o all os hs)

  own-All :
      (os : List BrokerOrder)
      → All (λ o. is_candidate q submitted o ≡ true → ComesFrom os (candidate_of q o)) os
  own-All [] = tt
  own-All (o ∷ os) = (λ e. inl (e, refl), later-All o os os (own-All os))

  collect_candidates-IsUnique :
      (found : List Candidate) (os : List BrokerOrder)
      → IsUnique same_identity found
      → IsUnique same_identity (collect_candidates q submitted found os)
  unfolding collect_candidates
  collect_candidates-IsUnique found [] u = u
  collect_candidates-IsUnique found (o ∷ os) u = elim (Bool-cases (is_candidate q submitted o)) [
    | inl fit ↦ rw fit (
        collect_candidates-IsUnique (add_first same_identity found (candidate_of q o)) os
          (add_first-IsUnique same_identity found (candidate_of q o) u))
    | inr unfit ↦ rw unfit (collect_candidates-IsUnique found os u)
  ]

  same_identity_refl : (c : Candidate) → same_identity c c ≡ true
  same_identity_refl c =
      ground (arith, eq_refl c.order_date, eq_refl c.exchange_code, eq_refl c.order_no)

  -- A candidate that was found is still found at the end.
  kept_lem :
      (c : Candidate) (found : List Candidate) (os : List BrokerOrder)
      → any (λ f. same_identity f c) found ≡ true
      → any (λ f. same_identity f c) (collect_candidates q submitted found os) ≡ true
  unfolding collect_candidates
  kept_lem c found [] h = h
  kept_lem c found (o ∷ os) h = elim (Bool-cases (is_candidate q submitted o)) [
    | inl fit ↦ rw fit (
        kept_lem c (add_first same_identity found (candidate_of q o)) os
          (any-add_first same_identity (λ f. same_identity f c) found (candidate_of q o) h))
    | inr unfit ↦ rw unfit (kept_lem c found os h)
  ]

  abbrev after_order : List Candidate → BrokerOrder → List Candidate
  after_order found o =
      if is_candidate q submitted o then add_first same_identity found (candidate_of q o) else found

  head_covered :
      (found : List Candidate) (o : BrokerOrder) (os : List BrokerOrder)
      → is_covered (collect_candidates q submitted (after_order found o) os) o ≡ true
  head_covered found o os = elim (Bool-cases (is_candidate q submitted o)) [
    | inl fit ↦ rw fit (
        kept_lem (candidate_of q o) (add_first same_identity found (candidate_of q o)) os (
          any-add_first_self same_identity found (candidate_of q o)
            (same_identity_refl (candidate_of q o))))
    | inr unfit ↦ rw unfit refl
  ]

  collect_candidates-covers :
      (found : List Candidate) (os : List BrokerOrder)
      → All (λ o. is_covered (collect_candidates q submitted found os) o ≡ true) os
  unfolding collect_candidates
  collect_candidates-covers found [] = tt
  collect_candidates-covers found (o ∷ os) =
      (head_covered found o os, collect_candidates-covers (after_order found o) os)

-- What a successful search has gone through, and what it has found.
pub record Searched (q : MatchRequest) (current : Option BrokerContext)
    (history : Option (List BrokerOrder)) (found : List Candidate) : Type 0 where
  pub context : BrokerContext
  pub is_current : current ≡ some context
  pub context_matches :
      is_context_of q.broker q.broker_environment q.broker_account_hash context ≡ true
  pub submitted : ℕ
  pub has_time : q.submission_started_at ≡ some submitted
  pub orders : List BrokerOrder
  pub were_read : history ≡ some orders
  pub sound : All (ComesFrom q submitted orders) found
  pub complete : All (λ o. is_covered q submitted found o ≡ true) orders
  pub distinct : IsUnique same_identity found

searched :
    (q : MatchRequest) (c : BrokerContext) (submitted : Option ℕ)
    (history : Option (List BrokerOrder)) (found : List Candidate)
    → is_context_of q.broker q.broker_environment q.broker_account_hash c ≡ true
    → q.submission_started_at ≡ submitted
    → search_history q submitted history ≡ done found
    → Searched q (some c) history found
searched q c none history found m e h = cc
searched q c (some t) none found m e h = cc
searched q c (some t) (some os) found m e h =
    let all : collect_candidates q t [] os ≡ found = cc in
    record {
      context = c;
      is_current = refl;
      context_matches = m;
      submitted = t;
      has_time = e;
      orders = os;
      were_read = refl;
      sound =
          subst (All (ComesFrom q t os)) all
            (collect_candidates-All q t (ComesFrom q t os) [] os tt (own-All q t os));
      complete =
          subst (λ fs. All (λ o. is_covered q t fs o ≡ true) os) all
            (collect_candidates-covers q t [] os);
      distinct = subst (IsUnique same_identity) all (collect_candidates-IsUnique q t [] os tt);
    }

-- If the search for the order of an unknown submission gives candidates, the broker context of the
-- request is the current one and the history was read; every candidate is an order of the history
-- within ten minutes of the submission, with the request's exchange, stock, side and quantity; every such
-- order is among the candidates by its date, exchange and number, and no two candidates share these.
pub find_submission_candidates-Searched :
    (q : MatchRequest) (current : Option BrokerContext) (history : Option (List BrokerOrder))
    (found : List Candidate)
    → find_submission_candidates q current history ≡ done found
    → Searched q current history found
unfolding find_submission_candidates assert_current_context
find_submission_candidates-Searched q none history found h = ground arith
find_submission_candidates-Searched q (some c) history found h =
    elim (Bool-cases (has_context q.broker_environment q.broker_account_hash)) [
      | inr none_stored ↦ absurd (nothing (rw none_stored at h))
      | inl stored ↦
          elim (Bool-cases (is_context_of q.broker q.broker_environment q.broker_account_hash c)) [
            | inl same ↦
                searched q c q.submission_started_at history found same refl
                  (rw (stored, same) at h)
            | inr other ↦ absurd (nothing (rw (stored, other) at h))
          ]
    ]
  where
    nothing : {why : Failure} → Answer.failed why ≡ done found → ⊥
    nothing e = cc

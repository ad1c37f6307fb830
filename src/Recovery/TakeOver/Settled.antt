-- ===== src/Recovery/TakeOver/Settled.antt =====
-- After the take-over of `takeOverStartupState` no attempt is left unfinished.
use kis_trader_back.Common.{
  ◌≡◌, refl, String, Bool, true, false, not, ◌&&◌, ◌||◌, inl, inr, is_some, is_none, List, [], ◌∷◌,
  map, keep, if◌then◌else◌, str_eq, arith, All, any, Bool-cases,
}
use mathlib.Core.Path.{subst}
use text.Mathlib.TextPositions.{eq_refl}
use kis_trader_back.Db.{World, M}
use kis_trader_back.Recovery.TakeOver.{
  Table, with_row, Attempt, attempt_of, is_submitting, settle_submission, Tally, settle_submissions,
  take_over_submission_attempts,
}

abbrev pub Each : (World → Bool) → Table → Type 0
Each p = All λ w. p w ≡ true

pub Each-mono :
    (p q : World → Bool)
    → ((w : World) → p w ≡ true → q w ≡ true)
    → (t : Table) → Each p t
    → Each q t
Each-mono p q h [] e = tt
Each-mono p q h (w ∷ ws) (e, es) = (h w e, Each-mono p q h ws es)

abbrev pub at_id : String → M Bool → World → World
at_id id m w = if str_eq w.row.id id then (m w).1 else w

pub with_row-Each :
    (id : String) (m : M Bool) (p q : World → Bool)
    → ((w : World) → p w ≡ true → q (at_id id m w) ≡ true)
    → (t : Table) → Each p t
    → Each q (with_row id m t).1
unfolding with_row
with_row-Each id m p q h [] e = tt
with_row-Each id m p q h (w ∷ ws) (e, es) = elim (Bool-cases (str_eq w.row.id id)) [
  | inl same ↦ rw same (rw same at (h w e), with_row-Each id m p q h ws es)
  | inr other ↦ rw other (rw other at (h w e), with_row-Each id m p q h ws es)
]

-- An attempt that fits the row: same key, sent or not as the row is.
abbrev is_attempt_of : World → Attempt → Bool
is_attempt_of w a =
    str_eq w.row.id a.id
    && (if is_some a.submission_started_at
        then is_some w.row.submission_started_at
        else is_none w.row.submission_started_at)

-- The row is settled, or an attempt for it is still to come.
abbrev is_covered : List Attempt → World → Bool
is_covered attempts w = not (is_submitting w) || any (is_attempt_of w) attempts

settle_submission-covered :
    (a : Attempt) (rest : List Attempt) (w : World)
    → is_covered (a ∷ rest) w ≡ true
    → is_covered rest (at_id a.id (settle_submission a) w) ≡ true
unfolding settle_submission
settle_submission-covered a rest w h = ground arith

settle_submissions-Each :
    (attempts : List Attempt) (s : Tally) (t : Table)
    → Each (is_covered attempts) t
    → Each (λ w. not (is_submitting w)) (settle_submissions attempts s t).1
unfolding settle_submissions
settle_submissions-Each [] s t e = Each-mono _ _ (λ w h. ground arith) t e
settle_submissions-Each (a ∷ rest) s t e =
    settle_submissions-Each rest _ (with_row a.id (settle_submission a) t).1
      (with_row-Each a.id (settle_submission a) _ _ (settle_submission-covered a rest) t e)

is_covered-later :
    (a : Attempt) (attempts : List Attempt) (w : World)
    → is_covered attempts w ≡ true
    → is_covered (a ∷ attempts) w ≡ true
is_covered-later a attempts w h = ground arith

covers_own : (w : World) (rest : List Attempt) → is_covered (attempt_of w ∷ rest) w ≡ true
covers_own w rest = ground (arith, eq_refl w.row.id)

snapshot-covered : (t : Table) → Each (is_covered (map attempt_of (keep is_submitting t))) t
snapshot-covered [] = tt
snapshot-covered (w ∷ ws) =
    let later = map attempt_of (keep is_submitting ws) in
    let tail : Each (is_covered later) ws = snapshot-covered ws in
    elim (Bool-cases (is_submitting w)) [
      | inl stale ↦
          subst (λ xs. Each (is_covered xs) (w ∷ ws)) (stale_cons stale)
            (covers_own w later, Each-mono _ _ (is_covered-later (attempt_of w) later) ws tail)
      | inr settled ↦
          subst (λ xs. Each (is_covered xs) (w ∷ ws)) (settled_cons settled) (ground arith, tail)
    ]
  where
    stale_cons :
        is_submitting w ≡ true
        → attempt_of w ∷ map attempt_of (keep is_submitting ws)
          ≡ map attempt_of (keep is_submitting (w ∷ ws))
    stale_cons e = rw e refl

    settled_cons :
        is_submitting w ≡ false
        → map attempt_of (keep is_submitting ws) ≡ map attempt_of (keep is_submitting (w ∷ ws))
    settled_cons e = rw e refl

-- After `takeOverSubmissionAttempts` no record is left SUBMITTING, whatever the table held.
pub take_over_submission_attempts-Each :
    (t : Table) → Each (λ w. not (is_submitting w)) (take_over_submission_attempts t).1
unfolding take_over_submission_attempts
take_over_submission_attempts-Each t = settle_submissions-Each _ _ t (snapshot-covered t)

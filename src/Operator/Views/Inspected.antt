-- ===== src/Operator/Views/Inspected.antt =====
-- What an inspection of candidates answers, and that it leaves every row alone.
use mathlib.Core.Path.{subst}
use kis_trader_back.Common.{
  ◌≡◌, refl, ap, sym, ◌∙◌, String, Bool, true, Option, none, some, List, [], ◌∷◌, map, Bool-cases,
  inl, inr, str_eq,
}
use kis_trader_back.Model.{TradeRecord}
use kis_trader_back.Db.{World, M, ◌>>◌, pure, emit}
use kis_trader_back.Recovery.TakeOver.{Table}
use kis_trader_back.Matcher.{Answer, failed, done, Candidate}
use kis_trader_back.Operator.Claim.{
  Recall, find_row, at_row, require_actor, find_unknown_submission,
}
use kis_trader_back.Operator.Submission.{is_still_unknown, review}
use kis_trader_back.Operator.Submission.Reviews.{Reviewed, review_done}
use kis_trader_back.Operator.Views.{
  to_recovery_item, Inspection, inspection_entry, note_inspection, noted, inspected, inspect_found,
  inspect_by, inspect_candidates,
}

-- The rows of a table, without what was left behind beside them.
abbrev pub rows_of : Table → List TradeRecord
rows_of t = map (λ w. w.row) t

at_row-rows_of :
    (id : String) (m : M Bool) (t : Table)
    → ((w : World) → (m w).1.row ≡ w.row)
    → rows_of (at_row id m t).1 ≡ rows_of t
unfolding at_row
at_row-rows_of id m [] k = refl
at_row-rows_of id m (w ∷ ws) k = elim (Bool-cases (str_eq w.row.id id)) [
  | inl here ↦ rw here (rw (k w) refl)
  | inr other ↦ rw other (rw (at_row-rows_of id m ws k) refl)
]

at_row-find_row :
    (id : String) (m : M Bool) (t : Table) {w : World}
    → ((v : World) → (m v).1.row ≡ v.row)
    → find_row id t ≡ some w
    → find_row id (at_row id m t).1 ≡ some (m w).1
unfolding at_row find_row
at_row-find_row id m [] k h = cc
at_row-find_row id m (v ∷ vs) {w} k h = elim (Bool-cases (str_eq v.row.id id)) [
  | inl here ↦
      let same : v ≡ w = some_lem (rw here at h) in
      let still : str_eq (m v).1.row.id id ≡ true = rw (k v) here in
      rw here (rw still (ap (λ x. some (m x).1) same))
  | inr other ↦ rw other (rw other (at_row-find_row id m vs k (rw other at h)))
]
  where
    some_lem : some v ≡ some w → v ≡ w
    some_lem e = cc

-- What an inspection that succeeded rests on and leaves.
pub record Inspected (e : Recall) (met : Table) (who : String) (seen : TradeRecord) (i : Inspection)
    (t' : Table) : Type 0 where
  pub reviewed : Reviewed e seen met i.candidates
  pub item_is : i.recovery_item ≡ to_recovery_item seen (e.context 81 seen.broker)
  pub before : World
  pub was_there : find_row seen.id (e.meddle 83 met) ≡ some before
  pub still_unknown : is_still_unknown seen before.row ≡ true
  pub has_entry :
      find_row seen.id t' ≡ some (record before { effects = inspection_entry who ∷ before.effects })
  pub rows_stay : rows_of t' ≡ rows_of (e.meddle 83 met)

note_inspection_done :
    (actor : String) (seen : TradeRecord) (o : Option World) (t t' : Table)
    → find_row seen.id t ≡ o
    → note_inspection actor seen o t ≡ some t'
    → (w : World) × (find_row seen.id t ≡ some w)
      × (is_still_unknown seen w.row ≡ true)
      × (find_row seen.id t' ≡ some (record w { effects = inspection_entry actor ∷ w.effects }))
      × (rows_of t' ≡ rows_of t)
unfolding note_inspection
note_inspection_done actor seen none t t' f h = cc
note_inspection_done actor seen (some w) t t' f h =
    elim (Bool-cases (is_still_unknown seen w.row)) [
      | inl same ↦
          let written : (at_row seen.id note t).1 ≡ t' = some_lem (rw same at h) in
          (
            w,
            f,
            same,
            ap (find_row seen.id) (sym written) ∙ at_row-find_row seen.id note t (λ v. refl) f,
            ap rows_of (sym written) ∙ at_row-rows_of seen.id note t (λ v. refl),
          )
      | inr changed ↦ absurd_lem (rw changed at h)
    ]
  where
    note : M Bool
    note = emit (inspection_entry actor) >> pure true

    some_lem : {x : Table} → some x ≡ some t' → x ≡ t'
    some_lem g = cc

    absurd_lem :
        none ≡ some t'
        → (v : World) × (find_row seen.id t ≡ some v)
          × (is_still_unknown seen v.row ≡ true)
          × (find_row seen.id t' ≡ some (record v { effects = inspection_entry actor ∷ v.effects }))
          × (rows_of t' ≡ rows_of t)
    absurd_lem g = cc

noted_done :
    (e : Recall) (met : Table) (who : String) (seen : TradeRecord) (cs : List Candidate)
    (o : Option Table) (i : Inspection) (t' : Table)
    → review e seen met ≡ done cs
    → note_inspection who seen (find_row seen.id (e.meddle 83 met)) (e.meddle 83 met) ≡ o
    → noted e seen cs o (e.meddle 83 met) ≡ (done i, t')
    → Inspected e met who seen i t'
noted_done e met who seen cs none i t' r n h = cc
noted_done e met who seen cs (some written) i t' r n h =
    let (before, found, same, entry, rows) =
      note_inspection_done who seen (find_row seen.id (e.meddle 83 met)) (e.meddle 83 met) written
        refl n in
    subst (λ x. Inspected e met who seen x t') (answer_lem _ (ap (λ x. x.0) h))
      (subst (Inspected e met who seen _) (ap (λ x. x.1) h) (record {
        reviewed = review_done e seen met cs r;
        item_is = refl;
        before = before;
        was_there = found;
        still_unknown = same;
        has_entry = entry;
        rows_stay = rows;
      }))
  where
    answer_lem : (j : Inspection) → ◌≡◌ {A = Answer Inspection} (done j) (done i) → j ≡ i
    answer_lem j g = cc

inspected_done :
    (e : Recall) (met : Table) (who : String) (seen : TradeRecord) (a : Answer (List Candidate))
    (i : Inspection) (t' : Table)
    → review e seen met ≡ a
    → inspected e seen who met a ≡ (done i, t')
    → Inspected e met who seen i t'
inspected_done e met who seen (failed why) i t' r h = cc
inspected_done e met who seen (done cs) i t' r h = noted_done e met who seen cs _ i t' r refl h

inspect_found_done :
    (e : Recall) (met : Table) (who : String) (o : Option World) (i : Inspection) (t' : Table)
    → inspect_found e who met o ≡ (done i, t')
    → (seen : World) × (o ≡ some seen) × Inspected e met who seen.row i t'
inspect_found_done e met who none i t' h = cc
inspect_found_done e met who (some w) i t' h =
    (w, refl, inspected_done e met who w.row (review e w.row met) i t' refl h)

inspect_by_done :
    (e : Recall) (id : String) (t : Table) (a : Answer String) (i : Inspection) (t' : Table)
    → inspect_by e id t a ≡ (done i, t')
    → (who : String) × (seen : World) × (a ≡ done who)
      × (find_unknown_submission id (e.meddle 80 t) ≡ some seen)
      × Inspected e (e.meddle 80 t) who seen.row i t'
inspect_by_done e id t (failed why) i t' h = cc
inspect_by_done e id t (done who) i t' h =
    let (seen, found, rest) =
      inspect_found_done e (e.meddle 80 t) who (find_unknown_submission id (e.meddle 80 t)) i t'
        h in
    (who, seen, refl, found, rest)

-- If `inspectCandidates` succeeds, then the record was SUBMISSION_UNKNOWN when it was read, the broker's
-- history was read in the record's own context, which was still the current one afterwards, and each
-- candidate is, but for the mark of another record, an order of that history that fits the record; one
-- that is not marked belongs to no other record of that context. When the inspection was noted, the row was still unresolved in that
-- context; it got one audit entry, and no row of the table was changed.
pub inspect_candidates-Inspected :
    (e : Recall) (id actor : String) (t : Table) (i : Inspection) (t' : Table)
    → inspect_candidates e id actor t ≡ (done i, t')
    → (who : String) × (seen : World) × (require_actor actor ≡ done who)
      × (find_unknown_submission id (e.meddle 80 t) ≡ some seen)
      × Inspected e (e.meddle 80 t) who seen.row i t'
unfolding inspect_candidates
inspect_candidates-Inspected e id actor t i t' h =
    inspect_by_done e id t (require_actor actor) i t' h

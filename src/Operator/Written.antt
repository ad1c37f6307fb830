-- ===== src/Operator/Written.antt =====
-- What an operation of an operator that succeeded has gone through and written.
use kis_trader_back.Common.{
  ◌≡◌, refl, Bool, true, false, String, Option, none, some, [], ◌∷◌, arith, Bool-cases, inl, inr,
  str_eq,
}
use kis_trader_back.Model.{TradeRecord}
use kis_trader_back.Db.{World, Update, update, Effect, M}
use kis_trader_back.Recovery.TakeOver.{Table}
use kis_trader_back.Matcher.{Answer, Failure, failed, done, and_then}
use kis_trader_back.Operator.Claim.{find_row, at_row, breaks_index, claim_and_audit, transact}
use kis_trader_back.Operator.Submission.{at_table, with_unknown}

module _ {A : Type 0} where
  pub at_table_done :
      (a : Answer A) (t : Table) (f : A → Answer World × Table) {w : World} {t' : Table}
      → at_table a t f ≡ (done w, t')
      → (x : A) × (a ≡ done x) × (f x ≡ (done w, t'))
  at_table_done (failed why) t f h = cc
  at_table_done (done x) t f h = (x, refl, h)

  pub and_then_done :
      {B : Type 0} (a : Answer A) (f : A → Answer B) {b : B}
      → and_then a f ≡ done b
      → (x : A) × (a ≡ done x) × (f x ≡ done b)
  and_then_done (failed why) f h = cc
  and_then_done (done x) f h = (x, refl, h)

pub with_unknown_done :
    (o : Option World) (t : Table) (f : TradeRecord → Answer World × Table) {w : World} {t' : Table}
    → with_unknown o t f ≡ (done w, t')
    → (seen : World) × (o ≡ some seen) × (f seen.row ≡ (done w, t'))
with_unknown_done none t f h = cc
with_unknown_done (some seen) t f h = (seen, refl, h)

-- A transaction that succeeded has found its row, changed it, and left the index whole.
pub record Transacted (id : String) (u : Update) (entry : Effect) (t : Table) (w : World)
    (t' : Table) : Type 0 where
  pub before : World
  pub was_there : find_row id t ≡ some before
  pub passed : u.guard before.row ≡ true
  pub changed :
      w
      ≡ record { row = u.change before.row; posts = before.posts; effects = entry ∷ before.effects }
  pub indexed : breaks_index t' ≡ false

abbrev pub KeepsId : Update → Type 0
KeepsId u = (r : TradeRecord) → (u.change r).id ≡ r.id

at_row_found :
    (id : String) (m : M Bool) (t : Table)
    → ((w : World) → (m w).1.row.id ≡ w.row.id)
    → (at_row id m t).0 ≡ true
    → (before : World) × (find_row id t ≡ some before)
      × ((m before).0 ≡ true)
      × (find_row id (at_row id m t).1 ≡ some (m before).1)
unfolding at_row find_row
at_row_found id m [] k h = cc
at_row_found id m (w ∷ ws) k h = elim (Bool-cases (str_eq w.row.id id)) [
  | inl here ↦ (
    w,
    rw here refl,
    rw here at h,
    rw here (rw (let same : str_eq (m w).1.row.id id ≡ true = rw (k w) here in same) refl),
  )
  | inr other ↦
      let (before, found, did, after) = at_row_found id m ws k (rw other at h) in
      (before, rw other found, did, rw other (rw other after))
]

claim_and_audit_lem :
    (u : Update) (entry : Effect) (w : World)
    → (claim_and_audit u entry w).0 ≡ true
    → (u.guard w.row ≡ true)
      × ((claim_and_audit u entry w).1
          ≡ record { row = u.change w.row; posts = w.posts; effects = entry ∷ w.effects })
unfolding claim_and_audit update
claim_and_audit_lem u entry w h = elim (Bool-cases (u.guard w.row)) [
  | inl hit ↦ (hit, rw hit refl)
  | inr miss ↦ absurd (no_hit (rw miss at h))
]
  where
    no_hit : false ≡ true → ⊥
    no_hit e = cc

claim_and_audit-id :
    (u : Update) (entry : Effect)
    → KeepsId u
    → (w : World) → (claim_and_audit u entry w).1.row.id ≡ w.row.id
unfolding claim_and_audit update
claim_and_audit-id u entry k w = ground (arith, k w.row)

pub transact_done :
    (id : String) (u : Update) (entry : Effect) (t : Table) {w : World} {t' : Table}
    → KeepsId u
    → transact id u entry t ≡ (done w, t')
    → Transacted id u entry t w t'
unfolding transact
transact_done id u entry t {w} {t'} k h =
    elim (Bool-cases ((at_row id (claim_and_audit u entry) t).0)) [
      | inr miss ↦ absurd (refused (rw miss at h))
      | inl hit ↦ elim (Bool-cases (breaks_index (at_row id (claim_and_audit u entry) t).1)) [
        | inl broken ↦ absurd (refused (rw (hit, broken) at h))
        | inr whole ↦
            let (before, found, did, after) =
              at_row_found id (claim_and_audit u entry) t (claim_and_audit-id u entry k) hit in
            let (passed, next) = claim_and_audit_lem u entry before did in
            let e : ◌≡◌ {A = Answer World × Table}
                (done (claim_and_audit u entry before).1, (at_row id (claim_and_audit u entry) t).1)
                (done w, t') =
              rw (hit, whole, after) at h in
            record {
              before = before;
              was_there = found;
              passed = passed;
              changed = cc;
              indexed = cc;
            }
      ]
    ]
  where
    refused :
        {why : Failure} {s : Table}
        → ◌≡◌ {A = Answer World × Table} (failed why, s) (done w, t')
        → ⊥
    refused x = cc

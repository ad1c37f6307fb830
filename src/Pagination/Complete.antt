-- ===== src/Pagination/Complete.antt =====
-- What the walk over the pages returns.
use mathlib.Core.Path.{subst}
use kis_trader_back.Common.{
  ℕ, zero, suc, ◌+◌, ◌≡◌, ◌≤◌, refl, String, false, Option, none, some, List, [], ◌∷◌, arith, any,
  length, Bool-cases, inl, inr, sym, ◌==◌,
}
use kis_trader_back.Common.First.{add_first, IsUnique, add_first-IsUnique}
use kis_trader_back.Pagination.{
  Page, Cursor, cursor_eq, Verdict, fail, stop, go, read_page, same_row, add_rows, resume, walk,
  paginate,
}

module _ {T : Type 0} (key : T → String) where
  -- The rows of the pages in turn, the first of each identity.
  abbrev pub collect : List T → List (List T) → List T
  collect kept [] = kept
  collect kept (rows ∷ later) = collect (add_rows key kept rows) later

  add_rows-IsUnique :
      (kept rows : List T)
      → IsUnique (same_row key) kept
      → IsUnique (same_row key) (add_rows key kept rows)
  unfolding add_rows
  add_rows-IsUnique kept [] u = u
  add_rows-IsUnique kept (r ∷ rs) u =
      add_rows-IsUnique (add_first (same_row key) kept r) rs
        (add_first-IsUnique (same_row key) kept r u)

  collect-IsUnique :
      (kept : List T) (cs : List (List T))
      → IsUnique (same_row key) kept
      → IsUnique (same_row key) (collect kept cs)
  collect-IsUnique kept [] u = u
  collect-IsUnique kept (c ∷ cs) u =
      collect-IsUnique (add_rows key kept c) cs (add_rows-IsUnique kept c u)

  module _ (fetch : ℕ → String → String → Option (Page T)) where
    -- The rows of the pages from one on, as the broker's cursors lead to the last page.
    pub data Trace : ℕ → String → String → List (List T) → List Cursor → Type 0 where
      last :
          (page : ℕ) (fk nk : String) (rows : List T)
          → read_page (fetch page fk nk) ≡ stop rows
          → Trace page fk nk (rows ∷ []) []
      more :
          (page : ℕ) (fk nk : String) (rows : List T) (c : Cursor) (cs : List (List T))
          (ts : List Cursor)
          → read_page (fetch page fk nk) ≡ go rows c
          → Trace (page + 1) c.fk c.nk cs ts
          → Trace page fk nk (rows ∷ cs) (c ∷ ts)

    -- No cursor comes twice, nor is among those visited.
    abbrev pub IsFresh : List Cursor → List Cursor → Type 0
    IsFresh visited [] = Unit
    IsFresh visited (c ∷ cs) = (any (cursor_eq c) visited ≡ false) × IsFresh (c ∷ visited) cs

    nonempty :
        (page : ℕ) (fk nk : String) (cs : List (List T)) (ts : List Cursor)
        → Trace page fk nk cs ts
        → 1 ≤ length cs
    nonempty page fk nk _ _ (last _ _ _ rows e) = omega arith
    nonempty page fk nk _ _ (more _ _ _ rows c cs ts e t) = omega arith

    walk_complete :
        (left page : ℕ) (fk nk : String) (kept : List T) (visited : List Cursor)
        (cs : List (List T)) (ts : List Cursor)
        → Trace page fk nk cs ts
        → IsFresh visited ts
        → length cs ≤ left
        → walk key fetch left page fk nk kept visited ≡ some (collect kept cs)
    unfolding walk resume
    walk_complete zero page fk nk kept visited cs ts t f h =
        let some_page = nonempty page fk nk cs ts t in ground arith
    walk_complete (suc left) page fk nk kept visited _ _ (last _ _ _ rows e) f h = rw e refl
    walk_complete (suc left) page fk nk kept visited _ _ (more _ _ _ rows c cs ts e t) (new, f) h =
        let rest =
          walk_complete left (page + 1) c.fk c.nk (add_rows key kept rows) (c ∷ visited) cs ts t f
            (omega (arith, h)) in
        let allowed : (left == 0) ≡ false =
          positive_lem left (nonempty (page + 1) c.fk c.nk cs ts t) (omega (arith, h)) in
        rw (e, resume, new, allowed) rest
      where
        positive_lem : {m : ℕ} (n : ℕ) → 1 ≤ m → m ≤ n → (n == 0) ≡ false
        positive_lem n a b = ground arith

    -- The pages that a walk read, with as many allowed.
    pub record Walked (left page : ℕ) (fk nk : String) (kept : List T) (visited : List Cursor)
        (rows : List T) : Type 0 where
      pub pages : List (List T)
      pub cursors : List Cursor
      pub trace : Trace page fk nk pages cursors
      pub is_fresh : IsFresh visited cursors
      pub few : length pages ≤ left
      pub collected : rows ≡ collect kept pages

    resume_sound :
        (left page : ℕ) (fk nk : String) (kept : List T) (visited : List Cursor) (v : Verdict T)
        (rows : List T)
        → ((f n : String) (k : List T) (cs : List Cursor)
            → walk key fetch left (page + 1) f n k cs ≡ some rows
            → Walked left (page + 1) f n k cs rows)
        → read_page (fetch page fk nk) ≡ v
        → resume key (walk key fetch left (page + 1)) left kept visited v ≡ some rows
        → Walked (suc left) page fk nk kept visited rows
    unfolding resume
    resume_sound left page fk nk kept visited fail rows ih e h = cc
    resume_sound left page fk nk kept visited (stop last_rows) rows ih e h = record {
      pages = last_rows ∷ [];
      cursors = [];
      trace = last page fk nk last_rows e;
      is_fresh = tt;
      few = omega arith;
      collected = cc;
    }
    resume_sound left page fk nk kept visited (go new c) rows ih e h =
        elim (Bool-cases (any (cursor_eq c) visited)) [
          | inl again ↦ absurd_lem (rw (again, resume) at h)
          | inr fresh ↦ elim (Bool-cases (left == 0)) [
            | inl out ↦ absurd_lem (rw (fresh, out, resume) at h)
            | inr on ↦
                let w =
                  ih c.fk c.nk (add_rows key kept new) (c ∷ visited)
                    (rw (fresh, on, resume) at h) in
                record {
                  pages = new ∷ w.pages;
                  cursors = c ∷ w.cursors;
                  trace = more page fk nk new c w.pages w.cursors e w.trace;
                  is_fresh = (fresh, w.is_fresh);
                  few = omega (arith, w.few);
                  collected = w.collected;
                }
          ]
        ]
      where
        absurd_lem : none ≡ some rows → Walked (suc left) page fk nk kept visited rows
        absurd_lem x = cc

    walk_sound :
        (left page : ℕ) (fk nk : String) (kept : List T) (visited : List Cursor) (rows : List T)
        → walk key fetch left page fk nk kept visited ≡ some rows
        → Walked left page fk nk kept visited rows
    unfolding walk
    walk_sound zero page fk nk kept visited rows h = cc
    walk_sound (suc left) page fk nk kept visited rows h =
        resume_sound left page fk nk kept visited _ rows
          (λ f n k cs e. walk_sound left (page + 1) f n k cs rows e) refl h

    -- If the broker's cursors lead from the first page to a last one within 100 pages, and no cursor comes
    -- twice, the pagination returns the rows of all these pages, the first of each identity, in order.
    pub paginate_complete :
        (cs : List (List T)) (ts : List Cursor)
        → Trace 1 "" "" cs ts
        → IsFresh [] ts
        → length cs ≤ 100
        → paginate key fetch ≡ some (collect [] cs)
    unfolding paginate
    paginate_complete cs ts t f h = walk_complete 100 1 "" "" [] [] cs ts t f h

    -- What the pagination returns are the rows of all the pages from the first to one that the broker
    -- called the last, at most 100 of them and along cursors of which none comes twice; no two of the
    -- rows have one identity.
    pub paginate_sound :
        (rows : List T)
        → paginate key fetch ≡ some rows
        → Walked 100 1 "" "" [] [] rows × IsUnique (same_row key) rows
    unfolding paginate
    paginate_sound rows h =
        let w = walk_sound 100 1 "" "" [] [] rows h in
        (w, subst (IsUnique (same_row key)) (sym w.collected) (collect-IsUnique [] w.pages tt))

-- ===== src/Pagination/Kept.antt =====
-- What holds of the rows of every page holds of the rows that the walk returns.
use mathlib.Core.Path.{subst}
use kis_trader_back.Common.{
  ℕ, ◌≡◌, refl, sym, ap, ◌+◌, ◌||◌, if◌then◌else◌, str_eq, String, Bool, true, false, Option, none,
  some, List, [], ◌∷◌, All,
}
use kis_trader_back.Common.First.{add_first, All-add_first}
use kis_trader_back.Pagination.{
  Page, Cursor, Verdict, fail, stop, go, read_page, same_row, add_rows, paginate, present,
  with_rows, with_continuation, with_context, upper_of,
}
use kis_trader_back.Pagination.Complete.{Trace, last, more, collect, paginate_sound}

module _ {T : Type 0} where
  -- The rows of a page that the walk takes.
  abbrev rows_of : Verdict T → Option (List T)
  rows_of fail = none
  rows_of (stop rows) = some rows
  rows_of (go rows c) = some rows

  continued-rows :
      (taken : List T) (c : Option String) (p : Page T) (rows : List T)
      → rows_of (with_continuation taken c p) ≡ some rows
      → taken ≡ rows
  continued-rows taken none p rows e = cc
  continued-rows taken (some c) p rows e =
      by_header (str_eq c "M" || str_eq c "F") (present p.fk) (present p.nk) e
    where
      by_header :
          (b : Bool) (fk nk : Option String)
          → rows_of (if b then with_context taken c fk nk else stop taken) ≡ some rows
          → taken ≡ rows
      by_header false fk nk g = cc
      by_header true none nk g = cc
      by_header true (some fk) none g = cc
      by_header true (some fk) (some nk) g = cc

  read_page-rows :
      (o : Option (Page T)) (rows : List T)
      → rows_of (read_page o) ≡ some rows
      → (p : Page T) × (o ≡ some p) × (p.rows ≡ some rows)
  unfolding read_page
  read_page-rows none rows e = cc
  read_page-rows (some p) rows e = (p, refl, by_rows p.rows refl e)
    where
      by_rows :
          (r : Option (List T))
          → p.rows ≡ r
          → rows_of (with_rows r p) ≡ some rows
          → p.rows ≡ some rows
      by_rows none f g = cc
      by_rows (some taken) f g =
          let same = continued-rows taken (upper_of (present p.tr_cont)) p rows g in cc

module _ {T : Type 0} (key : T → String) (P : T → Type 0) where
  add_rows-All : (kept rows : List T) → All P kept → All P rows → All P (add_rows key kept rows)
  unfolding add_rows
  add_rows-All kept [] h g = h
  add_rows-All kept (r ∷ rs) h (g, gs) =
      add_rows-All (add_first (same_row key) kept r) rs (All-add_first (same_row key) P kept r h g)
        gs

  collect-All :
      (kept : List T) (cs : List (List T))
      → All P kept
      → All (All P) cs
      → All P (collect key kept cs)
  collect-All kept [] h g = h
  collect-All kept (c ∷ cs) h (g, gs) =
      collect-All (add_rows key kept c) cs (add_rows-All kept c h g) gs

  module _ (fetch : ℕ → String → String → Option (Page T)) where
    -- Every page that the broker answers has only such rows.
    abbrev pub Answers : Type 0
    Answers =
        (page : ℕ) (fk nk : String) (p : Page T) (rows : List T)
        → fetch page fk nk ≡ some p
        → p.rows ≡ some rows
        → All P rows

    from_page :
        Answers
        → (page : ℕ) (fk nk : String) (rows : List T)
        → rows_of (read_page (fetch page fk nk)) ≡ some rows
        → All P rows
    from_page h page fk nk rows e =
        let (p, f, r) = read_page-rows (fetch page fk nk) rows e in h page fk nk p rows f r

    Trace-All :
        Answers
        → (page : ℕ) (fk nk : String) (cs : List (List T)) (ts : List Cursor)
        → Trace key fetch page fk nk cs ts
        → All (All P) cs
    Trace-All h page fk nk _ _ (last _ _ _ rows e) =
        (from_page h page fk nk rows (ap rows_of e), tt)
    Trace-All h page fk nk _ _ (more _ _ _ rows c cs ts e t) =
        (from_page h page fk nk rows (ap rows_of e), Trace-All h (page + 1) c.fk c.nk cs ts t)

    pub paginate-All : Answers → (rows : List T) → paginate key fetch ≡ some rows → All P rows
    paginate-All h rows e =
        let (w, u) = paginate_sound key fetch rows e in
        subst (All P) (sym w.collected)
          (collect-All [] w.pages tt (Trace-All h 1 "" "" w.pages w.cursors w.trace))

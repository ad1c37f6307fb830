-- ===== src/Pagination.antt =====
-- src/kis/kis-order-history-pagination.service.ts: the walk over the pages of the broker's order history.
-- What a page request ends with is a parameter; the header of every page but the first follows from the
-- page's number.
pub mod Complete
pub mod Kept
use kis_trader_back.Common.First.{add_first}
use kis_trader_back.Common.{
  ℕ, zero, suc, ◌+◌, String, Bool, true, false, ◌&&◌, ◌||◌, Option, none, some, List, [], ◌∷◌, ◌++◌,
  if◌then◌else◌, str_eq, trim, upper, is_empty, any, ◌==◌,
}

pub record Page {ℓ} (T : Type ℓ) : Type ℓ where
  pub rows : Option (List T)
  pub tr_cont : Option String
  pub fk : Option String
  pub nk : Option String

-- `normalize` without the upper case.
unfoldable pub present : Option String → Option String
unfolding trim
present none = none
present (some s) = if is_empty (trim s) then none else some (trim s)

pub record Cursor : Type 0 where
  pub tr_cont : String
  pub fk : String
  pub nk : String

-- Equality of `JSON.stringify` of the three texts.
abbrev pub cursor_eq : Cursor → Cursor → Bool
cursor_eq a b = str_eq a.tr_cont b.tr_cont && str_eq a.fk b.fk && str_eq a.nk b.nk

abbrev upper_of : Option String → Option String
upper_of none = none
upper_of (some s) = some (upper s)

-- What a page says: the walk fails, ends with these rows, or goes on at a cursor.
pub data Verdict {ℓ} (T : Type ℓ) : Type ℓ where
  fail : Verdict T
  stop : List T → Verdict T
  go : List T → Cursor → Verdict T

module _ {ℓ} {T : Type ℓ} where
  abbrev with_context : List T → String → Option String → Option String → Verdict T
  with_context rows c (some fk) (some nk) = go rows (record { tr_cont = c; fk = fk; nk = nk })
  with_context rows c _ _ = fail

  abbrev with_continuation : List T → Option String → Page T → Verdict T
  with_continuation rows none p = fail
  with_continuation rows (some c) p =
      if str_eq c "M" || str_eq c "F"
      then with_context rows c (present p.fk) (present p.nk)
      else stop rows

  abbrev with_rows : Option (List T) → Page T → Verdict T
  with_rows none p = fail
  with_rows (some rows) p = with_continuation rows (upper_of (present p.tr_cont)) p

  unfoldable pub read_page : Option (Page T) → Verdict T
  unfolding present upper
  read_page none = fail
  read_page (some p) = with_rows p.rows p

module _ {ℓ} {T : Type ℓ} (key : T → String) where
  -- The map keeps the first row of an identity, in the order of insertion.
  abbrev pub same_row : T → T → Bool
  same_row k r = str_eq (key k) (key r)

  unfoldable pub add_rows : List T → List T → List T
  add_rows kept [] = kept
  add_rows kept (r ∷ rs) = add_rows (add_first same_row kept r) rs

  -- What follows a page; `next` walks on.
  unfoldable pub resume :
      (String → String → List T → List Cursor → Option (List T))
      → ℕ
      → List T
      → List Cursor
      → Verdict T
      → Option (List T)
  unfolding add_rows
  resume next left kept visited fail = none
  resume next left kept visited (stop rows) = some (add_rows kept rows)
  resume next left kept visited (go rows c) = elim (any (cursor_eq c) visited) [
    | true ↦ none
    | false ↦ elim (left == 0) [
      | true ↦ none
      | false ↦ next c.fk c.nk (add_rows kept rows) (c ∷ visited)
    ]
  ]

  module _ (fetch : ℕ → String → String → Option (Page T)) where
    -- The loop from a page on, with so many pages allowed.
    unfoldable pub walk : ℕ → ℕ → String → String → List T → List Cursor → Option (List T)
    unfolding resume read_page
    walk zero page fk nk kept visited = none
    walk (suc left) page fk nk kept visited =
        resume (walk left (page + 1)) left kept visited (read_page (fetch page fk nk))

    unfoldable pub paginate : Option (List T)
    unfolding walk
    paginate = walk 100 1 "" "" [] []

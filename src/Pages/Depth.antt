-- ===== src/Pages/Depth.antt =====
-- A page by cursor at the depth of an offset.
use systems_engineering_lab.Prelude.{
  ℕ, zero, suc, ◌≡◌, refl, Option, none, some, List, [], ◌∷◌, arith, keep, take, drop, ap, ◌∙◌, sym,
}
use systems_engineering_lab.Pages.{
  ActivityEventRow, Cursor, cursor_from_row, order_by, after, run_offset_page, run_keyset_page,
  first_cursor, get_cursor_at_offset, next_cursor,
}
use systems_engineering_lab.Pages.Order.{NoTwins, AllAfter, order_by-Ascending}
use systems_engineering_lab.Pages.Walk.{keep-drop, order_by-keep}

first_dropped :
    (n : ℕ) (d : Option Cursor) (c : Cursor) (rows : List ActivityEventRow)
    → first_cursor (take 1 (drop n rows)) ≡ some c
    → next_cursor d (take (suc n) rows) ≡ some c
first_dropped zero d c [] e = ground (arith, e)
first_dropped zero d c (r ∷ rows) e = e
first_dropped (suc n) d c [] e = ground (arith, e)
first_dropped (suc n) d c (r ∷ rows) e = first_dropped n (some (cursor_from_row r)) c rows e

-- Every row comes after no cursor.
AllAfter-none : (rows : List ActivityEventRow) → AllAfter none rows
AllAfter-none [] = tt
AllAfter-none (r ∷ rows) = (refl, AllAfter-none rows)

-- In a table in which no two rows have one key, the page by cursor that starts from the cursor of the
-- row at an offset, where there is such a row, is the page by offset from the next row on.
pub run_keyset_page-get_cursor_at_offset :
    (t : List ActivityEventRow) (offset limit : ℕ) (c : Cursor)
    → NoTwins t
    → get_cursor_at_offset t offset ≡ some c
    → run_keyset_page t (some c) limit ≡ run_offset_page t (suc offset) limit
unfolding run_keyset_page run_offset_page get_cursor_at_offset
run_keyset_page-get_cursor_at_offset t offset limit c n e =
    let cursor : next_cursor none (take (suc offset) (order_by t)) ≡ some c =
      first_dropped offset none c (order_by t) e in
    ap (take limit) (
      order_by-keep (some c) t
      ∙ ap (λ d. keep (after d) (order_by t)) (sym cursor)
      ∙ keep-drop (suc offset) none (order_by t) (order_by-Ascending none t n (AllAfter-none t)))

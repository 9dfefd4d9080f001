-- ===== src/Pages/Offset.antt =====
-- Pages by offset when a row arrives in front of the others: scenarios/offset-correctness-bug.ts
-- and keyset-correctness.ts.
use systems_engineering_lab.Prelude.{
  ℕ, suc, ◌≡◌, refl, true, false, Option, List, [], ◌∷◌, take, drop, ap, Bool-cases, inl, inr,
}
use systems_engineering_lab.Pages.{
  ActivityEventRow, Cursor, row_lt, insert, order_by, after, run_offset_page, run_keyset_page,
}

-- The row sorts before all of the table.
abbrev pub BeforeAll : ActivityEventRow → List ActivityEventRow → Type 0
BeforeAll r [] = Unit
BeforeAll r (s ∷ rows) = (row_lt r s ≡ true) × BeforeAll r rows

BeforeAll-insert :
    (r s : ActivityEventRow) (rows : List ActivityEventRow)
    → row_lt r s ≡ true
    → BeforeAll r rows
    → BeforeAll r (insert s rows)
BeforeAll-insert r s [] e b = (e, tt)
BeforeAll-insert r s (t ∷ rows) e b = elim (Bool-cases (row_lt s t)) [
  | inl less ↦ rw less (e, b)
  | inr more ↦ rw more (b.0, BeforeAll-insert r s rows e b.1)
]

BeforeAll-order_by :
    (r : ActivityEventRow) (rows : List ActivityEventRow)
    → BeforeAll r rows
    → BeforeAll r (order_by rows)
unfolding order_by
BeforeAll-order_by r [] b = tt
BeforeAll-order_by r (s ∷ rows) b =
    BeforeAll-insert r s (order_by rows) b.0 (BeforeAll-order_by r rows b.1)

first_inserted :
    (r : ActivityEventRow) (rows : List ActivityEventRow)
    → BeforeAll r rows
    → insert r rows ≡ r ∷ rows
first_inserted r [] b = refl
first_inserted r (s ∷ rows) b = rw (b.0) refl

-- Let a row arrive that sorts before the whole table, or, read the other way, the first row be
-- deleted. Every page by offset then shows what stood one row earlier: the next page repeats the
-- last row of the one before, or leaves out a row. A page by a cursor that the row does not come
-- after is the same as before.
pub offset_shifts :
    (r : ActivityEventRow) (rows : List ActivityEventRow) (offset limit : ℕ) (c : Option Cursor)
    → BeforeAll r rows
    → after c r ≡ false
    → (run_offset_page (r ∷ rows) (suc offset) limit ≡ run_offset_page rows offset limit)
      × (run_keyset_page (r ∷ rows) c limit ≡ run_keyset_page rows c limit)
unfolding run_offset_page run_keyset_page order_by
offset_shifts r rows offset limit c b out = (
  ap (λ l. take limit (drop (suc offset) l))
      (first_inserted r (order_by rows) (BeforeAll-order_by r rows b)),
  rw out refl,
)

-- ===== src/Pages/Order.antt =====
-- The order of the rows, and sorting by it.
use systems_engineering_lab.Prelude.{
  ◌≡◌, refl, Bool, true, ◌||◌, Option, none, some, List, [], ◌∷◌, arith, keep, Bool-cases, inl, inr,
}
use systems_engineering_lab.Pages.{
  ActivityEventRow, Cursor, cursor_from_row, row_lt, insert, order_by, after,
}

-- All rows come after the cursor, and each after the one before it.
abbrev pub Ascending : Option Cursor → List ActivityEventRow → Type 0
Ascending c [] = Unit
Ascending c (r ∷ rows) = (after c r ≡ true) × Ascending (some (cursor_from_row r)) rows

-- No other row has the key of `r`; no two rows have one key.
abbrev pub Fresh : ActivityEventRow → List ActivityEventRow → Type 0
Fresh r [] = Unit
Fresh r (s ∷ rows) = ((row_lt r s || row_lt s r) ≡ true) × Fresh r rows

abbrev pub NoTwins : List ActivityEventRow → Type 0
NoTwins [] = Unit
NoTwins (r ∷ rows) = Fresh r rows × NoTwins rows

pub after_trans :
    (c : Option Cursor) (r s : ActivityEventRow)
    → after c r ≡ true
    → row_lt r s ≡ true
    → after c s ≡ true
after_trans none r s e f = refl
after_trans (some c) r s e f = ground arith

pub Ascending-weaken :
    (c d : Option Cursor) (rows : List ActivityEventRow)
    → ((r : ActivityEventRow) → after d r ≡ true → after c r ≡ true)
    → Ascending d rows
    → Ascending c rows
Ascending-weaken c d [] h a = tt
Ascending-weaken c d (r ∷ rows) h a = (h r a.0, a.1)

pub insert-Ascending :
    (c : Option Cursor) (r : ActivityEventRow) (rows : List ActivityEventRow)
    → after c r ≡ true
    → Fresh r rows
    → Ascending c rows
    → Ascending c (insert r rows)
insert-Ascending c r [] e f a = (e, tt)
insert-Ascending c r (s ∷ rows) e f a = elim (Bool-cases (row_lt r s)) [
  | inl less ↦ rw less (e, (less, a.1))
  | inr more ↦
      rw more (
        a.0,
        insert-Ascending (some (cursor_from_row s)) r rows (ground (arith, more, f.0)) f.1 a.1,
      )
]

Fresh-insert :
    (q r : ActivityEventRow) (rows : List ActivityEventRow)
    → (row_lt q r || row_lt r q) ≡ true
    → Fresh q rows
    → Fresh q (insert r rows)
Fresh-insert q r [] e f = (e, tt)
Fresh-insert q r (s ∷ rows) e f = elim (Bool-cases (row_lt r s)) [
  | inl less ↦ rw less (e, f)
  | inr more ↦ rw more (f.0, Fresh-insert q r rows e f.1)
]

pub order_by-Fresh :
    (q : ActivityEventRow) (rows : List ActivityEventRow) → Fresh q rows → Fresh q (order_by rows)
unfolding order_by
order_by-Fresh q [] f = tt
order_by-Fresh q (r ∷ rows) f = Fresh-insert q r (order_by rows) f.0 (order_by-Fresh q rows f.1)

keep-Fresh :
    (p : ActivityEventRow → Bool) (q : ActivityEventRow) (rows : List ActivityEventRow)
    → Fresh q rows
    → Fresh q (keep p rows)
keep-Fresh p q [] f = tt
keep-Fresh p q (r ∷ rows) f = elim (Bool-cases (p r)) [
  | inl kept ↦ rw kept (f.0, keep-Fresh p q rows f.1)
  | inr dropped ↦ rw dropped (keep-Fresh p q rows f.1)
]

pub keep-NoTwins :
    (p : ActivityEventRow → Bool) (rows : List ActivityEventRow)
    → NoTwins rows
    → NoTwins (keep p rows)
keep-NoTwins p [] n = tt
keep-NoTwins p (r ∷ rows) n = elim (Bool-cases (p r)) [
  | inl kept ↦ rw kept (keep-Fresh p r rows n.0, keep-NoTwins p rows n.1)
  | inr dropped ↦ rw dropped (keep-NoTwins p rows n.1)
]

-- Every row comes after the cursor.
abbrev pub AllAfter : Option Cursor → List ActivityEventRow → Type 0
AllAfter c [] = Unit
AllAfter c (r ∷ rows) = (after c r ≡ true) × AllAfter c rows

pub keep-AllAfter :
    (c : Option Cursor) (rows : List ActivityEventRow) → AllAfter c (keep (after c) rows)
keep-AllAfter c [] = tt
keep-AllAfter c (r ∷ rows) = elim (Bool-cases (after c r)) [
  | inl kept ↦ rw kept (kept, keep-AllAfter c rows)
  | inr dropped ↦ rw dropped (keep-AllAfter c rows)
]

pub order_by-Ascending :
    (c : Option Cursor) (rows : List ActivityEventRow)
    → NoTwins rows
    → AllAfter c rows
    → Ascending c (order_by rows)
unfolding order_by
order_by-Ascending c [] n a = tt
order_by-Ascending c (r ∷ rows) n a =
    insert-Ascending c r (order_by rows) a.0 (order_by-Fresh r rows n.0)
      (order_by-Ascending c rows n.1 a.1)

pub Ascending-AllAfter :
    (c : Option Cursor) (rows : List ActivityEventRow) → Ascending c rows → AllAfter c rows
Ascending-AllAfter c [] a = tt
Ascending-AllAfter c (r ∷ rows) a = (
  a.0,
  Ascending-AllAfter c rows
      (Ascending-weaken c (some (cursor_from_row r)) rows (λ s f. after_trans c r s a.0 f) a.1),
)

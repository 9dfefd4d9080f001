-- ===== src/Pages/Keyset.antt =====
-- Pages by cursor while the table changes between them.
use systems_engineering_lab.Prelude.{
  ℕ, zero, suc, ◌≡◌, refl, Bool, true, ◌⊎◌, inl, inr, Option, none, some, List, [], ◌∷◌, ◌++◌, keep,
  take, Bool-cases, ap, ◌∙◌, sym, subst,
}
use systems_engineering_lab.Pages.{
  ActivityEventRow, Cursor, cursor_from_row, row_lt, insert, order_by, after, run_keyset_page,
  next_cursor,
}
use systems_engineering_lab.Pages.Order.{
  Ascending, NoTwins, AllAfter, keep-NoTwins, keep-AllAfter, order_by-Ascending, Ascending-AllAfter,
}

-- The pages of a client that goes on from the last row it got; the table at each fetch.
abbrev pub walk : List (List ActivityEventRow) → ℕ → Option Cursor → List ActivityEventRow
walk [] limit c = []
walk (t ∷ ts) limit c =
    run_keyset_page t c limit ++ walk ts limit (next_cursor c (run_keyset_page t c limit))

-- The cursor that it has at the end.
abbrev pub last_cursor : List (List ActivityEventRow) → ℕ → Option Cursor → Option Cursor
last_cursor [] limit c = c
last_cursor (t ∷ ts) limit c = last_cursor ts limit (next_cursor c (run_keyset_page t c limit))

abbrev pub AllNoTwins : List (List ActivityEventRow) → Type 0
AllNoTwins [] = Unit
AllNoTwins (t ∷ ts) = NoTwins t × AllNoTwins ts

abbrev pub Occurs : ActivityEventRow → List ActivityEventRow → Type 0
Occurs r [] = ⊥
Occurs r (s ∷ rows) = (r ≡ s) ⊎ Occurs r rows

abbrev pub OccursInAll : ActivityEventRow → List (List ActivityEventRow) → Type 0
OccursInAll r [] = Unit
OccursInAll r (t ∷ ts) = Occurs r t × OccursInAll r ts

pub take-Ascending :
    (n : ℕ) (c : Option Cursor) (rows : List ActivityEventRow)
    → Ascending c rows
    → Ascending c (take n rows)
take-Ascending zero c rows a = tt
take-Ascending (suc n) c [] a = tt
take-Ascending (suc n) c (r ∷ rows) a = (a.0, take-Ascending n (some (cursor_from_row r)) rows a.1)

append-Ascending :
    (c : Option Cursor) (xs ys : List ActivityEventRow)
    → Ascending c xs
    → Ascending (next_cursor c xs) ys
    → Ascending c (xs ++ ys)
append-Ascending c [] ys a b = b
append-Ascending c (x ∷ xs) ys a b = (a.0, append-Ascending (some (cursor_from_row x)) xs ys a.1 b)

pub page-Ascending :
    (t : List ActivityEventRow) (c : Option Cursor) (limit : ℕ)
    → NoTwins t
    → Ascending c (run_keyset_page t c limit)
unfolding run_keyset_page
page-Ascending t c limit n =
    take-Ascending limit c (order_by (keep (after c) t))
      (order_by-Ascending c (keep (after c) t) (keep-NoTwins (after c) t n) (keep-AllAfter c t))

walk-Ascending :
    (ts : List (List ActivityEventRow)) (limit : ℕ) (c : Option Cursor)
    → AllNoTwins ts
    → Ascending c (walk ts limit c)
walk-Ascending [] limit c n = tt
walk-Ascending (t ∷ ts) limit c n =
    append-Ascending c (run_keyset_page t c limit)
      (walk ts limit (next_cursor c (run_keyset_page t c limit))) (page-Ascending t c limit n.0)
      (walk-Ascending ts limit (next_cursor c (run_keyset_page t c limit)) n.1)

insert_here : (r : ActivityEventRow) (rows : List ActivityEventRow) → Occurs r (insert r rows)
insert_here r [] = inl refl
insert_here r (s ∷ rows) = elim (Bool-cases (row_lt r s)) [
  | inl less ↦ rw less (inl refl)
  | inr more ↦ rw more (inr (insert_here r rows))
]

insert_there :
    (q r : ActivityEventRow) (rows : List ActivityEventRow)
    → Occurs q rows
    → Occurs q (insert r rows)
insert_there q r [] o = elim o [ ]
insert_there q r (s ∷ rows) o = elim (Bool-cases (row_lt r s)) [
  | inl less ↦ rw less (inr o)
  | inr more ↦ rw more (elim o [ inl e ↦ inl e | inr p ↦ inr (insert_there q r rows p) ])
]

order_by-Occurs :
    (q : ActivityEventRow) (rows : List ActivityEventRow) → Occurs q rows → Occurs q (order_by rows)
unfolding order_by
order_by-Occurs q [] o = o
order_by-Occurs q (r ∷ rows) (inl e) =
    subst (λ x. Occurs x (insert r (order_by rows))) (sym e) (insert_here r (order_by rows))
order_by-Occurs q (r ∷ rows) (inr o) = insert_there q r (order_by rows) (order_by-Occurs q rows o)

keep-Occurs :
    (p : ActivityEventRow → Bool) (q : ActivityEventRow) (rows : List ActivityEventRow)
    → p q ≡ true
    → Occurs q rows
    → Occurs q (keep p rows)
keep-Occurs p q [] h o = o
keep-Occurs p q (r ∷ rows) h (inl e) = rw (ap p (sym e) ∙ h) (inl e)
keep-Occurs p q (r ∷ rows) h (inr o) = elim (Bool-cases (p r)) [
  | inl kept ↦ rw kept (inr (keep-Occurs p q rows h o))
  | inr dropped ↦ rw dropped (keep-Occurs p q rows h o)
]

AllAfter-Occurs :
    (c : Option Cursor) (rows : List ActivityEventRow) (q : ActivityEventRow)
    → AllAfter c rows
    → Occurs q rows
    → after c q ≡ true
AllAfter-Occurs c [] q a o = elim o [ ]
AllAfter-Occurs c (r ∷ rows) q a (inl e) = rw e a.0
AllAfter-Occurs c (r ∷ rows) q a (inr o) = AllAfter-Occurs c rows q a.1 o

-- A row of an ascending list is among its first `n`, or comes after the last of those.
taken_or_after :
    (n : ℕ) (c : Option Cursor) (rows : List ActivityEventRow) (q : ActivityEventRow)
    → Ascending c rows
    → Occurs q rows
    → Occurs q (take n rows) ⊎ (after (next_cursor c (take n rows)) q ≡ true)
taken_or_after n c [] q a o = elim o [ ]
taken_or_after zero c (r ∷ rows) q a (inl e) = inr (rw e a.0)
taken_or_after zero c (r ∷ rows) q a (inr o) =
    inr (AllAfter-Occurs c rows q (Ascending-AllAfter c (r ∷ rows) a).1 o)
taken_or_after (suc n) c (r ∷ rows) q a (inl e) = inl (inl e)
taken_or_after (suc n) c (r ∷ rows) q a (inr o) =
    elim (taken_or_after n (some (cursor_from_row r)) rows q a.1 o) [
      | inl p ↦ inl (inr p)
      | inr f ↦ inr f
    ]

page_or_after :
    (t : List ActivityEventRow) (c : Option Cursor) (limit : ℕ) (q : ActivityEventRow)
    → NoTwins t
    → Occurs q t
    → after c q ≡ true
    → Occurs q (run_keyset_page t c limit)
      ⊎ (after (next_cursor c (run_keyset_page t c limit)) q ≡ true)
unfolding run_keyset_page
page_or_after t c limit q n o f =
    taken_or_after limit c (order_by (keep (after c) t)) q
      (order_by-Ascending c (keep (after c) t) (keep-NoTwins (after c) t n) (keep-AllAfter c t))
      (order_by-Occurs q (keep (after c) t) (keep-Occurs (after c) q t f o))

append_left :
    (q : ActivityEventRow) (xs ys : List ActivityEventRow) → Occurs q xs → Occurs q (xs ++ ys)
append_left q [] ys o = elim o [ ]
append_left q (x ∷ xs) ys (inl e) = inl e
append_left q (x ∷ xs) ys (inr o) = inr (append_left q xs ys o)

append_right :
    (q : ActivityEventRow) (xs ys : List ActivityEventRow) → Occurs q ys → Occurs q (xs ++ ys)
append_right q [] ys o = o
append_right q (x ∷ xs) ys o = inr (append_right q xs ys o)

walk_or_after :
    (ts : List (List ActivityEventRow)) (limit : ℕ) (c : Option Cursor) (q : ActivityEventRow)
    → AllNoTwins ts
    → OccursInAll q ts
    → after c q ≡ true
    → Occurs q (walk ts limit c) ⊎ (after (last_cursor ts limit c) q ≡ true)
walk_or_after [] limit c q n o f = inr f
walk_or_after (t ∷ ts) limit c q n o f =
    let page = run_keyset_page t c limit in
    let d = next_cursor c page in
    elim (page_or_after t c limit q n.0 o.0 f) [
      | inl p ↦ inl (append_left q page (walk ts limit d) p)
      | inr g ↦ elim (walk_or_after ts limit d q n.1 o.1 g) [
        | inl p ↦ inl (append_right q page (walk ts limit d) p)
        | inr h ↦ inr h
      ]
    ]

-- A client walks through the feed by cursors, while rows are inserted and deleted between its
-- fetches in any way; at each fetch no two rows have one key. What it gets is strictly
-- ascending by (created_at, id), so no row comes twice; and each row that was there at every fetch
-- has come, or lies after the cursor that the client now has.
pub walk_no_duplicate_no_gap :
    (ts : List (List ActivityEventRow)) (limit : ℕ) (q : ActivityEventRow)
    → AllNoTwins ts
    → OccursInAll q ts
    → Ascending none (walk ts limit none)
      × (Occurs q (walk ts limit none) ⊎ (after (last_cursor ts limit none) q ≡ true))
walk_no_duplicate_no_gap ts limit q n o =
    (walk-Ascending ts limit none n, walk_or_after ts limit none q n o refl)

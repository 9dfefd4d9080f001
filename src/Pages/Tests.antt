-- ===== src/Pages/Tests.antt =====
-- Pages of a small feed.
use systems_engineering_lab.Prelude.{
  ℕ, ◌*◌, ◌≡◌, ◌⊎◌, refl, true, none, some, List, [], ◌∷◌, arith, take,
}
use systems_engineering_lab.Pages.{
  ActivityEventRow, cursor_from_row, order_by, after, run_offset_page, run_keyset_page,
}
use systems_engineering_lab.Pages.Order.{Ascending}
use systems_engineering_lab.Pages.Keyset.{walk, last_cursor, Occurs, walk_no_duplicate_no_gap}
use systems_engineering_lab.Pages.Walk.{replicate, walk-order_by}

abbrev event : ℕ → ℕ → ActivityEventRow
event at n = record { created_at = at; id = n; content = n }

-- Two events in the second 10, inserted in another order than that of their times.
abbrev feed : List ActivityEventRow
feed = event 12 4 ∷ event 10 2 ∷ event 10 1 ∷ event 11 3 ∷ []

abbrev early : ActivityEventRow
early = event 5 9

abbrev late : ActivityEventRow
late = event 14 10

walk-order_by_example : walk (replicate 3 feed) 2 none ≡ take (3 * 2) (order_by feed)
walk-order_by_example = walk-order_by feed 2 3 (ground arith)

-- Between the two fetches an early row arrives, a late one too, and a delivered one goes.
walk_no_duplicate_no_gap_example :
    Ascending none
      (walk (feed ∷ (early ∷ late ∷ event 12 4 ∷ event 10 2 ∷ event 11 3 ∷ []) ∷ []) 2 none)
    × (Occurs
          (event 11 3)
          (walk (feed ∷ (early ∷ late ∷ event 12 4 ∷ event 10 2 ∷ event 11 3 ∷ []) ∷ []) 2 none)
        ⊎ (after
              (last_cursor
                (feed ∷ (early ∷ late ∷ event 12 4 ∷ event 10 2 ∷ event 11 3 ∷ []) ∷ [])
                2
                none)
              (event 11 3)
            ≡ true))
walk_no_duplicate_no_gap_example =
    walk_no_duplicate_no_gap
      (feed ∷ (early ∷ late ∷ event 12 4 ∷ event 10 2 ∷ event 11 3 ∷ []) ∷ []) 2 (event 11 3)
      (ground arith) (ground arith)

second_page :
    run_keyset_page feed (some (cursor_from_row (event 10 2))) 2 ≡ event 11 3 ∷ event 12 4 ∷ []
unfolding run_keyset_page
second_page = refl

-- After the early row has arrived, the second page repeats the last row of the first.
repeated :
    (run_offset_page feed 0 2 ≡ event 10 1 ∷ event 10 2 ∷ [])
    × (run_offset_page (early ∷ feed) 2 2 ≡ event 10 2 ∷ event 11 3 ∷ [])
unfolding run_offset_page
repeated = (refl, refl)

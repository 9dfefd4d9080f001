-- ===== src/Pages.antt =====
-- Pages of a feed: labs/34-pagination-at-scale/src/scenarios/pagination-lib.ts. The table
-- `activity_events` is its rows in any order; of a row its key stands, and the rest is a number.
pub mod Order
pub mod Keyset
pub mod Walk
pub mod Depth
pub mod Offset
mod Tests
use systems_engineering_lab.Prelude.{
  ℕ, Bool, true, false, ◌&&◌, ◌||◌, Option, none, some, List, [], ◌∷◌, ltb, ◌==◌, if◌then◌else◌,
  keep, take, drop,
}

pub record ActivityEventRow : Type 0 where
  pub created_at : ℕ
  pub id : ℕ
  pub content : ℕ

pub record Cursor : Type 0 where
  pub created_at : ℕ
  pub id : ℕ

abbrev pub cursor_from_row : ActivityEventRow → Cursor
cursor_from_row row = record { created_at = row.created_at; id = row.id }

-- (created_at, id) < (created_at, id), compared as rows
abbrev pub key_lt : ℕ → ℕ → ℕ → ℕ → Bool
key_lt c i d j = ltb c d || ((c == d) && ltb i j)

abbrev pub row_lt : ActivityEventRow → ActivityEventRow → Bool
row_lt r s = key_lt r.created_at r.id s.created_at s.id

-- ORDER BY created_at, id
abbrev pub insert : ActivityEventRow → List ActivityEventRow → List ActivityEventRow
insert r [] = r ∷ []
insert r (s ∷ rows) = if row_lt r s then r ∷ s ∷ rows else s ∷ insert r rows

unfoldable pub order_by : List ActivityEventRow → List ActivityEventRow
order_by [] = []
order_by (r ∷ rows) = insert r (order_by rows)

-- WHERE (created_at, id) > (cursor), which the first page has not
abbrev pub after : Option Cursor → ActivityEventRow → Bool
after none r = true
after (some c) r = key_lt c.created_at c.id r.created_at r.id

unfoldable pub run_offset_page : List ActivityEventRow → ℕ → ℕ → List ActivityEventRow
unfolding order_by
run_offset_page rows offset limit = take limit (drop offset (order_by rows))

unfoldable pub run_keyset_page : List ActivityEventRow → Option Cursor → ℕ → List ActivityEventRow
unfolding order_by
run_keyset_page rows cursor limit = take limit (order_by (keep (after cursor) rows))

abbrev pub first_cursor : List ActivityEventRow → Option Cursor
first_cursor [] = none
first_cursor (r ∷ rows) = some (cursor_from_row r)

-- The cursor of the row at an offset; none where the source throws, having found no row there.
unfoldable pub get_cursor_at_offset : List ActivityEventRow → ℕ → Option Cursor
unfolding order_by
get_cursor_at_offset rows offset = first_cursor (take 1 (drop offset (order_by rows)))

-- The cursor of the next page: that of the page's last row.
abbrev pub next_cursor : Option Cursor → List ActivityEventRow → Option Cursor
next_cursor c [] = c
next_cursor c (r ∷ rows) = next_cursor (some (cursor_from_row r)) rows

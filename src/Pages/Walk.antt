-- ===== src/Pages/Walk.antt =====
-- Pages by cursor over a table that does not change, against one sorted pass over it.
use systems_engineering_lab.Prelude.{
  ℕ, zero, suc, ◌+◌, ◌*◌, ◌≡◌, refl, true, false, Option, none, some, List, [], ◌∷◌, arith, keep,
  take, drop, take-drop, if◌then◌else◌, Bool-cases, inl, inr, ap, ◌∙◌, sym,
}
use systems_engineering_lab.Pages.{
  ActivityEventRow, Cursor, cursor_from_row, row_lt, insert, order_by, after, run_keyset_page,
  next_cursor,
}
use systems_engineering_lab.Pages.Order.{
  Ascending, NoTwins, AllAfter, after_trans, keep-NoTwins, keep-AllAfter, order_by-Ascending,
  Ascending-AllAfter,
}
use systems_engineering_lab.Pages.Keyset.{walk, take-Ascending}

abbrev pub replicate {ℓ} : {A : Type ℓ} → ℕ → A → List A
replicate zero x = []
replicate (suc n) x = x ∷ replicate n x

keep-insert :
    (c : Option Cursor) (r : ActivityEventRow) (rows : List ActivityEventRow)
    → keep (after c) (insert r rows)
      ≡ (if after c r then insert r (keep (after c) rows) else keep (after c) rows)
keep-insert c r [] = refl
keep-insert c r (s ∷ rows) = elim (Bool-cases (row_lt r s)) [
  | inl less ↦ ground (arith, less, after_trans c r s)
  | inr more ↦ ground (arith, more, keep-insert c r rows)
]

pub order_by-keep :
    (c : Option Cursor) (rows : List ActivityEventRow)
    → order_by (keep (after c) rows) ≡ keep (after c) (order_by rows)
unfolding order_by
order_by-keep c [] = refl
order_by-keep c (r ∷ rows) = elim (Bool-cases (after c r)) [
  | inl kept ↦
      rw kept (
        ap (insert r) (order_by-keep c rows) ∙ sym (keep-insert c r (order_by rows) ∙ rw kept refl))
  | inr dropped ↦
      rw dropped (order_by-keep c rows ∙ sym (keep-insert c r (order_by rows) ∙ rw dropped refl))
]

-- A row that does not come after `r` does not come after what follows `r`.
not_after_next :
    (n : ℕ) (r q : ActivityEventRow) (rows : List ActivityEventRow)
    → row_lt r q ≡ false
    → Ascending (some (cursor_from_row r)) rows
    → after (next_cursor (some (cursor_from_row r)) (take n rows)) q ≡ false
not_after_next zero r q rows e a = e
not_after_next (suc n) r q [] e a = e
not_after_next (suc n) r q (s ∷ rows) e a = not_after_next n s q rows (ground (arith, e, a.0)) a.1

keep_all :
    (c : Option Cursor) (rows : List ActivityEventRow)
    → AllAfter c rows
    → keep (after c) rows ≡ rows
keep_all c [] a = refl
keep_all c (r ∷ rows) a = rw (a.0) (ap (λ l. r ∷ l) (keep_all c rows a.1))

-- What comes after the last of the first `n` rows is the rest.
pub keep-drop :
    (n : ℕ) (c : Option Cursor) (rows : List ActivityEventRow)
    → Ascending c rows
    → keep (after (next_cursor c (take n rows))) rows ≡ drop n rows
keep-drop zero c rows a = keep_all c rows (Ascending-AllAfter c rows a)
keep-drop (suc n) c [] a = refl
keep-drop (suc n) c (r ∷ rows) a =
    rw (not_after_next n r r rows (ground arith) a.1)
      (keep-drop n (some (cursor_from_row r)) rows a.1)

after_next :
    (c : Option Cursor) (xs : List ActivityEventRow) (q : ActivityEventRow)
    → Ascending c xs
    → after (next_cursor c xs) q ≡ true
    → after c q ≡ true
after_next c [] q a e = e
after_next c (x ∷ xs) q a e =
    after_trans c x q a.0 (after_next (some (cursor_from_row x)) xs q a.1 e)

keep-keep :
    (c d : Option Cursor) (rows : List ActivityEventRow)
    → ((q : ActivityEventRow) → after d q ≡ true → after c q ≡ true)
    → keep (after d) (keep (after c) rows) ≡ keep (after d) rows
keep-keep c d [] h = refl
keep-keep c d (r ∷ rows) h = ground (arith, h r, keep-keep c d rows h)

pub keep-none : (rows : List ActivityEventRow) → keep (after none) rows ≡ rows
keep-none [] = refl
keep-none (r ∷ rows) = ap (λ l. r ∷ l) (keep-none rows)

module _ (t : List ActivityEventRow) (distinct : NoTwins t) (limit : ℕ) where
  abbrev rest : Option Cursor → List ActivityEventRow
  rest c = keep (after c) (order_by t)

  rest-Ascending : (c : Option Cursor) → Ascending c (rest c)
  rest-Ascending c = rw⁻¹ (order_by-keep c t) (
      order_by-Ascending c (keep (after c) t) (keep-NoTwins (after c) t distinct)
        (keep-AllAfter c t))

  page_rest : (c : Option Cursor) → run_keyset_page t c limit ≡ take limit (rest c)
  unfolding run_keyset_page
  page_rest c = ap (take limit) (order_by-keep c t)

  next_rest : (c : Option Cursor) → rest (next_cursor c (take limit (rest c))) ≡ drop limit (rest c)
  next_rest c =
      let page = take limit (rest c) in
      sym (
        keep-keep c (next_cursor c page) (order_by t)
          (λ q e. after_next c page q (take-Ascending limit c (rest c) (rest-Ascending c)) e))
      ∙ keep-drop limit c (rest c) (rest-Ascending c)

  walk-rest : (k : ℕ) (c : Option Cursor) → walk (replicate k t) limit c ≡ take (k * limit) (rest c)
  walk-rest zero c = let n : 0 * limit ≡ 0 = omega arith in rw n refl
  walk-rest (suc k) c =
      let n : suc k * limit ≡ limit + k * limit = omega arith in
      rw (page_rest c) (
        rw (walk-rest k (next_cursor c (take limit (rest c))))
          (rw (next_rest c) (rw n (take-drop limit (k * limit) (rest c)))))

-- `k` pages of `limit` rows by cursor over a table in which no two rows have one key are the first
-- `k * limit` rows of the whole table in order: no row is missing, and none comes twice.
pub walk-order_by :
    (t : List ActivityEventRow) (limit k : ℕ)
    → NoTwins t
    → walk (replicate k t) limit none ≡ take (k * limit) (order_by t)
walk-order_by t limit k distinct =
    walk-rest t distinct limit k none ∙ ap (take (k * limit)) (keep-none (order_by t))

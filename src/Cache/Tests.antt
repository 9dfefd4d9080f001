-- ===== src/Cache/Tests.antt =====
-- Runs of the coalescing cache.
use systems_engineering_lab.Prelude.{◌+◌, ◌≤◌, ◌≡◌, refl, true, some, none}
use systems_engineering_lab.Cache.{
  CoalescingCache, initial, get_product, after_get, after_fetch, after_set,
}
use systems_engineering_lab.Cache.Steps.{
  calling, getting, fetching_ends, setting, key_changes, Reach, start, after_step,
}
use systems_engineering_lab.Cache.Stampede.{total, asking, settled, Reach-one_query}

-- Three callers come before the database answers; the key expires, and a fourth comes.
abbrev storm : CoalescingCache
storm =
    (get_product
      (record (after_set 0 true (
        after_fetch 0 (some 5)
          (get_product (after_get 0 true (get_product (get_product initial).1).1)).1)) {
            cached = none;
          })).1

abbrev storm_reached : Reach storm
storm_reached =
    after_step
      (after_step
        (after_step
          (after_step
            (after_step
              (after_step (after_step (after_step start calling) calling) (getting 0 true)) calling)
            (fetching_ends 0 (some 5)))
          (setting 0 true))
        (key_changes none))
      calling

one_query : (storm.call_count ≡ 1) × (storm.in_flight ≡ some 1)
unfolding get_product after_get after_fetch after_set
one_query = (refl, refl)

Reach-one_query_example :
    (total asking storm.promises ≤ 1) × (storm.call_count ≤ total settled storm.promises + 1)
Reach-one_query_example = Reach-one_query storm_reached

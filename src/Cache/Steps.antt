-- ===== src/Cache/Steps.antt =====
-- Any order of calls, replies, and changes of the key by others or by its expiry.
use systems_engineering_lab.Prelude.{ℕ, Bool, Option}
use systems_engineering_lab.Cache.{
  CoalescingCache, initial, get_product, after_get, after_fetch, after_set,
}

pub data Step (c : CoalescingCache) : CoalescingCache → Type 0 where
  calling : Step c (get_product c).1
  getting : (promise : ℕ) (redis_replies : Bool) → Step c (after_get promise redis_replies c)
  fetching_ends : (promise : ℕ) (product : Option ℕ) → Step c (after_fetch promise product c)
  setting : (promise : ℕ) (redis_replies : Bool) → Step c (after_set promise redis_replies c)
  key_changes : (value : Option ℕ) → Step c (record c { cached = value })

pub data Reach : CoalescingCache → Type 0 where
  start : Reach initial
  after_step : {c d : CoalescingCache} → Reach c → Step c d → Reach d

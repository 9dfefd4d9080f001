-- ===== src/Cache.antt =====
-- `createCoalescingCache` of labs/21-cache-aside-and-cache-stampede/src/cache/request-coalescing.ts,
-- for one product. `getProduct` is split at its awaits: the promise that a call creates awaits the
-- reply of GET, then the database, then the reply of SET, and the other calls join it. The database,
-- Redis and the order in which they reply are not the code's: each reply is a step of its own, and
-- what it says is an argument.
pub mod Steps
pub mod Stampede
mod Tests
use systems_engineering_lab.Prelude.{
  ℕ, zero, suc, ◌+◌, Bool, true, false, Option, none, some, List, [], ◌∷◌,
}
use systems_engineering_lab.Prelude.Table.{Table, lookup, modify}

-- What a promise awaits, or how it has settled.
pub data Phase : Type 0 where
  reading : Phase
  fetching : Phase
  writing : ℕ → Phase
  resolved : ℕ → Phase
  thrown : Phase

pub record CoalescingCache : Type 0 where
  -- the promise that `inFlight` has under the product's key
  pub in_flight : Option ℕ
  pub promises : Table Phase
  pub next_promise : ℕ
  -- what Redis has under the key
  pub cached : Option ℕ
  -- `callCount` of the product reader
  pub call_count : ℕ

abbrev pub initial : CoalescingCache
initial = record {
  in_flight = none;
  promises = [];
  next_promise = 0;
  cached = none;
  call_count = 0;
}

abbrev joined : Option ℕ → CoalescingCache → ℕ × CoalescingCache
joined (some promise) c = (promise, c)
joined none c = (
  c.next_promise,
  record c {
    in_flight = some c.next_promise;
    promises = (c.next_promise, reading) ∷ c.promises;
    next_promise = suc c.next_promise;
  },
)

-- A call up to its first await: the promise that it awaits.
unfoldable pub get_product : CoalescingCache → ℕ × CoalescingCache
get_product c = joined c.in_flight c

abbrev pub goes_on : ℕ → Phase → CoalescingCache → CoalescingCache
goes_on promise phase c = record c { promises = modify promise (λ p. phase) c.promises }

-- The promise settles, and the call that created it deletes the key from `inFlight`.
abbrev pub settles : ℕ → Phase → CoalescingCache → CoalescingCache
settles promise phase c = record (goes_on promise phase c) { in_flight = none }

-- What the reply of GET is, or that the command has failed.
pub data Reply : Type 0 where
  reply : Option ℕ → Reply
  failure : Reply

abbrev pub got : ℕ → Reply → CoalescingCache → CoalescingCache
got promise failure c = settles promise thrown c
got promise (reply (some product)) c = settles promise (resolved product) c
got promise (reply none) c = record (goes_on promise fetching c) { call_count = c.call_count + 1 }

abbrev pub fetched : ℕ → Option ℕ → CoalescingCache → CoalescingCache
fetched promise none c = settles promise thrown c
fetched promise (some product) c = goes_on promise (writing product) c

abbrev pub stored : ℕ → ℕ → Bool → CoalescingCache → CoalescingCache
stored promise product true c = record (settles promise (resolved product) c) {
  cached = some product;
}
stored promise product false c = settles promise thrown c

-- GET has replied; a promise that does not await it has no such continuation.
abbrev pub after_get_in : ℕ → Reply → CoalescingCache → Option Phase → CoalescingCache
after_get_in promise r c (some reading) = got promise r c
after_get_in promise r c _ = c

unfoldable pub after_get : ℕ → Bool → CoalescingCache → CoalescingCache
after_get promise redis_replies c =
    after_get_in promise (elim redis_replies [ true ↦ reply c.cached | false ↦ failure ]) c
      (lookup promise c.promises)

abbrev pub after_fetch_in : ℕ → Option ℕ → CoalescingCache → Option Phase → CoalescingCache
after_fetch_in promise product c (some fetching) = fetched promise product c
after_fetch_in promise product c _ = c

-- The database has answered with a product, or the query has thrown.
unfoldable pub after_fetch : ℕ → Option ℕ → CoalescingCache → CoalescingCache
after_fetch promise product c = after_fetch_in promise product c (lookup promise c.promises)

abbrev pub after_set_in : ℕ → Bool → CoalescingCache → Option Phase → CoalescingCache
after_set_in promise redis_replies c (some (writing product)) =
    stored promise product redis_replies c
after_set_in promise redis_replies c _ = c

-- SET … EX has replied, or has failed.
unfoldable pub after_set : ℕ → Bool → CoalescingCache → CoalescingCache
after_set promise redis_replies c = after_set_in promise redis_replies c (lookup promise c.promises)

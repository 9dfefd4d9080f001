-- ===== src/Capstone/Retries.antt =====
-- A checkout that is sent again: checkout/checkout-idempotent.ts and checkout/checkout-naive.ts of
-- labs/40-production-capstone/src.
use systems_engineering_lab.Prelude.{ℕ, ◌≡◌, some}
use systems_engineering_lab.Prelude.Table.{Table}
use systems_engineering_lab.Capstone.{Db}
use systems_engineering_lab.Capstone.Checkout.{find_order}
use systems_engineering_lab.Capstone.Steps.{Steps}

module _ (key id : ℕ) where
  abbrev Ordered : Db → Type 0
  Ordered db = find_order key db.orders ≡ some id

-- ===== src/Inbox/Tests.antt =====
-- Redelivered credits at concrete accounts.
use systems_engineering_lab.Prelude.{ℕ, ◌≡◌, refl, some, [], ◌∷◌, List}
use systems_engineering_lab.Prelude.Table.{lookup}
use systems_engineering_lab.Inbox.{CreditAppliedMessage, Tables, apply_idempotent, apply_naive}
use systems_engineering_lab.Inbox.Credits.{Messages, apply_all}

abbrev credit : ℕ → ℕ → ℕ → CreditAppliedMessage
credit id account amount = record { message_id = id; account_id = account; amount_cents = amount }

abbrev start : Tables
start = record { accounts = (1, 500) ∷ (2, 0) ∷ []; processed_messages = 90 ∷ [] }

abbrev messages : Messages
messages = (11, credit 11 1 4000) ∷ (12, credit 12 2 250) ∷ (13, credit 13 1 30) ∷ []

abbrev deliveries : List CreditAppliedMessage
deliveries =
    credit 12 2 250
    ∷ credit 11 1 4000
    ∷ credit 11 1 4000
    ∷ credit 13 1 30
    ∷ credit 12 2 250
    ∷ credit 11 1 4000
    ∷ []

credits_both : (apply_all deliveries start).accounts ≡ (1, 4530) ∷ (2, 250) ∷ []
unfolding apply_idempotent
credits_both = refl

naive_credits_twice :
    lookup 1 (apply_naive (credit 11 1 4000) (apply_naive (credit 11 1 4000) start)).accounts
    ≡ some 8500
unfolding apply_naive
naive_credits_twice = refl

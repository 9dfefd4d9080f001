-- ===== src/Inbox/Credits.antt =====
-- What the idempotent consumer makes of messages that arrive in any order and any number of times.
use systems_engineering_lab.Prelude.{
  ℕ, ◌+◌, ◌<◌, ◌≡◌, Bool, true, false, some, List, [], ◌∷◌, ◌==◌, if◌then◌else◌,
}
use systems_engineering_lab.Prelude.Table.{Table, lookup, has}
use systems_engineering_lab.Prelude.Unique.{contains}
use systems_engineering_lab.Inbox.{CreditAppliedMessage, Tables, apply_idempotent}

-- The messages, each under its number.
abbrev pub Messages : Type 0
Messages = Table CreditAppliedMessage

-- What those messages are worth to account `a` whose number passes a test.
abbrev pub worth : ℕ → (ℕ → Bool) → Messages → ℕ
worth a p [] = 0
worth a p ((id, m) ∷ ds) =
    (if p id then if m.account_id == a then m.amount_cents else 0 else 0) + worth a p ds

abbrev pub total : ℕ → Messages → ℕ
total a ds = worth a (λ id. true) ds

abbrev pub apply_all : List CreditAppliedMessage → Tables → Tables
apply_all [] t = t
apply_all (m ∷ ms) t = apply_all ms (apply_idempotent m t).1

-- Each delivery is of one of the messages, has a positive amount, and its account is there.
abbrev pub Deliverable : Messages → Table ℕ → List CreditAppliedMessage → Type 0
Deliverable ds accounts [] = Unit
Deliverable ds accounts (m ∷ ms) =
    (lookup m.message_id ds ≡ some m)
    × (0 < m.amount_cents)
    × (has m.account_id accounts ≡ true)
    × Deliverable ds accounts ms

-- Whether a message is among the deliveries.
abbrev pub arrived : ℕ → List CreditAppliedMessage → Bool
arrived id [] = false
arrived id (m ∷ ms) = if m.message_id == id then true else arrived id ms

abbrev pub AllArrived : Messages → List CreditAppliedMessage → Type 0
AllArrived [] ms = Unit
AllArrived ((id, m) ∷ ds) ms = (arrived id ms ≡ true) × AllArrived ds ms

abbrev pub AllNew : Messages → List ℕ → Type 0
AllNew [] ids = Unit
AllNew ((id, m) ∷ ds) ids = (contains ids id ≡ false) × AllNew ds ids

-- The balance of `a` is `base` and what the processed messages are worth.
abbrev Balanced : Messages → ℕ → ℕ → Tables → Type 0
Balanced ds a base t =
    lookup a t.accounts ≡ some (base + worth a (contains t.processed_messages) ds)

-- What one delivery of `m` to `t` leaves, by the balance of account `a`.
record Applied (ds : Messages) (a base : ℕ) (m : CreditAppliedMessage) (t u : Tables) : Type 0 where
  balanced : Balanced ds a base u
  same_accounts : (id : ℕ) → has id u.accounts ≡ has id t.accounts
  processed :
      (id : ℕ)
      → contains u.processed_messages id
        ≡ (if m.message_id == id then true else contains t.processed_messages id)

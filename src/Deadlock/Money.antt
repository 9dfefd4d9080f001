-- ===== src/Deadlock/Money.antt =====
-- Transfers make and lose no money: labs/32-deadlocks-and-lock-debugging/src/lib/transfer.ts.
use systems_engineering_lab.Prelude.{
  ℕ, ◌+◌, ◌-◌, ◌≡◌, refl, true, Option, none, some, [], ◌∷◌, arith, ltb, Bool-cases, inl, inr, ◌∙◌,
}
use systems_engineering_lab.Prelude.Table.{Table, lookup, modify, has, is_there, has-modify}
use systems_engineering_lab.Deadlock.{
  LegPlan, deadlock_aborted, committed, failed, Phase, at_barrier, first_locked, both_locked, ended,
  Leg, System, with_phase, max_int4, debited, credited, after_debit, apply_transfer,
}
use systems_engineering_lab.Deadlock.Steps.{
  settle, Step, locking_first, meeting, locking_second, finishing, aborting, Steps, start,
  after_step,
}
use systems_engineering_lab.Deadlock.Exclusive.{Each, modify-Each}
use systems_engineering_lab.Deadlock.Invariant.{apply_transfer-has}

abbrev pub total : Table ℕ → ℕ
total [] = 0
total ((id, balance) ∷ t) = balance + total t

total-modify :
    (id v : ℕ) (f : ℕ → ℕ) (t : Table ℕ)
    → lookup id t ≡ some v
    → total (modify id f t) + v ≡ total t + f v
total-modify id v f [] e = cc
total-modify id v f ((j, w) ∷ t) e = ground (arith, e, total-modify id v f t)

debited-total :
    (amount id : ℕ) (t t' : Table ℕ) (o : Option ℕ)
    → lookup id t ≡ o
    → is_there o ≡ true
    → debited amount id t o ≡ some t'
    → total t' + amount ≡ total t
debited-total amount id t t' none e h d = cc
debited-total amount id t t' (some v) e h d =
    ground (arith, d, total-modify id v (λ x. x - amount) t e)

credited-total :
    (amount id : ℕ) (t t' : Table ℕ) (o : Option ℕ)
    → lookup id t ≡ o
    → is_there o ≡ true
    → credited amount id t o ≡ some t'
    → total t' ≡ total t + amount
credited-total amount id t t' none e h d = cc
credited-total amount id t t' (some v) e h d =
    ground (arith, d, total-modify id v (λ x. x + amount) t e)

debited-keeps :
    (amount id j : ℕ) (t t' : Table ℕ) (o : Option ℕ)
    → debited amount id t o ≡ some t'
    → has j t' ≡ has j t
debited-keeps amount id j t t' none d = cc
debited-keeps amount id j t t' (some v) d = ground (arith, d, has-modify id j (λ x. x - amount) t)

after_debit-total :
    (p : LegPlan) (t t' : Table ℕ) (o : Option (Table ℕ))
    → debited p.amount_cents p.from_account_id t (lookup p.from_account_id t) ≡ o
    → has p.from_account_id t ≡ true
    → has p.to_account_id t ≡ true
    → after_debit p o ≡ some t'
    → total t' ≡ total t
after_debit-total p t t' none d hf ht e = cc
after_debit-total p t t' (some u) d hf ht e =
    let less =
      debited-total p.amount_cents p.from_account_id t u (lookup p.from_account_id t) refl hf d in
    let more =
      credited-total p.amount_cents p.to_account_id u t' (lookup p.to_account_id u) refl
        (debited-keeps p.amount_cents p.from_account_id p.to_account_id t u
            (lookup p.from_account_id t) d
          ∙ ht)
        e in
    omega (arith, less, more)

-- Between two accounts that are there, a transfer that does not throw keeps the sum.
pub apply_transfer-total :
    (p : LegPlan) (t t' : Table ℕ)
    → has p.from_account_id t ≡ true
    → has p.to_account_id t ≡ true
    → apply_transfer p t ≡ some t'
    → total t' ≡ total t
unfolding apply_transfer
apply_transfer-total p t t' hf ht e = elim (Bool-cases (ltb max_int4 p.amount_cents)) [
  | inl wide ↦ absurd (ground (arith, wide, e))
  | inr fits ↦
      after_debit-total p t t'
        (debited p.amount_cents p.from_account_id t (lookup p.from_account_id t)) refl hf ht
        (rw fits at e)
]

-- The accounts of every leg are there.
abbrev pub AccountsThere : Table Leg → Table ℕ → Type 0
AccountsThere legs t =
    Each (λ l. (has l.plan.from_account_id t ≡ true) × (has l.plan.to_account_id t ≡ true)) legs

abbrev Kept : System → System → Type 0
Kept s t = AccountsThere t.legs t.accounts × (total t.accounts ≡ total s.accounts)

phase-AccountsThere :
    (k : ℕ) (p : Phase) (s : System)
    → AccountsThere s.legs s.accounts
    → AccountsThere (modify k (with_phase p) s.legs) s.accounts
phase-AccountsThere k p s h =
    modify-Each
      (λ l.
        (has l.plan.from_account_id s.accounts ≡ true)
        × (has l.plan.to_account_id s.accounts ≡ true))
      k p s.legs (λ l e q. q) h

settle-Kept :
    (k : ℕ) (l : Leg) (s : System) (o : Option (Table ℕ))
    → lookup k s.legs ≡ some l
    → apply_transfer l.plan s.accounts ≡ o
    → AccountsThere s.legs s.accounts
    → Kept s (settle k o s)
settle-Kept k l s none e d h = (phase-AccountsThere k (ended failed) s h, refl)
settle-Kept k l s (some t) e d h =
    let next = phase-AccountsThere k (ended committed) s h in
    (
      λ b m eb. (
        apply_transfer-has l.plan m.plan.from_account_id s.accounts t d ∙ (next b m eb).0,
        apply_transfer-has l.plan m.plan.to_account_id s.accounts t d ∙ (next b m eb).1,
      ),
      apply_transfer-total l.plan s.accounts t (h k l e).0 (h k l e).1 d,
    )

Step-Kept : {s t : System} → Step s t → AccountsThere s.legs s.accounts → Kept s t
unfolding apply_transfer
Step-Kept {s} (locking_first k l e b u) h = elim (Bool-cases l.has_rendezvous) [
  | inl meets ↦ rw meets (phase-AccountsThere k at_barrier s h, refl)
  | inr alone ↦ rw alone (phase-AccountsThere k first_locked s h, refl)
]
Step-Kept {s} (meeting k l e b c) h = (phase-AccountsThere k first_locked s h, refl)
Step-Kept {s} (locking_second k l e b u) h = (phase-AccountsThere k both_locked s h, refl)
Step-Kept {s} (finishing k l e b) h = settle-Kept k l s (apply_transfer l.plan s.accounts) e refl h
Step-Kept {s} (aborting k c) h = (phase-AccountsThere k (ended deadlock_aborted) s h, refl)

Steps-Kept : {s t : System} → Steps s t → AccountsThere s.legs s.accounts → Kept s t
Steps-Kept start h = (h, refl)
Steps-Kept (after_step before step) h =
    let k = Steps-Kept before h in let last = Step-Kept step k.0 in (last.0, last.1 ∙ k.1)

-- However transfers between accounts that are there lock their rows, wait, are aborted, fail or
-- commit, in any order of their statements: the sum of the balances stays as it was.
pub transfers_keep_total :
    {s t : System}
    → AccountsThere s.legs s.accounts
    → Steps s t
    → total t.accounts ≡ total s.accounts
transfers_keep_total h steps = (Steps-Kept steps h).1

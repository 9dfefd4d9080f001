-- ===== src/Deadlock/Invariant.antt =====
-- The steps of the legs keep the locks exclusive: labs/32-deadlocks-and-lock-debugging/src/lib/transfer.ts.
use systems_engineering_lab.Prelude.{
  ℕ, ◌+◌, ◌-◌, ◌≡◌, refl, true, false, Option, none, some, arith, ◌==◌, Bool-cases, inl, inr, sym,
  ◌∙◌, ==→eq, subst,
}
use systems_engineering_lab.Prelude.Table.{Table, lookup, modify, modify-Distinct, has, has-modify}
use systems_engineering_lab.Deadlock.{
  Status, committed, deadlock_aborted, failed, Phase, begun, at_barrier, first_locked, both_locked,
  ended, Leg, LegPlan, System, is_blocked, with_phase, debited, credited, after_debit,
  apply_transfer,
}
use systems_engineering_lab.Deadlock.Steps.{
  to_phase, take_first, settle, Step, locking_first, meeting, locking_second, finishing, aborting,
}
use systems_engineering_lab.Deadlock.Exclusive.{Inv, looked_up, TakesFree, modify-Exclusive}

-- What the updates do not change is which rows there are.
pub debited-has :
    (amount k id : ℕ) (t t' : Table ℕ) (o : Option ℕ)
    → debited amount k t o ≡ some t'
    → has id t' ≡ has id t
debited-has amount k id t t' none h = cc
debited-has amount k id t t' (some v) h = ground (arith, h, has-modify k id (λ x. x - amount) t)

pub credited-has :
    (amount k id : ℕ) (t t' : Table ℕ) (o : Option ℕ)
    → credited amount k t o ≡ some t'
    → has id t' ≡ has id t
credited-has amount k id t t' none h = cc
credited-has amount k id t t' (some v) h = ground (arith, h, has-modify k id (λ x. x + amount) t)

pub after_debit-has :
    (p : LegPlan) (id : ℕ) (t t' : Table ℕ) (o : Option (Table ℕ))
    → ((u : Table ℕ) → o ≡ some u → has id u ≡ has id t)
    → after_debit p o ≡ some t'
    → has id t' ≡ has id t
after_debit-has p id t t' none h e = cc
after_debit-has p id t t' (some u) h e =
    credited-has p.amount_cents p.to_account_id id u t' (lookup p.to_account_id u) e ∙ h u refl

pub apply_transfer-has :
    (p : LegPlan) (id : ℕ) (t t' : Table ℕ) → apply_transfer p t ≡ some t' → has id t' ≡ has id t
unfolding apply_transfer
apply_transfer-has p id t t' h =
    let o = debited p.amount_cents p.from_account_id t (lookup p.from_account_id t) in
    ground (
      arith,
      h,
      after_debit-has p id t t' o (λ u e.
          debited-has p.amount_cents p.from_account_id id t u (lookup p.from_account_id t) e),
    )

first_free :
    (id : ℕ) (k : ℕ) (l : Leg) (s : System)
    → is_blocked k l.plan.first_lock_id s ≡ false
    → (l.plan.first_lock_id == id) ≡ true
    → is_blocked k id s ≡ false
first_free id k l s u e = subst (λ x. is_blocked k x s ≡ false) (==→eq l.plan.first_lock_id id e) u

second_free :
    (id : ℕ) (k : ℕ) (l : Leg) (s : System)
    → is_blocked k l.plan.second_lock_id s ≡ false
    → (l.plan.second_lock_id == id) ≡ true
    → is_blocked k id s ≡ false
second_free id k l s u e =
    subst (λ x. is_blocked k x s ≡ false) (==→eq l.plan.second_lock_id id e) u

changed :
    (k : ℕ) (p : Phase) (l : Leg) (s : System) (there : lookup k s.legs ≡ some l)
    → TakesFree k p l s there
    → Inv s
    → Inv (to_phase k p s)
changed k p l s there free inv = record {
  distinct = modify-Distinct k (with_phase p) s.legs inv.distinct;
  exclusive = modify-Exclusive k p l s there free inv.exclusive;
}

-- Ending takes no lock; no leg at all has one if the leg is not there.
ended-Inv :
    (k : ℕ) (status : Status) (s : System) (o : Option Leg)
    → lookup k s.legs ≡ o
    → Inv s
    → Inv (to_phase k (ended status) s)
unfolding TakesFree
ended-Inv k status s (some l) e inv = changed k (ended status) l s e (λ id h. cc) inv
ended-Inv k status s none e inv = record {
  distinct = modify-Distinct k (with_phase (ended status)) s.legs inv.distinct;
  exclusive = λ a b id la lb ea eb ha hb r.
      inv.exclusive a b id la lb (missed a la ea) (missed b lb eb) ha hb r;
}
  where
    missed :
        (b : ℕ) (lb : Leg)
        → lookup b (modify k (with_phase (ended status)) s.legs) ≡ some lb
        → lookup b s.legs ≡ some lb
    missed b lb h = elim (looked_up k b (ended status) lb s.legs h) [
      | inl (kb, (l0, e0, f0)) ↦ cc
      | inr (nb, e0) ↦ e0
    ]

settle-Inv :
    (k : ℕ) (l : Leg) (s : System) (o : Option (Table ℕ))
    → lookup k s.legs ≡ some l
    → apply_transfer l.plan s.accounts ≡ o
    → Inv s
    → Inv (settle k o s)
settle-Inv k l s none e h inv = ended-Inv k failed s (some l) e inv
settle-Inv k l s (some t) e h inv =
    let next = ended-Inv k committed s (some l) e inv in
    record {
      distinct = next.distinct;
      exclusive = λ a b id la lb ea eb ha hb r.
          next.exclusive a b id la lb ea eb ha hb
            (sym (apply_transfer-has l.plan id s.accounts t h) ∙ r);
    }

take_first-Inv :
    (k : ℕ) (l : Leg) (s : System)
    → lookup k s.legs ≡ some l
    → l.phase ≡ begun
    → is_blocked k l.plan.first_lock_id s ≡ false
    → Inv s
    → Inv (take_first k l s)
unfolding TakesFree
take_first-Inv k l s e b u inv = elim (Bool-cases l.has_rendezvous) [
  | inl meets ↦
      let next =
        changed k at_barrier l s e (λ id h. inr (first_free id k l s u (ground (arith, h)))) inv in
      rw meets (record { distinct = next.distinct; exclusive = next.exclusive })
  | inr alone ↦
      rw alone
        (changed k first_locked l s e (λ id h. inr (first_free id k l s u (ground (arith, h)))) inv)
]

pub Step-Inv : {s t : System} → Step s t → Inv s → Inv t
unfolding TakesFree apply_transfer
Step-Inv {s} (locking_first k l e b u) inv = take_first-Inv k l s e b u inv
Step-Inv {s} (meeting k l e b c) inv =
    changed k first_locked l s e (λ id h. inl (ground (arith, b, h))) inv
Step-Inv {s} (locking_second k l e b u) inv =
    changed k both_locked l s e
      (λ id h. elim (Bool-cases (l.plan.second_lock_id == id)) [
        | inl here ↦ inr (second_free id k l s u here)
        | inr there ↦ inl (ground (arith, b, h, there))
      ])
      inv
Step-Inv {s} (finishing k l e b) inv =
    settle-Inv k l s (apply_transfer l.plan s.accounts) e refl inv
Step-Inv {s} (aborting k c) inv = ended-Inv k deadlock_aborted s (lookup k s.legs) refl inv

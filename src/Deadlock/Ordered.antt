-- ===== src/Deadlock/Ordered.antt =====
-- Legs that lock the lower account first never wait in a cycle:
-- labs/32-deadlocks-and-lock-debugging/src/lib/transfer.ts.
use systems_engineering_lab.Prelude.{
  ℕ, ◌≤◌, ◌<◌, ◌≡◌, refl, true, false, Option, none, some, arith, ◌==◌, Bool-cases, inl, inr, sym,
  ◌∙◌, ap, ==→eq, subst, min, max,
}
use systems_engineering_lab.Prelude.Table.{Table, modify, Distinct}
use systems_engineering_lab.Deadlock.{
  LockOrderStrategy, consistent_lock_order, plan_leg, deadlock_aborted, committed, failed, Phase,
  begun, at_barrier, first_locked, both_locked, ended, Leg, System, holds, wanted, with_phase,
  apply_transfer,
}
use systems_engineering_lab.Deadlock.Steps.{
  WaitsOn, Chain, edge, longer, settle, Step, locking_first, meeting, locking_second, finishing,
  aborting, Steps, start, after_step,
}
use systems_engineering_lab.Deadlock.Exclusive.{Inv, Each, modify-Each}
use systems_engineering_lab.Deadlock.Invariant.{Step-Inv}

-- Every leg asks for the lower of its two locks first.
abbrev pub LowerFirst : Table Leg → Type 0
LowerFirst = Each (λ l. l.plan.first_lock_id ≤ l.plan.second_lock_id)

modify-LowerFirst :
    (k : ℕ) (p : Phase) (t : Table Leg) → LowerFirst t → LowerFirst (modify k (with_phase p) t)
modify-LowerFirst k p t h =
    modify-Each (λ l. l.plan.first_lock_id ≤ l.plan.second_lock_id) k p t (λ l e q. q) h

settle-LowerFirst :
    (k : ℕ) (s : System) (o : Option (Table ℕ)) → LowerFirst s.legs → LowerFirst (settle k o s).legs
settle-LowerFirst k s none h = modify-LowerFirst k (ended failed) s.legs h
settle-LowerFirst k s (some t) h = modify-LowerFirst k (ended committed) s.legs h

pub Step-LowerFirst : {s t : System} → Step s t → LowerFirst s.legs → LowerFirst t.legs
unfolding apply_transfer
Step-LowerFirst {s} (locking_first k l e b u) h = elim (Bool-cases l.has_rendezvous) [
  | inl meets ↦ rw meets (modify-LowerFirst k at_barrier s.legs h)
  | inr alone ↦ rw alone (modify-LowerFirst k first_locked s.legs h)
]
Step-LowerFirst {s} (meeting k l e b c) h = modify-LowerFirst k first_locked s.legs h
Step-LowerFirst {s} (locking_second k l e b u) h = modify-LowerFirst k both_locked s.legs h
Step-LowerFirst {s} (finishing k l e b) h =
    settle-LowerFirst k s (apply_transfer l.plan s.accounts) h
Step-LowerFirst {s} (aborting k c) h = modify-LowerFirst k (ended deadlock_aborted) s.legs h

-- A leg that has one lock and asks for one has its first and asks for its second.
holds_and_wants :
    (x y : ℕ) (l : Leg) (p : Phase)
    → l.phase ≡ p
    → holds x l ≡ true
    → wanted l ≡ some y
    → (l.plan.first_lock_id ≡ x) × (l.plan.second_lock_id ≡ y) × (l.phase ≡ first_locked)
holds_and_wants x y l begun e h w = absurd (ground (arith, e, h))
holds_and_wants x y l at_barrier e h w = absurd (ground (arith, e, w))
holds_and_wants x y l first_locked e h w = ground (arith, e, h, w)
holds_and_wants x y l both_locked e h w = absurd (ground (arith, e, w))
holds_and_wants x y l (ended status) e h w = absurd (ground (arith, e, h))

module _ (s : System) (inv : Inv s) (lower : LowerFirst s.legs) where
  -- Who is waited for waits for a higher lock itself.
  pub waits_higher : {a b c : ℕ} (w : WaitsOn s a b) (v : WaitsOn s b c) → w.lock < v.lock
  waits_higher {a} {b} {c} w v =
      let one : some v.waiter ≡ some w.holder = sym v.waits ∙ w.blocks in
      let leg : v.waiter ≡ w.holder = cc (one) in
      let has_both =
        holds_and_wants w.lock v.lock v.waiter v.waiter.phase refl
          (subst (λ l. holds w.lock l ≡ true) (sym leg) w.has_it) v.wants in
      let apart : (w.lock == v.lock) ≡ false = elim (Bool-cases (w.lock == v.lock)) [
        | inr differ ↦ differ
        | inl same ↦ absurd (
            ground (
              arith,
              v.other,
              inv.exclusive b c v.lock w.holder v.holder w.blocks v.blocks
                  (subst (λ x. holds x w.holder ≡ true) (==→eq w.lock v.lock same) w.has_it)
                  v.has_it v.exists,
            ))
      ] in
      ground (arith, apart, has_both.0, has_both.1, lower b v.waiter v.waits)

  waits_one : {a b c : ℕ} (w : WaitsOn s a b) (v : WaitsOn s a c) → w.lock ≡ v.lock
  waits_one {a} {b} {c} w v =
      let one : some w.waiter ≡ some v.waiter = sym w.waits ∙ v.waits in
      let leg : w.waiter ≡ v.waiter = cc (one) in
      let asks : some w.lock ≡ some v.lock = sym w.wants ∙ ap wanted leg ∙ v.wants in cc (asks)

  -- Along a chain the locks that are asked for rise.
  locks_rise :
      {a b c d : ℕ} (w : WaitsOn s a b) → Chain s a c → (v : WaitsOn s c d) → w.lock < v.lock
  locks_rise w (edge u) v = omega (arith, waits_one w u, waits_higher u v)
  locks_rise {a} {b} {c} {d} w (longer u rest) v = omega (arith, waits_one w u, after u rest v)
    where
      after :
          {a b c d : ℕ} (u : WaitsOn s a b) → Chain s b c → (v : WaitsOn s c d) → u.lock < v.lock
      after u (edge x) v = omega (arith, waits_higher u x, waits_higher x v)
      after u (longer x more) v = omega (arith, waits_higher u x, after x more v)

  pub no_cycle : {a : ℕ} → Chain s a a → ⊥
  no_cycle (edge w) = omega (arith, waits_higher w w)
  no_cycle (longer w rest) = omega (arith, locks_rise w (longer w rest) w)

-- Transactions that have begun nothing yet, each with the locks of a transfer in this order.
pub record Started (strategy : LockOrderStrategy) (s : System) : Type 0 where
  pub apart : Distinct s.legs
  pub new : Each (λ l. l.phase ≡ begun) s.legs
  pub planned :
      Each
        (λ l.
          l.plan
          ≡ plan_leg strategy l.plan.from_account_id l.plan.to_account_id l.plan.amount_cents)
        s.legs

pub Started-Inv : (strategy : LockOrderStrategy) (s : System) → Started strategy s → Inv s
Started-Inv strategy s h = record {
  distinct = h.apart;
  exclusive = λ a b id la lb ea eb ha hb r. absurd (ground (arith, ha, h.new a la ea));
}

pub Started-LowerFirst : (s : System) → Started consistent_lock_order s → LowerFirst s.legs
unfolding plan_leg
Started-LowerFirst s h k l e =
    let p = h.planned k l e in
    subst (λ x. x.first_lock_id ≤ x.second_lock_id) (sym p)
      (min_le_max l.plan.from_account_id l.plan.to_account_id)
  where
    min_le_max : (a b : ℕ) → min a b ≤ max a b
    min_le_max a b = omega arith

pub Steps-Inv : {s t : System} → Steps s t → Inv s → Inv t
Steps-Inv start inv = inv
Steps-Inv (after_step before step) inv = Step-Inv step (Steps-Inv before inv)

pub Steps-LowerFirst : {s t : System} → Steps s t → LowerFirst s.legs → LowerFirst t.legs
Steps-LowerFirst start h = h
Steps-LowerFirst (after_step before step) h = Step-LowerFirst step (Steps-LowerFirst before h)

-- Any number of transfers that each lock the lower of their accounts first, from where none has
-- begun, however their statements come between each other, with or without a barrier: no transaction
-- ever waits, through the locks of any others, for itself.
pub consistent_order_has_no_cycle :
    {s t : System} → Started consistent_lock_order s → Steps s t → (k : ℕ) → ¬ Chain t k k
consistent_order_has_no_cycle {s} {t} h steps k =
    no_cycle t (Steps-Inv steps (Started-Inv consistent_lock_order s h))
      (Steps-LowerFirst steps (Started-LowerFirst s h))

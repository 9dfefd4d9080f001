-- ===== src/Deadlock/Progress.antt =====
-- Legs that lock the lower account first all end:
-- labs/32-deadlocks-and-lock-debugging/src/lib/transfer.ts and scenarios/consistent-lock-ordering.ts.
use systems_engineering_lab.Prelude.{
  ℕ, suc, zero, ◌+◌, ◌≤◌, ◌<◌, ◌≡◌, refl, true, false, Option, none, some, arith, Bool-cases, inl,
  inr,
}
use systems_engineering_lab.Prelude.Table.{Table, lookup}
use systems_engineering_lab.Deadlock.{
  committed, failed, Phase, begun, at_barrier, first_locked, both_locked, ended, Leg, System,
  is_blocked, wanted, apply_transfer,
}
use systems_engineering_lab.Deadlock.Steps.{
  WaitsOn, to_phase, take_first, settle, finish, Step, locking_first, locking_second, finishing,
}
use systems_engineering_lab.Deadlock.Exclusive.{Inv, Each}
use systems_engineering_lab.Deadlock.Ordered.{LowerFirst, waits_higher}
use systems_engineering_lab.Deadlock.Left.{
  is_ended, all_ended, all_left, modify-all_left, highest, lookup-highest, not_ended, blocker, Good,
}

abbrev pub Next : System → Type 0
Next s = (t : System) × Step s t × (all_left t.legs < all_left s.legs)

pub finish-left :
    (k : ℕ) (l : Leg) (s : System) (o : Option (Table ℕ))
    → lookup k s.legs ≡ some l
    → l.phase ≡ both_locked
    → all_left (settle k o s).legs < all_left s.legs
finish-left k l s none e b = ground (arith, b, modify-all_left k (ended failed) l s.legs e)
finish-left k l s (some t) e b = ground (arith, b, modify-all_left k (ended committed) l s.legs e)

module _ (s : System) (inv : Inv s) (lower : LowerFirst s.legs) (good : Each Good s.legs) where
  finishes : (k : ℕ) (l : Leg) → lookup k s.legs ≡ some l → l.phase ≡ both_locked → Next s
  unfolding apply_transfer
  finishes k l e b =
      (finish k l s, finishing k l e b, finish-left k l s (apply_transfer l.plan s.accounts) e b)

  takes_second :
      (k : ℕ) (l : Leg)
      → lookup k s.legs ≡ some l
      → l.phase ≡ first_locked
      → is_blocked k l.plan.second_lock_id s ≡ false
      → Next s
  takes_second k l e b u = (
    to_phase k both_locked s,
    locking_second k l e b u,
    ground (arith, b, modify-all_left k both_locked l s.legs e),
  )

  takes_first :
      (k : ℕ) (l : Leg)
      → lookup k s.legs ≡ some l
      → l.phase ≡ begun
      → is_blocked k l.plan.first_lock_id s ≡ false
      → Next s
  takes_first k l e b u =
      let alone : l.has_rendezvous ≡ false = (good k l e).0 in
      (
        take_first k l s,
        locking_first k l e b u,
        rw alone (ground (arith, b, modify-all_left k first_locked l s.legs e)),
      )

  waits_for :
      (k id : ℕ) (l : Leg)
      → lookup k s.legs ≡ some l
      → wanted l ≡ some id
      → is_blocked k id s ≡ true
      → (b : ℕ) × (w : WaitsOn s k b) × (w.lock ≡ id)
  waits_for k id l e w u =
      let (b, h, eb, n, r) = blocker k id s.legs inv.distinct (ground (arith, u)) in
      (
        b,
        record {
          waiter = l;
          holder = h;
          lock = id;
          waits = e;
          blocks = eb;
          wants = w;
          has_it = r;
          exists = ground (arith, u);
          other = n;
        },
        refl,
      )

  asks_second : (l : Leg) → l.phase ≡ first_locked → wanted l ≡ some l.plan.second_lock_id
  asks_second l e = ground (arith, e)

  -- Who is waited for goes on, or waits for a higher lock: there is a highest.
  holder_goes_on :
      (d : ℕ) {a b : ℕ} (w : WaitsOn s a b)
      → highest s.legs ≤ w.lock + d
      → (p : Phase) → w.holder.phase ≡ p
      → Next s
  holder_goes_on d w h begun e = absurd (ground (arith, e, w.has_it))
  holder_goes_on d {a} {b} w h at_barrier e =
      absurd (ground (arith, e, (good b w.holder w.blocks).1))
  holder_goes_on d w h (ended status) e = absurd (ground (arith, e, w.has_it))
  holder_goes_on d {a} {b} w h both_locked e = finishes b w.holder w.blocks e
  holder_goes_on zero {a} {b} w h first_locked e =
      elim (Bool-cases (is_blocked b w.holder.plan.second_lock_id s)) [
        | inr free ↦ takes_second b w.holder w.blocks e free
        | inl blocked ↦
            let (c, v, id) =
              waits_for b w.holder.plan.second_lock_id w.holder w.blocks (asks_second w.holder e)
                blocked in
            absurd (
              omega (
                arith,
                h,
                waits_higher s inv lower w v,
                id,
                lookup-highest s.legs b w.holder w.blocks,
              ))
      ]
  holder_goes_on (suc d) {a} {b} w h first_locked e =
      elim (Bool-cases (is_blocked b w.holder.plan.second_lock_id s)) [
        | inr free ↦ takes_second b w.holder w.blocks e free
        | inl blocked ↦
            let (c, v, id) =
              waits_for b w.holder.plan.second_lock_id w.holder w.blocks (asks_second w.holder e)
                blocked in
            holder_goes_on d v (omega (arith, h, waits_higher s inv lower w v)) v.holder.phase refl
      ]

  waiter_or_holder :
      (k id : ℕ) (l : Leg)
      → lookup k s.legs ≡ some l
      → wanted l ≡ some id
      → is_blocked k id s ≡ true
      → Next s
  waiter_or_holder k id l e w u =
      let (b, v, same) = waits_for k id l e w u in
      holder_goes_on (highest s.legs) v (omega arith) v.holder.phase refl

  leg_goes_on :
      (k : ℕ) (l : Leg) (p : Phase)
      → l.phase ≡ p
      → lookup k s.legs ≡ some l
      → is_ended l.phase ≡ false
      → Next s
  leg_goes_on k l begun e there u = elim (Bool-cases (is_blocked k l.plan.first_lock_id s)) [
    | inr free ↦ takes_first k l there e free
    | inl blocked ↦ waiter_or_holder k l.plan.first_lock_id l there (ground (arith, e)) blocked
  ]
  leg_goes_on k l at_barrier e there u = absurd (ground (arith, e, (good k l there).1))
  leg_goes_on k l first_locked e there u =
      elim (Bool-cases (is_blocked k l.plan.second_lock_id s)) [
        | inr free ↦ takes_second k l there e free
        | inl blocked ↦ waiter_or_holder k l.plan.second_lock_id l there (asks_second l e) blocked
      ]
  leg_goes_on k l both_locked e there u = finishes k l there e
  leg_goes_on k l (ended status) e there u = absurd (ground (arith, e, u))

  pub goes_on : all_ended s.legs ≡ false → Next s
  goes_on u =
      let (k, l, there, open_leg) = not_ended s.legs inv.distinct u in
      leg_goes_on k l l.phase refl there open_leg

-- ===== src/Deadlock/Barrier.antt =====
-- The barrier of labs/32-deadlocks-and-lock-debugging/src/lib/sync.ts under the consistent order, and
-- `isTwoCycleBetween` of lib/diagnostics.ts.
use systems_engineering_lab.Prelude.{
  ℕ, ◌≡◌, refl, Bool, true, false, ◌&&◌, some, [], ◌∷◌, arith, ◌==◌, min, List, All, Bool-cases,
  inl, inr, ◌⊎◌, ==→eq, subst,
}
use systems_engineering_lab.Prelude.Table.{Table, lookup, has}
use systems_engineering_lab.Deadlock.{
  consistent_lock_order, plan_leg, Phase, begun, at_barrier, Leg, System,
}
use systems_engineering_lab.Deadlock.Steps.{
  WaitsOn, edge, longer, Step, locking_first, meeting, locking_second, finishing, aborting, Steps,
  start, after_step,
}
use systems_engineering_lab.Deadlock.Ordered.{Started, consistent_order_has_no_cycle}
use systems_engineering_lab.Deadlock.Left.{all_ended}
use systems_engineering_lab.Deadlock.Naive.{
  new_leg, opposite_legs, BlockedQueryEdge, is_two_cycle_between, some_edge,
}

pub pair_lookup :
    (k : ℕ) (l m n : Leg)
    → lookup k ((0, l) ∷ (1, m) ∷ []) ≡ some n
    → ((k ≡ 0) × (n ≡ l)) ⊎ ((k ≡ 1) × (n ≡ m))
pair_lookup k l m n h = elim (Bool-cases (0 == k)) [
  | inl first ↦ inl (ground (arith, first), ground (arith, first, h))
  | inr later ↦ elim (Bool-cases (1 == k)) [
    | inl second ↦ inr (ground (arith, second), ground (arith, later, second, h))
    | inr neither ↦ absurd (ground (arith, later, neither, h))
  ]
]

pub opposite_legs-Started :
    (rendezvous : Bool) (a b x y : ℕ) (accounts : Table ℕ)
    → Started consistent_lock_order
        (opposite_legs consistent_lock_order rendezvous a b x y accounts)
unfolding opposite_legs plan_leg
opposite_legs-Started rendezvous a b x y accounts = record {
  apart = (refl, (refl, tt));
  new = λ k l e.
      elim (pair_lookup k (new_leg rendezvous (plan_leg consistent_lock_order a b x))
        (new_leg rendezvous (plan_leg consistent_lock_order b a y)) l e) [
          | inl (k0, here) ↦ rw here refl
          | inr (k1, here) ↦ rw here refl
        ];
  planned = λ k l e.
      elim (pair_lookup k (new_leg rendezvous (plan_leg consistent_lock_order a b x))
        (new_leg rendezvous (plan_leg consistent_lock_order b a y)) l e) [
          | inl (k0, here) ↦ rw here refl
          | inr (k1, here) ↦ rw here refl
        ];
}

module _ (a b x y : ℕ) (accounts : Table ℕ) where
  abbrev leg_a : Phase → Leg
  unfolding plan_leg
  leg_a c = record { plan = plan_leg consistent_lock_order a b x; has_rendezvous = true; phase = c }

  abbrev leg_b : Phase → Leg
  unfolding plan_leg
  leg_b c = record { plan = plan_leg consistent_lock_order b a y; has_rendezvous = true; phase = c }

  -- The first leg has the lower lock and waits at the barrier.
  abbrev stuck : System
  unfolding plan_leg
  stuck = record {
    legs = (0, leg_a at_barrier) ∷ (1, leg_b begun) ∷ [];
    calls = 1;
    accounts = accounts;
  }

  reaches_stuck : Steps (opposite_legs consistent_lock_order true a b x y accounts) stuck
  unfolding opposite_legs plan_leg
  reaches_stuck = after_step start (locking_first 0 (leg_a begun) refl refl (ground arith))

  which :
      (k : ℕ) (l : Leg)
      → lookup k stuck.legs ≡ some l
      → ((k ≡ 0) × (l ≡ leg_a at_barrier)) ⊎ ((k ≡ 1) × (l ≡ leg_b begun))
  unfolding stuck
  which k l e = pair_lookup k (leg_a at_barrier) (leg_b begun) l e

  no_step : has (min a b) accounts ≡ true → (t : System) → ¬ Step stuck t
  unfolding plan_leg stuck
  no_step r _ (locking_first k l e p u) = elim (which k l e) [
    | inl (k0, here) ↦ ground (arith, here, p)
    | inr (k1, here) ↦ ground (arith, k1, here, u, r)
  ]
  no_step r _ (meeting k l e p c) = cc
  no_step r _ (locking_second k l e p u) = elim (which k l e) [
    | inl (k0, here) ↦ ground (arith, here, p)
    | inr (k1, here) ↦ ground (arith, here, p)
  ]
  no_step r _ (finishing k l e p) = elim (which k l e) [
    | inl (k0, here) ↦ ground (arith, here, p)
    | inr (k1, here) ↦ ground (arith, here, p)
  ]
  no_step r _ (aborting k c) =
      consistent_order_has_no_cycle (opposite_legs-Started true a b x y accounts) reaches_stuck k c

-- Lower account first with the barrier, of two opposite transfers: one leg takes the lock and waits at
-- the barrier for the other, which waits for that lock; no statement can go on, and there is no cycle
-- of locks that PostgreSQL could end.
pub barrier_sticks :
    (a b x y : ℕ) (accounts : Table ℕ)
    → has (min a b) accounts ≡ true
    → (t : System) × Steps (opposite_legs consistent_lock_order true a b x y accounts) t
      × ((u : System) → ¬ Step t u)
      × (all_ended t.legs ≡ false)
unfolding stuck
barrier_sticks a b x y accounts r =
    (stuck a b x y accounts, reaches_stuck a b x y accounts, no_step a b x y accounts r, refl)

-- The edges of a snapshot are true of the legs.
abbrev pub IsSnapshot : System → List BlockedQueryEdge → Type 0
IsSnapshot s = All (λ e. WaitsOn s e.waiting_pid e.blocked_by_pid)

some_edge-WaitsOn :
    (s : System) (a b : ℕ) (es : List BlockedQueryEdge)
    → IsSnapshot s es
    → some_edge a b es ≡ true
    → WaitsOn s a b
some_edge-WaitsOn s a b [] h e = cc
some_edge-WaitsOn s a b (d ∷ es) h e =
    elim (Bool-cases ((d.waiting_pid == a) && (d.blocked_by_pid == b))) [
      | inl here ↦
          subst (λ v. WaitsOn s a v) (==→eq d.blocked_by_pid b (ground (arith, here)))
            (subst (λ v. WaitsOn s v d.blocked_by_pid)
              (==→eq d.waiting_pid a (ground (arith, here))) h.0)
      | inr there ↦ some_edge-WaitsOn s a b es h.1 (ground (arith, there, e))
    ]

-- Transfers that lock the lower account first, wherever they have come to: a snapshot of who waits
-- for whom never shows two of them waiting for each other.
pub no_two_cycle_is_seen :
    {s t : System} (es : List BlockedQueryEdge) (a b : ℕ)
    → Started consistent_lock_order s
    → Steps s t
    → IsSnapshot t es
    → is_two_cycle_between es a b ≡ false
unfolding is_two_cycle_between
no_two_cycle_is_seen {s} {t} es a b h steps true_of =
    elim (Bool-cases (some_edge a b es && some_edge b a es)) [
      | inr seen ↦ seen
      | inl both ↦ absurd (
          consistent_order_has_no_cycle h steps a (
            longer (some_edge-WaitsOn t a b es true_of (ground (arith, both)))
              (edge (some_edge-WaitsOn t b a es true_of (ground (arith, both))))))
    ]

-- ===== src/Deadlock/Naive.antt =====
-- Two transfers in opposite directions: labs/32-deadlocks-and-lock-debugging/src/lib/transfer.ts under
-- scenarios/reproduce-deadlock.ts, and the barrier under scenarios/consistent-lock-ordering.ts.
use systems_engineering_lab.Prelude.{
  ℕ, ◌≡◌, refl, Bool, true, false, ◌&&◌, ◌||◌, [], ◌∷◌, arith, ◌==◌, List,
}
use systems_engineering_lab.Prelude.Table.{Table, has}
use systems_engineering_lab.Deadlock.{
  LockOrderStrategy, naive_lock_order, plan_leg, Phase, begun, at_barrier, first_locked, Leg,
  LegPlan, System,
}
use systems_engineering_lab.Deadlock.Steps.{
  WaitsOn, locking_first, meeting, Steps, start, after_step,
}

abbrev pub new_leg : Bool → LegPlan → Leg
new_leg rendezvous p = record { plan = p; has_rendezvous = rendezvous; phase = begun }

-- A transfer from `a` to `b` and one from `b` to `a`.
unfoldable pub opposite_legs : LockOrderStrategy → Bool → (a b x y : ℕ) → Table ℕ → System
unfolding plan_leg
opposite_legs strategy rendezvous a b x y accounts = record {
  legs =
      (0, new_leg rendezvous (plan_leg strategy a b x))
      ∷ (1, new_leg rendezvous (plan_leg strategy b a y))
      ∷ [];
  calls = 0;
  accounts = accounts;
}

-- diagnostics.ts: an edge of the graph of who waits for whom.
pub record BlockedQueryEdge : Type 0 where
  pub waiting_pid : ℕ
  pub blocked_by_pid : ℕ

abbrev pub some_edge : ℕ → ℕ → List BlockedQueryEdge → Bool
some_edge a b [] = false
some_edge a b (e ∷ es) = ((e.waiting_pid == a) && (e.blocked_by_pid == b)) || some_edge a b es

unfoldable pub is_two_cycle_between : List BlockedQueryEdge → ℕ → ℕ → Bool
is_two_cycle_between edges a b = some_edge a b edges && some_edge b a edges

-- Source first, two accounts: each leg can take its first lock and wait for the other's.
pub naive_order_deadlocks :
    (a b x y : ℕ) (accounts : Table ℕ)
    → (a == b) ≡ false
    → has a accounts ≡ true
    → has b accounts ≡ true
    → (t : System) × Steps (opposite_legs naive_lock_order true a b x y accounts) t
      × WaitsOn t 0 1
      × WaitsOn t 1 0
unfolding opposite_legs plan_leg
naive_order_deadlocks a b x y accounts apart ha hb =
    let p : LegPlan = plan_leg naive_lock_order a b x in
    let q : LegPlan = plan_leg naive_lock_order b a y in
    let l : Phase → Leg = λ c. record { plan = p; has_rendezvous = true; phase = c } in
    let m : Phase → Leg = λ c. record { plan = q; has_rendezvous = true; phase = c } in
    (
      record {
        legs = (0, l first_locked) ∷ (1, m first_locked) ∷ [];
        calls = 2;
        accounts = accounts;
      },
      after_step
          (after_step
            (after_step (after_step start (locking_first 0 (l begun) refl refl (ground arith)))
              (locking_first 1 (m begun) refl refl (ground (arith, apart))))
            (meeting 0 (l at_barrier) refl refl refl))
          (meeting 1 (m at_barrier) refl refl refl),
      record {
        waiter = l first_locked;
        holder = m first_locked;
        lock = b;
        waits = refl;
        blocks = refl;
        wants = refl;
        has_it = ground arith;
        exists = hb;
        other = refl;
      },
      record {
        waiter = m first_locked;
        holder = l first_locked;
        lock = a;
        waits = refl;
        blocks = refl;
        wants = refl;
        has_it = ground arith;
        exists = ha;
        other = refl;
      },
    )

-- ===== src/Overload/Handover.antt =====
-- Any number of `callSlowDownstream` calls on one `BoundedResource`, in any order of their parts.
use systems_engineering_lab.Prelude.{
  ℕ, zero, suc, ◌+◌, ◌≤◌, ◌<◌, ◌≡◌, refl, Bool, true, false, Option, none, some, List, [], ◌∷◌,
  ◌++◌, arith, length, length-append, ltb, Bool-cases, ◌⊎◌, inl, inr, subst,
}
use systems_engineering_lab.Overload.Slots.{
  BoundedResource, constructor, in_flight_count, waiting_count, acquire, without, time_out, release,
  hand_over,
}

-- The resource, and the callers that hold a slot.
pub record World : Type 0 where
  pub resource : BoundedResource
  pub holders : List ℕ

unfoldable pub init : ℕ → World
init capacity = record { resource = constructor capacity; holders = [] }

abbrev pub called : ℕ → List ℕ → Bool × BoundedResource → World
called c hs (true, r) = record { resource = r; holders = c ∷ hs }
called c hs (false, r) = record { resource = r; holders = hs }

abbrev pub handed : List ℕ → Option ℕ × BoundedResource → World
handed hs (none, r) = record { resource = r; holders = hs }
handed hs (some c, r) = record { resource = r; holders = c ∷ hs }

-- A call of `acquire`; the end of the work of one that holds a slot; a timer of one that waits.
pub data Step (w : World) (u : World) : Type 0 where
  acquires : (c : ℕ) → u ≡ called c w.holders (acquire c w.resource) → Step w u
  releases :
      (hs : List ℕ) (c : ℕ) (ks : List ℕ)
      → w.holders ≡ hs ++ c ∷ ks
      → u ≡ handed (hs ++ ks) (release w.resource)
      → Step w u
  times_out : (c : ℕ) → u ≡ record w { resource = time_out c w.resource } → Step w u

pub data Reach (w : World) : World → Type 0 where
  here : Reach w w
  next : {u v : World} → Reach w u → Step u v → Reach w v

pub record Inv (n : ℕ) (w : World) : Type 0 where
  pub same_capacity : w.resource.capacity ≡ n
  pub slots : length w.holders + w.resource.available_slots ≡ n
  pub busy : 0 < length w.resource.wait_queue → w.resource.available_slots ≡ 0

without-le-length : (c : ℕ) (cs : List ℕ) → length (without c cs) ≤ length cs
without-le-length c [] = omega arith
without-le-length c (d ∷ ds) = ground (arith, without-le-length c ds)

init-Inv : (n : ℕ) → Inv n (init n)
unfolding init constructor
init-Inv n = record { same_capacity = refl; slots = omega arith; busy = λ h. ground (arith, h) }

acquire-Inv : (n c : ℕ) (w : World) → Inv n w → Inv n (called c w.holders (acquire c w.resource))
unfolding acquire
acquire-Inv n c w v = elim (Bool-cases (ltb 0 w.resource.available_slots)) [
  | inl free ↦ rw free (record {
    same_capacity = v.same_capacity;
    slots = ground (arith, free, v.slots);
    busy = λ h. ground (arith, free, v.busy h);
  })
  | inr full ↦ rw full (record {
    same_capacity = v.same_capacity;
    slots = v.slots;
    busy = λ h. ground (arith, full);
  })
]

hand_over-Inv :
    (n : ℕ) (hs : List ℕ) (c : ℕ) (ks : List ℕ) (r : BoundedResource) (q : List ℕ)
    → r.wait_queue ≡ q
    → Inv n (record { resource = r; holders = hs ++ c ∷ ks })
    → Inv n (handed (hs ++ ks) (hand_over q r))
hand_over-Inv n hs c ks r [] e v = record {
  same_capacity = v.same_capacity;
  slots = ground (arith, v.slots, length-append hs (c ∷ ks), length-append hs ks);
  busy = λ h. ground (arith, e, h);
}
hand_over-Inv n hs c ks r (d ∷ q) e v = record {
  same_capacity = v.same_capacity;
  slots = ground (arith, v.slots, length-append hs (c ∷ ks), length-append hs ks);
  busy = λ h. v.busy (rw e (omega arith));
}

time_out-Inv :
    (n c : ℕ) (w : World) → Inv n w → Inv n (record w { resource = time_out c w.resource })
unfolding time_out
time_out-Inv n c w v = record {
  same_capacity = v.same_capacity;
  slots = v.slots;
  busy = λ h. v.busy (ground (arith, h, without-le-length c w.resource.wait_queue));
}

Step-Inv : {n : ℕ} {w u : World} → Step w u → Inv n w → Inv n u
unfolding release
Step-Inv {n} {w} (acquires c e) v = rw e (acquire-Inv n c w v)
Step-Inv {n} {w} (releases hs c ks h e) v = rw e (
    hand_over-Inv n hs c ks w.resource w.resource.wait_queue refl
      (subst (λ x. Inv n (record { resource = w.resource; holders = x })) h v))
Step-Inv {n} {w} (times_out c e) v = rw e (time_out-Inv n c w v)

Reach-Inv : {n : ℕ} {w u : World} → Reach w u → Inv n w → Inv n u
Reach-Inv here v = v
Reach-Inv (next r s) v = Step-Inv s (Reach-Inv r v)

in_flight_holders : {n : ℕ} (w : World) → Inv n w → in_flight_count w.resource ≡ length w.holders
unfolding in_flight_count
in_flight_holders w v = omega (arith, v.slots, v.same_capacity)

idle_or_full :
    (n : ℕ) (w : World)
    → Inv n w
    → (k : ℕ) → length w.resource.wait_queue ≡ k
    → (length w.resource.wait_queue ≡ 0) ⊎ (length w.holders ≡ n)
idle_or_full n w v zero e = inl e
idle_or_full n w v (suc k) e = inr (ground (arith, v.slots, v.busy (rw e (omega arith))))

-- Whatever the order of the calls, releases and timeouts on a resource of `n` slots: the callers
-- that hold a slot are `inFlightCount` many, so never more than `n`; and while any caller waits,
-- exactly `n` hold one.
pub Reach-slots :
    (n : ℕ) (w : World)
    → Reach (init n) w
    → (in_flight_count w.resource ≡ length w.holders)
      × (length w.holders ≤ n)
      × ((waiting_count w.resource ≡ 0) ⊎ (length w.holders ≡ n))
unfolding waiting_count
Reach-slots n w r =
    let v = Reach-Inv r (init-Inv n) in
    (
      in_flight_holders w v,
      omega (arith, v.slots),
      idle_or_full n w v (length w.resource.wait_queue) refl,
    )

-- ===== src/Overload/Slots.antt =====
-- `BoundedResource` of downstream/slow-downstream.ts. A caller has a number; its promise settles
-- when `acquire` returns, when `release` grants it the slot, or when its timer fires. Each function
-- runs between two awaits.
use systems_engineering_lab.Prelude.{
  ℕ, ◌+◌, ◌-◌, Bool, true, false, Option, none, some, List, [], ◌∷◌, ◌++◌, ◌==◌, ltb, if◌then◌else◌,
  length,
}

pub record BoundedResource : Type 0 where
  pub capacity : ℕ
  pub available_slots : ℕ
  pub wait_queue : List ℕ

unfoldable pub constructor : ℕ → BoundedResource
constructor capacity = record { capacity = capacity; available_slots = capacity; wait_queue = [] }

unfoldable pub in_flight_count : BoundedResource → ℕ
in_flight_count r = r.capacity - r.available_slots

unfoldable pub waiting_count : BoundedResource → ℕ
waiting_count r = length r.wait_queue

-- Whether the caller has a slot at once; if not, it waits.
unfoldable pub acquire : ℕ → BoundedResource → Bool × BoundedResource
acquire caller r =
    if ltb 0 r.available_slots
    then (true, record r { available_slots = r.available_slots - 1 })
    else (false, record r { wait_queue = r.wait_queue ++ caller ∷ [] })

-- `splice` at the first place where the caller stands.
abbrev pub without : ℕ → List ℕ → List ℕ
without caller [] = []
without caller (c ∷ cs) = if c == caller then cs else c ∷ without caller cs

-- The timer of a caller that waits: its promise is rejected.
unfoldable pub time_out : ℕ → BoundedResource → BoundedResource
time_out caller r = record r { wait_queue = without caller r.wait_queue }

abbrev pub hand_over : List ℕ → BoundedResource → Option ℕ × BoundedResource
hand_over [] r = (none, record r { available_slots = r.available_slots + 1 })
hand_over (next ∷ rest) r = (some next, record r { wait_queue = rest })

-- The caller that the slot is handed to, if one waits.
unfoldable pub release : BoundedResource → Option ℕ × BoundedResource
release r = hand_over r.wait_queue r

-- ===== src/Downstream/Tests.antt =====
-- Runs of the simulated downstream at concrete inputs.
use Prim.Native.String.{String}
use systems_engineering_lab.Prelude.{ℕ, ◌≡◌, refl, Option, none, some, List, [], ◌∷◌}
use systems_engineering_lab.Downstream.{mulberry32_next}

-- mulberry32(1) begins with 0.6270739405881613.
first_number : (mulberry32_next 1).1 ≡ 2693262067
unfolding mulberry32_next
first_number = refl

abbrev retried : List (ℕ × ℕ × Option String)
retried = (0, 500, some "k1") ∷ (5, 500, some "k1") ∷ (9, 40, some "k2") ∷ []

abbrev bare : List (ℕ × ℕ × Option String)
bare = (0, 500, none) ∷ (5, 500, some "") ∷ []

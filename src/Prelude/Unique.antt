-- ===== src/Prelude/Unique.antt =====
-- A column under a unique constraint: INSERT … ON CONFLICT DO NOTHING.
use Prim.Native.Nat.{ℕ}
use mathlib.Core.Path.{◌≡◌}
use mathlib.Core.Bool.{Bool, true, false}
use mathlib.Core.List.{List, [], ◌∷◌}
use native.Mathlib.Omega.{arith}
use systems_engineering_lab.Prelude.Tests.{◌==◌, if◌then◌else◌}

abbrev pub contains : List ℕ → ℕ → Bool
contains [] k = false
contains (j ∷ js) k = if j == k then true else contains js k

-- Whether the row was inserted, and the column.
unfoldable pub insert_new : ℕ → List ℕ → Bool × List ℕ
insert_new k ks = if contains ks k then (false, ks) else (true, k ∷ ks)

pub contains-insert_new :
    (k j : ℕ) (ks : List ℕ)
    → contains (insert_new k ks).1 j ≡ (if k == j then true else contains ks j)
unfolding insert_new
contains-insert_new k j ks = ground arith

pub contains_here : (k : ℕ) (ks : List ℕ) → contains (k ∷ ks) k ≡ true
contains_here k ks = ground arith

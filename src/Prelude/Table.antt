-- ===== src/Prelude/Table.antt =====
-- A table of the database: its rows in order of insertion, each under the number that the
-- identity column gave it. A conditional `UPDATE` of one row is `modify`.
use Prim.Native.Nat.{ℕ, suc, ◌≤◌, ◌<◌}
use mathlib.Core.Path.{◌≡◌, refl}
use mathlib.Core.Bool.{Bool, true, false}
use mathlib.Core.Option.{Option, none, some}
use mathlib.Core.List.{List, [], ◌∷◌, ◌++◌}
use native.Mathlib.Omega.{arith}
use systems_engineering_lab.Prelude.Tests.{◌==◌, if◌then◌else◌}

abbrev pub Table {ℓ} : Type ℓ → Type ℓ
Table V = List (ℕ × V)

module _ {ℓ} {V : Type ℓ} where
  -- SELECT … WHERE id = k
  abbrev pub lookup : ℕ → Table V → Option V
  lookup k [] = none
  lookup k ((j, v) ∷ t) = if j == k then some v else lookup k t

  -- UPDATE … SET v = f v WHERE id = k
  abbrev pub modify : ℕ → (V → V) → Table V → Table V
  modify k f [] = []
  modify k f ((j, v) ∷ t) = if j == k then (j, f v) ∷ t else (j, v) ∷ modify k f t

  -- Every identity is below the next one that the sequence gives.
  abbrev pub Below : ℕ → Table V → Type 0
  Below n [] = Unit {0}
  Below n ((j, v) ∷ t) = (j < n) × Below n t

  -- No two rows have one number.
  abbrev pub Distinct : Table V → Type ℓ
  Distinct [] = Unit
  Distinct ((k, v) ∷ t) = (lookup k t ≡ none) × Distinct t

  abbrev pub map_some : (V → V) → Option V → Option V
  map_some f none = none
  map_some f (some v) = some (f v)

  abbrev pub is_there : Option V → Bool
  is_there none = false
  is_there (some v) = true

  abbrev pub has : ℕ → Table V → Bool
  has k t = is_there (lookup k t)

  pub has-modify : (k j : ℕ) (f : V → V) (t : Table V) → has j (modify k f t) ≡ has j t
  has-modify k j f [] = refl
  has-modify k j f (e ∷ t) = ground (arith, has-modify k j f t)

  pub lookup-modify :
      (k j : ℕ) (f : V → V) (t : Table V)
      → lookup j (modify k f t) ≡ (if k == j then map_some f (lookup j t) else lookup j t)
  lookup-modify k j f [] = ground arith
  lookup-modify k j f (e ∷ t) = ground (arith, lookup-modify k j f t)

  pub lookup-Below : (n k : ℕ) (t : Table V) → Below n t → n ≤ k → lookup k t ≡ none
  lookup-Below n k [] b h = refl
  lookup-Below n k (e ∷ t) b h = ground (arith, lookup-Below n k t b.1)

  pub modify-Below : (n k : ℕ) (f : V → V) (t : Table V) → Below n t → Below n (modify k f t)
  modify-Below n k f [] b = tt
  modify-Below n k f (e ∷ t) b = ground (arith, modify-Below n k f t b.1)

  pub Below-suc : (n : ℕ) (t : Table V) → Below n t → Below (suc n) t
  Below-suc n [] b = tt
  Below-suc n (e ∷ t) b = (omega arith, Below-suc n t b.1)

  pub lookup-append_new :
      (n k : ℕ) (v : V) (t : Table V)
      → Below n t
      → lookup k (t ++ (n, v) ∷ []) ≡ (if n == k then some v else lookup k t)
  lookup-append_new n k v [] b = refl
  lookup-append_new n k v (e ∷ t) b = ground (arith, lookup-append_new n k v t b.1)

  pub append_new-Below :
      (n : ℕ) (v : V) (t : Table V) → Below n t → Below (suc n) (t ++ (n, v) ∷ [])
  append_new-Below n v [] b = (omega arith, tt)
  append_new-Below n v (e ∷ t) b = (omega arith, append_new-Below n v t b.1)

  pub modify-Distinct : (k : ℕ) (f : V → V) (t : Table V) → Distinct t → Distinct (modify k f t)
  modify-Distinct k f [] d = tt
  modify-Distinct k f (e ∷ t) d = ground (arith, modify-Distinct k f t d.1, lookup-modify k e.0 f t)

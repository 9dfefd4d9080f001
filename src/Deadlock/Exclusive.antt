-- ===== src/Deadlock/Exclusive.antt =====
-- No two legs have one row lock: labs/32-deadlocks-and-lock-debugging/src/lib/transfer.ts.
use systems_engineering_lab.Prelude.{
  ℕ, ◌≡◌, refl, true, false, Option, none, some, [], ◌∷◌, arith, ◌==◌, if◌then◌else◌, Bool-cases,
  inl, inr, ◌⊎◌, sym, ◌∙◌, ap, ==→eq, subst,
}
use systems_engineering_lab.Prelude.Table.{
  Table, lookup, modify, lookup-modify, Distinct, has, map_some,
}
use systems_engineering_lab.Deadlock.{
  Phase, Leg, System, holds, held_by_other, is_blocked, with_phase,
}

-- Who has one lock of a row that exists is one leg.
abbrev pub Exclusive : Table Leg → Table ℕ → Type 0
Exclusive legs accounts =
    (a b id : ℕ) (la lb : Leg)
    → lookup a legs ≡ some la
    → lookup b legs ≡ some lb
    → holds id la ≡ true
    → holds id lb ≡ true
    → has id accounts ≡ true
    → (b == a) ≡ true

pub record Inv (s : System) : Type 0 where
  pub distinct : Distinct s.legs
  pub exclusive : Exclusive s.legs s.accounts

pub held_by_other-holds :
    (k id b : ℕ) (lb : Leg) (t : Table Leg)
    → held_by_other k id t ≡ false
    → lookup b t ≡ some lb
    → (b == k) ≡ false
    → holds id lb ≡ false
held_by_other-holds k id b lb [] h e n = cc
held_by_other-holds k id b lb ((j, l) ∷ t) h e n =
    ground (arith, h, e, n, held_by_other-holds k id b lb t)

-- A row of the table after a change of phase is the changed one or an old one.
pub looked_up :
    (k b : ℕ) (p : Phase) (lb : Leg) (t : Table Leg)
    → lookup b (modify k (with_phase p) t) ≡ some lb
    → ((k ≡ b) × ((l : Leg) × (lookup b t ≡ some l) × (lb ≡ with_phase p l)))
      ⊎ (((k == b) ≡ false) × (lookup b t ≡ some lb))
looked_up k b p lb t h = elim (Bool-cases (k == b)) [
  | inl here ↦ inl (
    ==→eq k b here,
    found (lookup b t) refl (
        sym (ap (λ x. if x then map_some (with_phase p) (lookup b t) else lookup b t) here)
        ∙ sym (lookup-modify k b (with_phase p) t)
        ∙ h),
  )
  | inr there ↦ inr (
    there,
    sym (ap (λ x. if x then map_some (with_phase p) (lookup b t) else lookup b t) there)
        ∙ sym (lookup-modify k b (with_phase p) t)
        ∙ h,
  )
]
  where
    found :
        (o : Option Leg)
        → lookup b t ≡ o
        → map_some (with_phase p) o ≡ some lb
        → (l : Leg) × (lookup b t ≡ some l) × (lb ≡ with_phase p l)
    found none e h = cc
    found (some l) e h = (l, e, cc)

-- Every leg that is in the table has the property.
abbrev pub Each : (Leg → Type 0) → Table Leg → Type 0
Each P t = (k : ℕ) (l : Leg) → lookup k t ≡ some l → P l

pub modify-Each :
    (P : Leg → Type 0) (k : ℕ) (p : Phase) (t : Table Leg)
    → ((l : Leg) → lookup k t ≡ some l → P l → P (with_phase p l))
    → Each P t
    → Each P (modify k (with_phase p) t)
modify-Each P k p t h each b l e = elim (looked_up k b p l t e) [
  | inl (kb, (l0, e0, f0)) ↦
      subst P (sym f0) (h l0 (subst (λ x. lookup x t ≡ some l0) (sym kb) e0) (each b l0 e0))
  | inr (nb, e0) ↦ each b l e0
]

module _ (k : ℕ) (p : Phase) (l : Leg) (s : System) (there : lookup k s.legs ≡ some l) where
  -- A leg that takes no lock but one that nobody has.
  unfoldable pub TakesFree : Type 0
  TakesFree =
      (id : ℕ)
      → holds id (with_phase p l) ≡ true
      → (holds id l ≡ true) ⊎ (is_blocked k id s ≡ false)

  against_others :
      TakesFree
      → Exclusive s.legs s.accounts
      → (b id : ℕ) (lb : Leg) → lookup b s.legs ≡ some lb
      → (k == b) ≡ false
      → holds id (with_phase p l) ≡ true
      → holds id lb ≡ true
      → has id s.accounts ≡ true
      → ⊥
  unfolding TakesFree
  against_others free ex b id lb e n h hb r = elim (free id h) [
    | inl old ↦ ground (arith, n, ex k b id l lb there e old hb r)
    | inr unheld ↦ ground (arith, n, r, unheld, hb, held_by_other-holds k id b lb s.legs, e)
  ]

  pub modify-Exclusive :
      TakesFree
      → Exclusive s.legs s.accounts
      → Exclusive (modify k (with_phase p) s.legs) s.accounts
  modify-Exclusive free ex a b id la lb ea eb ha hb r = elim (looked_up k a p la s.legs ea) [
    | inl (ka, (l0, e0, f0)) ↦ elim (looked_up k b p lb s.legs eb) [
      | inl (kb, (l1, e1, f1)) ↦ ground (arith, ka, kb)
      | inr (nb, e1) ↦ absurd (
          against_others free ex b id lb e1 nb
            (subst (λ x. holds id (with_phase p x) ≡ true) (same a l0 ka e0)
              (subst (λ x. holds id x ≡ true) f0 ha))
            hb r)
    ]
    | inr (na, e0) ↦ elim (looked_up k b p lb s.legs eb) [
      | inl (kb, (l1, e1, f1)) ↦ absurd (
          against_others free ex a id la e0 na
            (subst (λ x. holds id (with_phase p x) ≡ true) (same b l1 kb e1)
              (subst (λ x. holds id x ≡ true) f1 hb))
            ha r)
      | inr (nb, e1) ↦ ex a b id la lb e0 e1 ha hb r
    ]
  ]
    where
      same : (c : ℕ) (m : Leg) → k ≡ c → lookup c s.legs ≡ some m → m ≡ l
      same c m kc e = cc

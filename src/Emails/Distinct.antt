-- ===== src/Emails/Distinct.antt =====
-- The loop of packages/data-generators/src/unique-email.ts ends, and its results are unique.
use systems_engineering_lab.Prelude.{
  ℕ, zero, suc, ◌+◌, ◌≤◌, ◌<◌, ◌≡◌, refl, true, false, some, List, [], ◌∷◌, arith, if◌then◌else◌,
  length, sym, Bool-cases, inl, inr, subst, ◌==◌, ==→eq,
}
use systems_engineering_lab.Emails.{
  Text, same, is_used, index_of_at, local_part, domain_part, with_suffix, first_free,
  to_unique_email, unique_emails,
}
use systems_engineering_lab.Emails.Suffixes.{with_suffix-injective, same→eq}

without : Text → List Text → List Text
without e [] = []
without e (u ∷ us) = if same u e then us else u ∷ without e us

without-length :
    (e : Text) (us : List Text) → is_used e us ≡ true → suc (length (without e us)) ≡ length us
unfolding without
without-length e [] h = cc
without-length e (u ∷ us) h = ground (arith, h, without-length e us)

-- An email other than the one taken out is used still.
without-is_used :
    (e f : Text) (us : List Text)
    → same e f ≡ false
    → is_used f us ≡ true
    → is_used f (without e us) ≡ true
unfolding without
without-is_used e f [] n h = cc
without-is_used e f (u ∷ us) n h = elim (Bool-cases (same u e)) [
  | inr other ↦ ground (arith, other, h, without-is_used e f us n)
  | inl here ↦
      let is_other : same u f ≡ false = subst (λ x. same x f ≡ false) (sym (same→eq u e here)) n in
      ground (arith, here, is_other, h)
]

module _ (local domain : Text) where
  apart : (m n : ℕ) → m < n → same (with_suffix local domain m) (with_suffix local domain n) ≡ false
  apart m n h = elim (Bool-cases (same (with_suffix local domain m) (with_suffix local domain n))) [
    | inr differ ↦ differ
    | inl equal ↦ absurd (
        omega (
          arith,
          h,
          with_suffix-injective local domain m n
              (same→eq (with_suffix local domain m) (with_suffix local domain n) equal),
        ))
  ]

  -- Among more suffixes than there are emails, one is free.
  free_suffix :
      (size suffix : ℕ) (used : List Text)
      → length used ≤ size
      → (n : ℕ) × (suffix ≤ n)
        × (n ≤ suffix + size)
        × (is_used (with_suffix local domain n) used ≡ false)
  free_suffix zero suffix used h =
      elim (Bool-cases (is_used (with_suffix local domain suffix) used)) [
        | inr free ↦ (suffix, omega arith, omega arith, free)
        | inl taken ↦
            absurd (omega (arith, h, without-length (with_suffix local domain suffix) used taken))
      ]
  free_suffix (suc size) suffix used h =
      elim (Bool-cases (is_used (with_suffix local domain suffix) used)) [
        | inr free ↦ (suffix, omega arith, omega arith, free)
        | inl taken ↦
            let c = with_suffix local domain suffix in
            let (n, low, high, free) =
              free_suffix size (suc suffix) (without c used)
                (omega (arith, h, without-length c used taken)) in
            (
              n,
              omega (arith, low),
              omega (arith, high),
              elim (Bool-cases (is_used (with_suffix local domain n) used)) [
                | inr other ↦ other
                | inl again ↦ absurd (
                    ground (
                      arith,
                      free,
                      without-is_used c (with_suffix local domain n) used
                          (apart suffix n (omega (arith, low))) again,
                    ))
              ],
            )
      ]

  first_free-fresh :
      (rounds suffix n : ℕ) (used : List Text)
      → suffix ≤ n
      → n < suffix + rounds
      → is_used (with_suffix local domain n) used ≡ false
      → (c : Text) × (first_free rounds local domain suffix used ≡ some c)
        × (is_used c used ≡ false)
  unfolding first_free
  first_free-fresh zero suffix n used low high free = absurd (omega (arith, low, high))
  first_free-fresh (suc rounds) suffix n used low high free =
      elim (Bool-cases (is_used (with_suffix local domain suffix) used)) [
        | inr here ↦ (with_suffix local domain suffix, rw here refl, here)
        | inl taken ↦
            let later : suffix < n = above taken free low in
            let (c, e, u) =
              first_free-fresh rounds (suc suffix) n used (omega (arith, later))
                (omega (arith, high)) free in
            (c, rw taken e, u)
      ]
    where
      above :
          is_used (with_suffix local domain suffix) used ≡ true
          → is_used (with_suffix local domain n) used ≡ false
          → suffix ≤ n
          → suffix < n
      above taken free low = elim (Bool-cases (suffix == n)) [
        | inr differ ↦ ground (arith, differ, low)
        | inl equal ↦
            let e : suffix ≡ n = ==→eq suffix n equal in
            let used_too : is_used (with_suffix local domain n) used ≡ true =
              subst (λ m. is_used (with_suffix local domain m) used ≡ true) e taken in
            cc
      ]

-- More rounds than there are used emails are enough for a new one.
to_unique_email-fresh :
    (rounds : ℕ) (email : Text) (used : List Text)
    → length used < rounds
    → (e : Text) × (to_unique_email rounds email used ≡ some (e, e ∷ used))
      × (is_used e used ≡ false)
unfolding to_unique_email
to_unique_email-fresh rounds email used h = elim (Bool-cases (is_used email used)) [
  | inr free ↦ (email, rw free refl, free)
  | inl taken ↦
      let local = local_part email (index_of_at email) in
      let domain = domain_part email (index_of_at email) in
      let (n, low, high, free) = free_suffix local domain (length used) 2 used (omega arith) in
      let (c, e, u) =
        first_free-fresh local domain rounds 2 n used low (omega (arith, high, h)) free in
      (c, rw taken (rw e refl), u)
]

-- Each is new against those used before and all results before it.
abbrev pub AllNew : List Text → List Text → Type 0
AllNew used [] = Unit
AllNew used (e ∷ es) = (is_used e used ≡ false) × AllNew (e ∷ used) es

-- Whatever emails come, with or without an `@`, and whatever is used already: with more rounds for the
-- loop than there are emails, used or to come, every call returns, and gives an email that is not
-- among those used before nor among the results before it.
pub unique_emails-AllNew :
    (rounds : ℕ) (emails used : List Text)
    → length used + length emails < rounds
    → (results : List Text) × (unique_emails rounds emails used ≡ some results)
      × (length results ≡ length emails)
      × AllNew used results
unfolding unique_emails
unique_emails-AllNew rounds [] used h = ([], refl, refl, tt)
unique_emails-AllNew rounds (email ∷ emails) used h =
    let (e, made, new) = to_unique_email-fresh rounds email used (omega (arith, h)) in
    let (es, rest, size, all_new) =
      unique_emails-AllNew rounds emails (e ∷ used) (omega (arith, h)) in
    (e ∷ es, rw made (rw rest refl), omega (arith, size), (new, all_new))

-- ===== src/Emails/Suffixes.antt =====
-- Different suffixes make different emails: packages/data-generators/src/unique-email.ts.
use systems_engineering_lab.Prelude.{
  ℕ, zero, suc, ◌+◌, ◌-◌, ◌*◌, ◌/◌, ◌%◌, ◌≤◌, ◌<◌, ◌≡◌, refl, true, [], ◌∷◌, ◌++◌, arith, ltb, take,
  drop, length, length-append, ap, sym, ◌∙◌, Bool-cases, inl, inr,
}
use systems_engineering_lab.Emails.{Text, same, decimal_from, decimal, with_suffix}

-- The number that a numeral stands for, after the digits before it.
value : ℕ → Text → ℕ
value n [] = n
value n (d ∷ ds) = value (n * 10 + (d - 48)) ds

value-snoc : (n d : ℕ) (ds : Text) → value n (ds ++ d ∷ []) ≡ value n ds * 10 + (d - 48)
unfolding value
value-snoc n d [] = refl
value-snoc n d (e ∷ ds) = value-snoc (n * 10 + (e - 48)) d ds

decimal_from-value : (digits n : ℕ) → n < digits → value 0 (decimal_from digits n) ≡ n
unfolding decimal_from value
decimal_from-value zero n h = absurd (omega (arith, h))
decimal_from-value (suc digits) n h = elim (Bool-cases (ltb n 10)) [
  | inl low ↦ rw low (omega arith)
  | inr high ↦
      let big : 10 ≤ n = ground (arith, high) in
      rw high (
        omega (
          arith,
          value-snoc 0 (48 + n % 10) (decimal_from digits (n / 10)),
          decimal_from-value digits (n / 10) (omega (arith, h, big)),
        ))
]

decimal_injective : (m n : ℕ) → decimal m ≡ decimal n → m ≡ n
unfolding decimal
decimal_injective m n h =
    sym (decimal_from-value (suc m) m (omega arith))
    ∙ ap (value 0) h
    ∙ decimal_from-value (suc n) n (omega arith)

take_left : (xs ys : Text) → take (length xs) (xs ++ ys) ≡ xs
take_left [] ys = refl
take_left (x ∷ xs) ys = ap (λ l. x ∷ l) (take_left xs ys)

drop_left : (xs ys : Text) → drop (length xs) (xs ++ ys) ≡ ys
drop_left [] ys = refl
drop_left (x ∷ xs) ys = drop_left xs ys

cancel_right : (xs ys zs : Text) → xs ++ zs ≡ ys ++ zs → xs ≡ ys
cancel_right xs ys zs h =
    let e : length xs ≡ length ys =
      omega (arith, length-append xs zs, length-append ys zs, ap length h) in
    sym (take_left xs zs)
    ∙ ap (λ n. take n (xs ++ zs)) e
    ∙ ap (take (length ys)) h
    ∙ take_left ys zs

pub with_suffix-injective :
    (local domain : Text) (m n : ℕ)
    → with_suffix local domain m ≡ with_suffix local domain n
    → m ≡ n
unfolding with_suffix
with_suffix-injective local domain m n h = decimal_injective m n (
    cancel_right (decimal m) (decimal n) domain (
      sym (drop_left local (decimal m ++ domain))
      ∙ ap (drop (length local)) h
      ∙ drop_left local (decimal n ++ domain)))

pub same→eq : (xs ys : Text) → same xs ys ≡ true → xs ≡ ys
same→eq [] [] h = refl
same→eq [] (y ∷ ys) h = cc
same→eq (x ∷ xs) [] h = cc
same→eq (x ∷ xs) (y ∷ ys) h =
    let rest = same→eq xs ys (ground (arith, h)) in let head : x ≡ y = ground (arith, h) in cc

pub same_refl : (xs : Text) → same xs xs ≡ true
same_refl [] = refl
same_refl (x ∷ xs) = ground (arith, same_refl xs)

-- ===== src/Emails.antt =====
-- packages/data-generators/src/unique-email.ts. A string is the list of its UTF-16 code units.
pub mod Suffixes
pub mod Distinct
mod Tests
use systems_engineering_lab.Prelude.{
  ℕ, zero, suc, ◌+◌, ◌-◌, ◌/◌, ◌%◌, Bool, true, false, ◌&&◌, Option, none, some, List, [], ◌∷◌,
  ◌++◌, ◌==◌, ltb, if◌then◌else◌, take, drop, length,
}

abbrev pub Text : Type 0
Text = List ℕ

abbrev pub same : Text → Text → Bool
same [] [] = true
same [] (y ∷ ys) = false
same (x ∷ xs) [] = false
same (x ∷ xs) (y ∷ ys) = (x == y) && same xs ys

-- usedEmails.has(email)
abbrev pub is_used : Text → List Text → Bool
is_used email [] = false
is_used email (u ∷ used) = if same u email then true else is_used email used

-- The decimal numeral, by the digits that may be left.
unfoldable pub decimal_from : ℕ → ℕ → Text
decimal_from zero n = []
decimal_from (suc digits) n =
    let higher = decimal_from digits (n / 10) in
    if ltb n 10 then (48 + n) ∷ [] else higher ++ (48 + n % 10) ∷ []

abbrev pub decimal : ℕ → Text
unfolding decimal_from
decimal n = decimal_from (suc n) n

abbrev map_suc : Option ℕ → Option ℕ
map_suc none = none
map_suc (some n) = some (suc n)

-- email.indexOf("@"), none for -1
abbrev pub index_of_at : Text → Option ℕ
index_of_at [] = none
index_of_at (c ∷ cs) = if c == 64 then some 0 else map_suc (index_of_at cs)

-- email.slice(0, atIndex) and email.slice(atIndex); -1 counts from the end.
abbrev pub local_part : Text → Option ℕ → Text
local_part email none = take (length email - 1) email
local_part email (some i) = take i email

abbrev pub domain_part : Text → Option ℕ → Text
domain_part email none = drop (length email - 1) email
domain_part email (some i) = drop i email

unfoldable pub with_suffix : Text → Text → ℕ → Text
unfolding decimal
with_suffix local domain suffix = local ++ (decimal suffix ++ domain)

-- The loop, by the rounds that may be left: the first suffix whose candidate is not used.
unfoldable pub first_free : ℕ → Text → Text → ℕ → List Text → Option Text
unfolding with_suffix
first_free zero local domain suffix used = none
first_free (suc rounds) local domain suffix used =
    let rest = first_free rounds local domain (suc suffix) used in
    if is_used (with_suffix local domain suffix) used
    then rest
    else some (with_suffix local domain suffix)

abbrev pub add_free : List Text → Option Text → Option (Text × List Text)
add_free used none = none
add_free used (some candidate) = some (candidate, candidate ∷ used)

-- The result and the used emails after it. None if the loop runs out of its rounds.
unfoldable pub to_unique_email : ℕ → Text → List Text → Option (Text × List Text)
unfolding first_free
to_unique_email rounds email used =
    let i = index_of_at email in
    if is_used email used
    then add_free used (first_free rounds (local_part email i) (domain_part email i) 2 used)
    else some (email, email ∷ used)

abbrev pub cons_email : Text → Option (List Text) → Option (List Text)
cons_email e none = none
cons_email e (some es) = some (e ∷ es)

abbrev pub after_email :
    Option (Text × List Text) → (List Text → Option (List Text)) → Option (List Text)
after_email none rest = none
after_email (some (e, used)) rest = cons_email e (rest used)

-- What a seed script does: each of its emails is made unique against all before.
unfoldable pub unique_emails : ℕ → List Text → List Text → Option (List Text)
unfolding to_unique_email
unique_emails rounds [] used = some []
unique_emails rounds (email ∷ emails) used =
    after_email (to_unique_email rounds email used) (unique_emails rounds emails)

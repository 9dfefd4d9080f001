-- ===== src/Emails/Tests.antt =====
-- The same email three times: "a@b", "a2@b", "a3@b".
use systems_engineering_lab.Prelude.{◌≡◌, refl, some, List, [], ◌∷◌, arith, length}
use systems_engineering_lab.Emails.{
  Text, decimal, decimal_from, with_suffix, first_free, to_unique_email, unique_emails,
}
use systems_engineering_lab.Emails.Distinct.{AllNew, unique_emails-AllNew}

abbrev a_at_b : Text
a_at_b = 97 ∷ 64 ∷ 98 ∷ []

abbrev three_times : List Text
three_times = a_at_b ∷ a_at_b ∷ a_at_b ∷ []

made_unique :
    unique_emails 4 three_times []
    ≡ some (a_at_b ∷ (97 ∷ 50 ∷ 64 ∷ 98 ∷ []) ∷ (97 ∷ 51 ∷ 64 ∷ 98 ∷ []) ∷ [])
unfolding unique_emails to_unique_email first_free with_suffix decimal decimal_from
made_unique = refl

unique_emails-AllNew_example :
    (results : List Text) × (unique_emails 4 three_times [] ≡ some results)
    × (length results ≡ length three_times)
    × AllNew [] results
unique_emails-AllNew_example = unique_emails-AllNew 4 three_times [] (omega arith)

-- ===== src/Print/Tests.antt =====
-- The theorems on printint and atoi at the largest int and at a number in base 16.
use project.Base.{◌-◌, ◌^◌, ◌≤◌, ◌≡◌, refl, true, false, [], ◌∷◌, arith, inr}
use project.Base.Lists.{length}
use project.Print.{printint, buf_of, atoi}
use project.Print.Number.{atoi-printint, length-buf_of}

-- 4095 is FFF.
print_hex : printint 4095 16 false ≡ 70 ∷ 70 ∷ 70 ∷ []
unfolding printint buf_of
print_hex = refl

-- -120.
print_negative : printint (2 ^ 32 - 120) 10 true ≡ 45 ∷ 49 ∷ 50 ∷ 48 ∷ []
unfolding printint buf_of
print_negative = refl

atoi-printint_example : atoi (printint 2147483647 10 true) ≡ 2147483647
atoi-printint_example = atoi-printint 2147483647 true (omega arith)

length-buf_of_example : length (buf_of 4294967295 16 false) ≤ 11
length-buf_of_example = length-buf_of 4294967295 16 false (omega arith) (inr refl)

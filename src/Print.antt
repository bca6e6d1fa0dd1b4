-- ===== src/Print.antt =====
-- printint of user/printf.c and atoi of user/ulib.c. A string is the list of its bytes before the
-- terminating 0, and what is printed is the list of the bytes that putc is called for.
pub mod Number
mod Tests
use project.Base.{
  ℕ, zero, suc, ◌+◌, ◌-◌, ◌*◌, ◌/◌, ◌%◌, ◌^◌, Bool, true, false, ◌&&◌, List, [], ◌∷◌, ◌++◌, ltb,
  leb, ◌==◌, if◌then◌else◌,
}

-- The string of the digits.
abbrev pub digits : ℕ → ℕ
digits d = if ltb d 10 then 48 + d else 55 + d

-- The loop that fills buf; an uint has at most 32 digits.
abbrev pub fill_buf : (fuel base x : ℕ) → List ℕ
fill_buf zero base x = []
fill_buf (suc fuel) base x =
    let rest = fill_buf fuel base (x / base) in
    digits (x % base) ∷ (if x / base == 0 then [] else rest)

-- The last loop: buf backwards, in front of what was printed behind.
abbrev pub put_back : (buf behind : List ℕ) → List ℕ
put_back [] behind = behind
put_back (c ∷ buf) behind = put_back buf (c ∷ behind)

abbrev pub minus : ℕ
minus = 45

-- Whether an int is negative that is to be printed with its sign.
abbrev pub neg : ℕ → Bool → Bool
neg xx sgn = sgn && leb (2 ^ 31) xx

-- All that printint has put into buf.
unfoldable pub buf_of : (xx base : ℕ) → Bool → List ℕ
buf_of xx base sgn =
    fill_buf 32 base (if neg xx sgn then (2 ^ 32 - xx) % 2 ^ 32 else xx)
    ++ (if neg xx sgn then minus ∷ [] else [])

unfoldable pub printint : (xx base : ℕ) → Bool → List ℕ
printint xx base sgn = put_back (buf_of xx base sgn) []

abbrev pub is_digit : ℕ → Bool
is_digit c = leb 48 c && leb c 57

-- The loop of atoi.
abbrev pub atoi_from : ℕ → List ℕ → ℕ
atoi_from n [] = n
atoi_from n (c ∷ s) =
    let rest = atoi_from ((n * 10 + c - 48) % 2 ^ 32) s in if is_digit c then rest else n

abbrev pub atoi : List ℕ → ℕ
atoi s = atoi_from 0 s

-- ===== src/CString/Move.antt =====
-- memset and memmove of kernel/string.c: the memory that they leave, at every address.
use project.Base.{
  ℕ, zero, suc, ◌+◌, ◌-◌, ◌%◌, ◌^◌, ◌<◌, ◌≡◌, false, ◌&&◌, arith, ltb, leb, ◌==◌, if◌then◌else◌,
  inl, inr, Bool-cases,
}
use project.CString.{Memory, set_byte, memset, fill_from, memmove, copy_forward, copy_backward}

fill_from_lem :
    (dst c i left : ℕ) (mem : Memory) (a : ℕ)
    → fill_from dst c i left mem a
      ≡ (if leb (dst + i) a && ltb a (dst + i + left) then c % 2 ^ 8 else mem a)
unfolding fill_from
fill_from_lem dst c i zero mem a = ground arith
fill_from_lem dst c i (suc left) mem a =
    ground (arith, fill_from_lem dst c (i + 1) left (set_byte mem (dst + i) (c % 2 ^ 8)) a)

-- memset makes the n bytes from dst on the byte c, and changes no other.
pub memset_lem :
    (dst c n : ℕ) (mem : Memory) (a : ℕ)
    → memset dst c n mem a ≡ (if leb dst a && ltb a (dst + n) then c % 2 ^ 8 else mem a)
unfolding memset
memset_lem dst c n mem a = ground (arith, fill_from_lem dst c 0 n mem a)

still_apart :
    (d s n : ℕ)
    → (ltb s d && ltb d (s + suc n)) ≡ false
    → (ltb (s + 1) (d + 1) && ltb (d + 1) (s + 1 + n)) ≡ false
still_apart d s n apart = ground arith

-- One byte is copied, and then the others, of which none comes from where it went.
forward_step :
    (d s n : ℕ) (mem : Memory) (a v : ℕ)
    → (ltb s d && ltb d (s + suc n)) ≡ false
    → v ≡ (
        if leb (d + 1) a && ltb a (d + 1 + n)
        then set_byte mem d (mem s) (s + 1 + (a - (d + 1)))
        else set_byte mem d (mem s) a)
    → v ≡ (if leb d a && ltb a (d + suc n) then mem (s + (a - d)) else mem a)
forward_step d s n mem a v apart h = ground arith

copy_forward_lem :
    (d s n : ℕ) (mem : Memory) (a : ℕ)
    → (ltb s d && ltb d (s + n)) ≡ false
    → copy_forward d s n mem a ≡ (if leb d a && ltb a (d + n) then mem (s + (a - d)) else mem a)
unfolding copy_forward
copy_forward_lem d s zero mem a apart = ground arith
copy_forward_lem d s (suc n) mem a apart =
    forward_step d s n mem a (copy_forward (d + 1) (s + 1) n (set_byte mem d (mem s)) a) apart
      (copy_forward_lem (d + 1) (s + 1) n (set_byte mem d (mem s)) a (still_apart d s n apart))

copy_backward_lem :
    (d s n : ℕ) (mem : Memory) (a : ℕ)
    → s < d
    → copy_backward (d + n) (s + n) n mem a
      ≡ (if leb d a && ltb a (d + n) then mem (s + (a - d)) else mem a)
unfolding copy_backward
copy_backward_lem d s zero mem a above = ground arith
copy_backward_lem d s (suc n) mem a above =
    let to : d + suc n - 1 ≡ d + n = omega arith in
    let from : s + suc n - 1 ≡ s + n = omega arith in
    rw to (
      rw from
        (ground (arith, copy_backward_lem d s n (set_byte mem (d + n) (mem (s + n))) a above)))

-- memmove, also where the areas overlap: the n bytes from dst on are those that were at src, and no
-- other byte changes.
pub memmove_lem :
    (dst src n : ℕ) (mem : Memory) (a : ℕ)
    → memmove dst src n mem a
      ≡ (if leb dst a && ltb a (dst + n) then mem (src + (a - dst)) else mem a)
unfolding memmove
memmove_lem dst src n mem a = elim (Bool-cases (n == 0)) [
  | inl h ↦ rw h (ground arith)
  | inr h ↦ elim (Bool-cases (ltb src dst && ltb dst (src + n))) [
    | inl over ↦ rw h (rw over (copy_backward_lem dst src n mem a (ground arith)))
    | inr apart ↦ rw h (rw apart (copy_forward_lem dst src n mem a apart))
  ]
]

-- ===== src/CString.antt =====
-- kernel/string.c: the memory routines, on a memory of bytes. A uint count is a number.
pub mod Move
mod Tests
use project.Base.{
  ℕ, zero, suc, ◌+◌, ◌-◌, ◌%◌, ◌^◌, Bool, true, false, not, ◌&&◌, ltb, ◌==◌, if◌then◌else◌,
}

abbrev pub Memory : Type 0
Memory = ℕ → ℕ

abbrev pub set_byte : Memory → ℕ → ℕ → Memory
set_byte mem a x b = if b == a then x else mem b

-- The loop of memset, with the number of passes that are left; `c` is converted to char.
unfoldable pub fill_from : ℕ → ℕ → ℕ → ℕ → Memory → Memory
fill_from dst c i zero mem = mem
fill_from dst c i (suc left) mem = fill_from dst c (i + 1) left (set_byte mem (dst + i) (c % 2 ^ 8))

unfoldable pub memset : ℕ → ℕ → ℕ → Memory → Memory
memset dst c n mem = fill_from dst c 0 n mem

-- The loops of memmove: *--d = *--s and *d++ = *s++.
unfoldable pub copy_backward : ℕ → ℕ → ℕ → Memory → Memory
copy_backward d s zero mem = mem
copy_backward d s (suc n) mem = copy_backward (d - 1) (s - 1) n (set_byte mem (d - 1) (mem (s - 1)))

unfoldable pub copy_forward : ℕ → ℕ → ℕ → Memory → Memory
copy_forward d s zero mem = mem
copy_forward d s (suc n) mem = copy_forward (d + 1) (s + 1) n (set_byte mem d (mem s))

unfoldable pub memmove : ℕ → ℕ → ℕ → Memory → Memory
memmove dst src n mem =
    if n == 0
    then mem
    else (if ltb src dst && ltb dst (src + n)
        then copy_backward (dst + n) (src + n) n mem
        else copy_forward dst src n mem)

unfoldable pub memcpy : ℕ → ℕ → ℕ → Memory → Memory
memcpy dst src n mem = memmove dst src n mem

-- memcmp, with the int result as its 32-bit pattern.
unfoldable pub memcmp : ℕ → ℕ → ℕ → Memory → ℕ
memcmp s1 s2 zero mem = 0
memcmp s1 s2 (suc n) mem =
    let rest = memcmp (s1 + 1) (s2 + 1) n mem in
    if mem s1 == mem s2 then rest else (mem s1 + 2 ^ 32 - mem s2) % 2 ^ 32

unfoldable pub strncmp : ℕ → ℕ → ℕ → Memory → ℕ
strncmp p q zero mem = 0
strncmp p q (suc n) mem =
    let rest = strncmp (p + 1) (q + 1) n mem in
    if not (mem p == 0) && (mem p == mem q) then rest else (mem p + 2 ^ 32 - mem q) % 2 ^ 32

-- The loop of safestrcpy with `left` more bytes before the last, and the 0 that it writes then.
unfoldable pub safe_copy : ℕ → ℕ → ℕ → Memory → Memory
safe_copy s t zero mem = set_byte mem s 0
safe_copy s t (suc left) mem =
    let rest = safe_copy (s + 1) (t + 1) left (set_byte mem s (mem t)) in
    if mem t == 0 then set_byte (set_byte mem s (mem t)) (s + 1) 0 else rest

unfoldable pub safestrcpy : ℕ → ℕ → ℕ → Memory → Memory
safestrcpy s t n mem = if ltb n (2 ^ 31) && ltb 0 n then safe_copy s t (n - 1) mem else mem

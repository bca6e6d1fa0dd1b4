-- ===== src/CString/Tests.antt =====
-- The theorems on kernel/string.c where the areas of a move overlap.
use project.Base.{◌+◌, ◌-◌, ◌≡◌, ◌&&◌, leb, ltb, if◌then◌else◌}
use project.CString.{Memory, memset, memmove}
use project.CString.Move.{memset_lem, memmove_lem}

abbrev numbered : Memory
numbered a = a

memset_lem_example :
    memset 10 300 4 numbered 12 ≡ (if leb 10 12 && ltb 12 (10 + 4) then 44 else numbered 12)
memset_lem_example = memset_lem 10 300 4 numbered 12

memmove_lem_example :
    memmove 12 10 4 numbered 13
    ≡ (if leb 12 13 && ltb 13 (12 + 4) then numbered (10 + (13 - 12)) else numbered 13)
memmove_lem_example = memmove_lem 12 10 4 numbered 13

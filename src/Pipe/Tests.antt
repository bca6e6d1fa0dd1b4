-- ===== src/Pipe/Tests.antt =====
-- The theorems on kernel/pipe.c at an empty pipe whose counters are about to wrap, and after two
-- bytes are in.
use project.Base.{◌+◌, ◌-◌, ◌^◌, ◌≡◌, refl, ℕ, Bool, true, false, Option, some, [], ◌∷◌, arith}
use project.Pipe.{
  Pipe, acquire_pipe, put, Outcome, returned, finish, readers, write_again, pipewrite, piperead,
}
use project.Pipe.Contents.{Bounded, contents, contents-put}
use project.Pipe.Write.{Written, write_again-Written}
use project.Pipe.Read.{Answered, piperead-Answered}

abbrev fresh : Pipe
fresh = record {
  bytes = λ _. 0;
  nread = 2 ^ 32 - 1;
  nwrite = 2 ^ 32 - 1;
  readopen = true;
  writeopen = true;
  locked = false;
  woken = [];
}

fresh-Bounded : Bounded fresh
fresh-Bounded = record {
  nread_bound = omega arith;
  nwrite_bound = omega arith;
  size_bound = omega arith;
}

abbrev copyin : ℕ → Option ℕ
copyin a = some (a + 1)

abbrev never : ℕ → Bool
never i = false

abbrev writable : ℕ → Bool
writable a = true

abbrev two : Pipe
two = put 8 (put 7 fresh)

two-Bounded : Bounded two
two-Bounded = (contents-put 8 (put 7 fresh) (contents-put 7 fresh fresh-Bounded refl).0 refl).0

contents-two : contents two ≡ 7 ∷ 8 ∷ []
contents-two = refl

-- Two bytes are written at the addresses 10 and 11, and the write counter wraps to 1.
pipewrite-two :
    pipewrite copyin never 10 2 fresh ≡ returned 2 [] (finish readers (put 12 (put 11 fresh)))
unfolding pipewrite write_again project.Pipe.write_loop
pipewrite-two = refl

write_again-Written_example :
    Written copyin never 10 0 2 (acquire_pipe fresh) (write_again copyin never 10 2 0 fresh)
write_again-Written_example = write_again-Written copyin never 10 2 0 fresh fresh-Bounded

piperead-Answered_example :
    Answered writable 20 false 3 (acquire_pipe two) (piperead writable false 20 3 two)
piperead-Answered_example = piperead-Answered writable 20 false 3 two two-Bounded

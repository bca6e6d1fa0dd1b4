-- ===== src/Proc/Fork.antt =====
-- fork of kernel/proc.c: the child that it makes.
use project.Base.{
  ℕ, ◌-◌, ◌≡◌, refl, ◌∙◌, ap, Bool, true, false, Option, none, some, List, [], ◌∷◌, ◌++◌, arith,
  ◌==◌, ==-refl,
}
use mathlib.Core.List.{append_assoc, append-nil}
use project.Base.Lists.{take}
use project.Proc.State.{
  unused, runnable, Proc, Kernel, Call, filedup, idup, Held, proc_lock, ok, and_then, update,
  update-update, update_self,
}
use project.Proc.Sched.{same_state, myproc-run}
use project.Proc.Family.{dup_files, fork_child, fork_alloced, fork}
use project.Proc.Invariant.{WellFormed, Returns, returns}
use project.Proc.Queues.{
  made_runnable, made_runnable-WellFormed, update-WellFormed, calls-WellFormed,
}
use project.Proc.Birth.{born, allocproc-run, born-WellFormed, allocproc-none}

-- The child's open files: the parent's where it has one, else its own entry; and the references
-- that are taken.
abbrev pub dup_entries : List (Option ℕ) → List (Option ℕ) → List (Option ℕ)
dup_entries [] ds = ds
dup_entries (f ∷ fs) [] = []
dup_entries (none ∷ fs) (d ∷ ds) = d ∷ dup_entries fs ds
dup_entries (some f ∷ fs) (d ∷ ds) = some f ∷ dup_entries fs ds

abbrev pub dup_calls : List (Option ℕ) → List (Option ℕ) → List Call
dup_calls [] ds = []
dup_calls (f ∷ fs) [] = []
dup_calls (none ∷ fs) (d ∷ ds) = dup_calls fs ds
dup_calls (some f ∷ fs) (d ∷ ds) = filedup f ∷ dup_calls fs ds

pub dup_files-run :
    (fs ds : List (Option ℕ)) (k : Kernel) (held : Held)
    → dup_files fs ds k held
      ≡ ok (dup_entries fs ds) (record k { calls = k.calls ++ dup_calls fs ds }) held
unfolding dup_files
dup_files-run [] ds k held = simp append-nil
dup_files-run (f ∷ fs) [] k held = simp append-nil
dup_files-run (none ∷ fs) (d ∷ ds) k held = simp (dup_files-run fs ds)
dup_files-run (some f ∷ fs) (d ∷ ds) k held = simp (dup_files-run fs ds, append_assoc)

-- The child's slot when fork is done.
abbrev pub child : (x y : Proc) (p d : ℕ) → Proc
child x y p d = record y {
  sz = x.sz;
  ofile = dup_entries x.ofile y.ofile;
  cwd = some d;
  name = take (16 - 1) x.name;
  parent = some p;
}

-- The state after a fork by `p`, in directory `d`, into the slot `np` of the container `c`.
abbrev pub child_calls : (k : Kernel) (p np d : ℕ) → List Call
child_calls k p np d = k.calls ++ (dup_calls (k.procs p).ofile (k.procs np).ofile ++ (idup d ∷ []))

abbrev pub with_child : (k : Kernel) (p np d : ℕ) → Kernel
with_child k p np d = record k {
  calls = child_calls k p np d;
  procs = update k.procs np (child (k.procs p) (k.procs np) p d);
}

abbrev pub forked : (k : Kernel) (p np c d : ℕ) → Kernel
forked k p np c d = made_runnable np c (with_child (born np c k) p np d)

-- What fork does once the child's slot is allocated and the memory copied.
fork_child-run :
    (k : Kernel) (p np c d : ℕ)
    → (k.procs p).cwd ≡ some d
    → fork_child p np c k (proc_lock np ∷ [])
      ≡ ok (some (k.procs np).pid) (made_runnable np c (with_child k p np d)) []
unfolding fork_child
fork_child-run k p np c d dir = simp (dup_files-run, dir, ==-refl, update-update, append_assoc)

module _ (k : Kernel) (p np c d : ℕ) (rest : List ℕ) (now : k.current ≡ some p)
    (first : k.unused_list ≡ np ∷ rest) (dir : (k.procs p).cwd ≡ some d)
    (apart : (p == np) ≡ false) where
  fork-run : fork true true true c k [] ≡ ok (some (k.conts c).nextpid) (forked k p np c d) []
  unfolding fork fork_alloced
  fork-run =
      myproc-run k [] p _ now
      ∙ ap (λ r. and_then r (fork_alloced true p c)) (allocproc-run k np c rest first)
      ∙ fork_child-run (born np c k) p np c d (rw apart dir)
      ∙ ap (λ x. ok (some x.pid) (forked k p np c d) []) (update_self k.procs np _)

  module _ (v : WellFormed k) (live : same_state (k.conts c).state unused ≡ false) where
    born-valid : WellFormed (born np c k)
    born-valid = born-WellFormed k np c rest first v live

    forked-WellFormed : WellFormed (forked k p np c d)
    forked-WellFormed =
        made_runnable-WellFormed (with_child (born np c k) p np d)
          (calls-WellFormed _ (child_calls (born np c k) p np d) (
            update-WellFormed (born np c k) born-valid np
              (child ((born np c k).procs p) ((born np c k).procs np) p d) refl refl refl))
          np c (ground arith) (ground arith) (ground arith)

-- The child of a fork by `p`, in directory `d`, into the container `c`.
pub record IsChild (x parent : Proc) (p c d pid : ℕ) : Type 0 where
  pub state : x.state ≡ runnable
  pub pid_given : x.pid ≡ pid
  pub parent_is : x.parent ≡ some p
  pub contp : x.contp ≡ some c
  pub sz : x.sz ≡ parent.sz
  pub name : x.name ≡ take 15 parent.name
  pub cwd : x.cwd ≡ some d

-- fork by the running process, with a free slot, with memory for the child and no lock held,
-- neither panics nor faults and releases all locks. It returns the container's next pid; the first
-- free slot has become a RUNNABLE child of the caller in that container, with the size and the
-- directory of the caller and its name cut to 15 characters; a reference to each open file and to
-- the directory of the parent has been taken; no other process has changed; and the queues still
-- agree with the states, so the child is queued.
pub fork-Returns :
    (k : Kernel) (p np c d : ℕ) (rest : List ℕ)
    → WellFormed k
    → k.current ≡ some p
    → k.unused_list ≡ np ∷ rest
    → (k.procs p).cwd ≡ some d
    → same_state (k.procs p).state unused ≡ false
    → same_state (k.conts c).state unused ≡ false
    → Returns
        (λ r k' held.
          WellFormed k'
          × (r ≡ some (k.conts c).nextpid)
          × (held ≡ [])
          × IsChild (k'.procs np) (k.procs p) p c d (k.conts c).nextpid
          × (k'.calls
              ≡ k.calls ++ (dup_calls (k.procs p).ofile (k.procs np).ofile ++ (idup d ∷ [])))
          × ((q : ℕ) → (q == np) ≡ false → k'.procs q ≡ k.procs q))
        (fork true true true c k [])
fork-Returns k p np c d rest v now first dir alive live =
    rw (fork-run k p np c d rest now first dir apart) (
      returns (
        forked-WellFormed k p np c d rest now first dir apart v live,
        refl,
        refl,
        ground arith,
        ground (arith, ap (λ x. x.ofile) (update_self k.procs np (k.procs np))),
        λ q other. ground arith,
      ))
  where
    apart : (p == np) ≡ false
    apart = ground (arith, v.unused_exact p, v.unused_exact np)

-- With no free process slot fork fails and changes nothing.
pub fork-none :
    (k : Kernel) (p c : ℕ) (trapframe_ok pagetable_ok copy_ok : Bool)
    → k.current ≡ some p
    → k.unused_list ≡ []
    → fork trapframe_ok pagetable_ok copy_ok c k [] ≡ ok none k []
unfolding fork fork_alloced
fork-none k p c trapframe_ok pagetable_ok copy_ok now full =
    myproc-run k [] p _ now
    ∙ ap (λ r. and_then r (fork_alloced copy_ok p c))
        (allocproc-none k c trapframe_ok pagetable_ok full)

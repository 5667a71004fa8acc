-- ===== src/Process/Alloc.antt =====
-- `allocproc`, `nicefork` and `fork` of proc.c. What `kalloc` and `copyuvm` return, and the values of
-- `ticks` that are read, are arguments.
pub mod Fork
pub mod Result
use bf_scheduler.Common.{ℕ, Bool, Option, none, some, ◌||◌, if◌then◌else◌, Outcome, done, ◌>>=◌}
use bf_scheduler.Common.Int.{ℤ, pos, ◌+ℤ◌, ltb_ℤ}
use bf_scheduler.SkipList.{nproc, minus_one}
use bf_scheduler.Process.{
  ProcState, unused, embryo, runnable, same_state, Proc, Kernel, acquire_ptable, release_ptable,
  set_proc,
}
use bf_scheduler.Process.Scan.{first_from}
use bf_scheduler.Process.Deadline.{virtual_deadline, nice_first_level, nice_last_level}

-- The slot taken under the lock: the first one that is UNUSED gets the next pid.
unfoldable pub claim : Kernel → Option ℕ × Kernel
unfolding set_proc ◌+ℤ◌
claim k = elim (first_from (λ i. same_state (k.proc i).state unused) nproc 0) [
  | none ↦ (none, k)
  | some i ↦ (
    some i,
    record (set_proc k i (record (k.proc i) { state = embryo; pid = k.nextpid })) {
      nextpid = k.nextpid +ℤ pos 1;
    },
  )
]

-- The rest of `allocproc`, for the slot `i`: its kernel stack, niceness and deadline.
unfoldable pub prepare : ℕ → Option ℕ → ℕ → Kernel → Option ℕ × Kernel
unfolding set_proc
prepare ticks none i k = (none, set_proc k i (record (k.proc i) { kstack = none; state = unused }))
prepare ticks (some page) i k = (
  some i,
  set_proc k i (record (k.proc i) {
    kstack = some page;
    niceness = pos 0;
    vdeadline = virtual_deadline ticks (pos 0);
  }),
)

-- `allocproc`, where `kalloc` returns `page`.
unfoldable pub allocproc : ℕ → Option ℕ → Kernel → Outcome (Option ℕ × Kernel)
allocproc ticks page k = acquire_ptable k >>= λ k1.
    let (slot, k2) = claim k1 in
    release_ptable k2 >>= λ k3.
    done (elim slot [ none ↦ (none, k3) | some i ↦ prepare ticks page i k3 ])

-- `nicefork` once it has a slot `i`, where `copyuvm` returns `pgdir`.
unfoldable pub fill_child : ℕ → ℤ → ℕ → Option ℕ → ℕ → Kernel → Outcome (ℤ × Kernel)
unfolding set_proc
fill_child ticks nice cur none i k =
    done
      (minus_one, set_proc k i (record (k.proc i) { pgdir = none; kstack = none; state = unused }))
fill_child ticks nice cur (some pgdir) i k =
    let k1 = set_proc k i (record (k.proc i) {
      pgdir = some pgdir;
      sz = (k.proc cur).sz;
      parent = some cur;
      niceness = nice;
      vdeadline = virtual_deadline ticks nice;
    }) in
    acquire_ptable k1 >>= λ k2.
    release_ptable (set_proc k2 i (record (k2.proc i) { state = runnable })) >>= λ k3.
    done ((k1.proc i).pid, k3)

-- `nicefork`, called by the process `cur`; `ticks'` is the later reading of the clock.
unfoldable pub nicefork :
    (ticks ticks' : ℕ) → Option ℕ → Option ℕ → ℕ → ℤ → Kernel → Outcome (ℤ × Kernel)
nicefork ticks ticks' page pgdir cur nice k =
    if ltb_ℤ nice nice_first_level || ltb_ℤ nice_last_level nice
    then done (minus_one, k)
    else (allocproc ticks page k >>= λ (slot, k'). elim slot [
      | none ↦ done (minus_one, k')
      | some i ↦ fill_child ticks' nice cur pgdir i k'
    ])

-- `fork`
unfoldable pub fork : (ticks ticks' : ℕ) → Option ℕ → Option ℕ → ℕ → Kernel → Outcome (ℤ × Kernel)
fork ticks ticks' page pgdir cur k = nicefork ticks ticks' page pgdir cur (pos 0) k

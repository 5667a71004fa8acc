-- ===== src/Process/Wait.antt =====
-- `wait` of proc.c: one scan of the table for children, and the sleep between two scans.
pub mod Effect
use bf_scheduler.Common.{
  ℕ, zero, suc, Bool, true, false, not, Option, none, some, ◌&&◌, ◌||◌, ◌==◌, if◌then◌else◌,
  Outcome, done, ◌>>=◌,
}
use bf_scheduler.Common.Int.{ℤ, pos}
use bf_scheduler.SkipList.{nproc, minus_one}
use bf_scheduler.Process.{
  unused, zombie, same_state, of_proc, Proc, Kernel, acquire_ptable, release_ptable, set_proc,
}
use bf_scheduler.Process.Exit.{is_child}
use bf_scheduler.Process.Switch.{ptable_lock, sleep_enter, sleep_leave}

-- The scan of the `n` processes from `i`: whether there are children, and the first that has exited.
unfoldable pub scan_children : ℕ → (ℕ → Proc) → ℕ → ℕ → Bool → Bool × Option ℕ
scan_children cur p zero i havekids = (havekids, none)
scan_children cur p (suc n) i havekids =
    let rest = scan_children cur p n (suc i) (havekids || is_child cur (p i)) in
    if is_child cur (p i) && same_state (p i).state zombie then (true, some i) else rest

-- What becomes of the slot of a child that has exited.
unfoldable pub reap : Proc → Proc
reap p = record p { kstack = none; pid = pos 0; parent = none; killed = 0; state = unused }

-- One scan under the lock: the result of `wait`, or nothing if it has gone to sleep.
unfoldable pub wait_round : ℕ → Kernel → Outcome (Option ℤ × Kernel)
unfolding set_proc
wait_round cur k = elim (scan_children cur k.proc nproc 0 false).1 [
  | some i ↦
      release_ptable (set_proc k i (reap (k.proc i))) >>= λ k'. done (some (k.proc i).pid, k')
  | none ↦
      if not (scan_children cur k.proc nproc 0 false).0 || not ((k.proc cur).killed == 0)
      then (release_ptable k >>= λ k'. done (some minus_one, k'))
      else (sleep_enter (some cur) (of_proc cur) ptable_lock k >>= λ (lk, k'). done (none, k'))
]

-- `wait` up to its return or its first sleep, and from a wakeup to its return or the next sleep.
unfoldable pub wait_begin : ℕ → Kernel → Outcome (Option ℤ × Kernel)
wait_begin cur k = acquire_ptable k >>= λ k'. wait_round cur k'

unfoldable pub wait_resume : ℕ → Kernel → Outcome (Option ℤ × Kernel)
wait_resume cur k = sleep_leave cur ptable_lock k >>= λ (lk, k'). wait_round cur k'

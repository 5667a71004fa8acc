-- ===== src/Process/Signal.antt =====
-- `wakeup1`, `wakeup` and `kill` of proc.c.
pub mod Effect
use bf_scheduler.Common.{
  ℕ, Bool, Option, none, some, ◌&&◌, ltb, if◌then◌else◌, Outcome, done, ◌>>=◌,
}
use bf_scheduler.Common.Int.{ℤ, pos, eqb_ℤ}
use bf_scheduler.SkipList.{nproc, minus_one}
use bf_scheduler.Process.{
  ProcState, sleeping, runnable, same_state, Chan, same_chan, Proc, Kernel, acquire_ptable,
  release_ptable, set_proc,
}
use bf_scheduler.Process.Scan.{first_from}

-- The body of the loop in `wakeup1`.
unfoldable pub wake : Chan → Proc → Proc
wake chan p =
    if same_state p.state sleeping && same_chan p.chan chan
    then record p { state = runnable }
    else p

-- `wakeup1`
unfoldable pub wakeup1 : Chan → Kernel → Kernel
unfolding wake
wakeup1 chan k = record k { proc = λ i. if ltb i nproc then wake chan (k.proc i) else k.proc i }

-- `wakeup`
unfoldable pub wakeup : Chan → Kernel → Outcome Kernel
wakeup chan k = acquire_ptable k >>= λ k'. release_ptable (wakeup1 chan k')

-- What `kill` does to the process that it finds.
unfoldable pub signal : Proc → Proc
signal p = record p {
  killed = 1;
  state = if same_state p.state sleeping then runnable else p.state;
}

-- `kill` under the lock.
unfoldable pub kill_locked : ℤ → Kernel → ℤ × Kernel
unfolding signal set_proc
kill_locked pid k = elim (first_from (λ i. eqb_ℤ (k.proc i).pid pid) nproc 0) [
  | none ↦ (minus_one, k)
  | some i ↦ (pos 0, set_proc k i (signal (k.proc i)))
]

-- `kill`
unfoldable pub kill : ℤ → Kernel → Outcome (ℤ × Kernel)
kill pid k = acquire_ptable k >>= λ k'.
    let (r, k'') = kill_locked pid k' in release_ptable k'' >>= λ k'''. done (r, k''')

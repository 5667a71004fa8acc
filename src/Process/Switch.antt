-- ===== src/Process/Switch.antt =====
-- `sched`, `yield` and `sleep` of proc.c, each up to its `swtch`, and what `sleep` does once it runs
-- again. The process `cur` runs on the CPU.
pub mod Effect
use bf_scheduler.Common.{
  ℕ, Bool, true, false, Option, none, some, not, ◌==◌, if◌then◌else◌, Outcome, done, panicked,
  ◌>>=◌,
}
use bf_scheduler.Common.Int.{ℤ, pos, eqb_ℤ, ltb_ℤ}
use bf_scheduler.Spinlock.{Spinlock, holding, acquire, release}
use bf_scheduler.Process.{
  sleeping, runnable, running, same_state, Chan, no_chan, Proc, Kernel, acquire_ptable,
  release_ptable, set_proc,
}
use bf_scheduler.Process.Deadline.{virtual_deadline}

-- `sched`: its checks. The kernel that it returns is the one that `swtch` leaves.
unfoldable pub sched : ℕ → Kernel → Outcome Kernel
unfolding holding
sched cur k = holding k.lock k.cpu >>= λ (held, c).
    if not held
    then panicked
    else if not (c.ncli == 1)
    then panicked
    else if same_state (k.proc cur).state running
    then panicked
    else if c.interrupts
    then panicked
    else done (record k { cpu = c })

-- What `yield` writes to its process.
unfoldable pub requeue : ℕ → Proc → Proc
requeue ticks p = record p {
  state = runnable;
  vdeadline = if ltb_ℤ (pos 0) p.ticks_left then p.vdeadline else virtual_deadline ticks p.niceness;
}

-- `yield`
unfoldable pub yield_cpu : ℕ → ℕ → Kernel → Outcome Kernel
unfolding set_proc
yield_cpu ticks cur k =
    acquire_ptable k >>= λ k'. sched cur (set_proc k' cur (requeue ticks (k'.proc cur)))

-- The argument `lk` of `sleep`: null, `&ptable.lock`, or the lock of some other object.
pub data LockArg : Type 0 where
  null_lock : LockArg
  ptable_lock : LockArg
  other_lock : Spinlock → LockArg

-- `p->chan = chan; p->state = SLEEPING; sched();`
unfoldable pub fall_asleep : ℕ → Chan → Kernel → Outcome Kernel
unfolding set_proc
fall_asleep cur chan k =
    sched cur (set_proc k cur (record (k.proc cur) { chan = chan; state = sleeping }))

-- The locks at the moment between the two calls, and what they leave.
pub record Handover : Type 0 where
  pub own_midway : Spinlock
  pub ptable_midway : Spinlock
  pub own : Spinlock
  pub kernel : Kernel

-- `acquire(&ptable.lock); release(lk);`
unfoldable pub change_locks : Spinlock → Kernel → Outcome Handover
change_locks lk k = acquire_ptable k >>= λ k1. release lk k1.cpu >>= λ (lk', c).
    done (record {
      own_midway = lk;
      ptable_midway = k1.lock;
      own = lk';
      kernel = record k1 { cpu = c };
    })

-- `sleep` up to `swtch`; `cur` is null if no process runs.
unfoldable pub sleep_enter : Option ℕ → Chan → LockArg → Kernel → Outcome (LockArg × Kernel)
sleep_enter none chan lk k = panicked
sleep_enter (some cur) chan null_lock k = panicked
sleep_enter (some cur) chan ptable_lock k = fall_asleep cur chan k >>= λ k'. done (ptable_lock, k')
sleep_enter (some cur) chan (other_lock lk) k =
    change_locks lk k >>= λ h. fall_asleep cur chan h.kernel >>= λ k2. done (other_lock h.own, k2)

-- `sleep` after `swtch` has come back.
unfoldable pub sleep_leave : ℕ → LockArg → Kernel → Outcome (LockArg × Kernel)
unfolding set_proc
sleep_leave cur null_lock k = panicked
sleep_leave cur ptable_lock k =
    done (ptable_lock, set_proc k cur (record (k.proc cur) { chan = no_chan }))
sleep_leave cur (other_lock lk) k =
    release_ptable (set_proc k cur (record (k.proc cur) { chan = no_chan })) >>= λ k1.
    acquire lk k1.cpu >>= λ (lk', c). done (other_lock lk', record k1 { cpu = c })

-- ===== src/Sleeplock.antt =====
-- sleeplock.c: long-term locks, for the process `cur`. The address of the lock is the channel that its
-- waiters sleep on. `acquiresleep` runs up to its return or to a `swtch` in `sleep`.
pub mod Effect
use bf_scheduler.Common.{
  ℕ, Bool, true, false, Option, none, some, ◌&&◌, if◌then◌else◌, Outcome, done, panicked, ◌>>=◌,
}
use bf_scheduler.Common.Int.{ℤ, pos, eqb_ℤ}
use bf_scheduler.Spinlock.{Spinlock, initlock, acquire, release}
use bf_scheduler.Process.{of_addr, Kernel}
use bf_scheduler.Process.Signal.{wakeup}
use bf_scheduler.Process.Switch.{
  LockArg, null_lock, ptable_lock, other_lock, sleep_enter, sleep_leave,
}

-- `struct sleeplock`, less its name.
pub record Sleeplock : Type 0 where
  pub locked : Bool
  pub lk : Spinlock
  pub pid : ℤ

-- `initsleeplock`
unfoldable pub initsleeplock : Sleeplock → Sleeplock
initsleeplock sl = record { locked = false; lk = initlock sl.lk; pid = pos 0 }

-- The spin lock that `sleep` hands back.
abbrev pub lock_of : LockArg → Spinlock → Spinlock
lock_of null_lock lk = lk
lock_of ptable_lock lk = lk
lock_of (other_lock l) lk = l

-- The loop of `acquiresleep` and what follows it, with `lk->lk` held: whether the lock was taken.
unfoldable pub take_sleeplock : ℕ → ℕ → Sleeplock → Kernel → Outcome (Bool × Sleeplock × Kernel)
take_sleeplock addr cur sl k =
    let waiting = sleep_enter (some cur) (of_addr addr) (other_lock sl.lk) k >>= λ (l, k').
    done (false, record sl { lk = lock_of l sl.lk }, k') in
    if sl.locked
    then waiting
    else (release sl.lk k.cpu >>= λ (l, c).
        done (true, record { locked = true; lk = l; pid = (k.proc cur).pid }, record k { cpu = c }))

-- `acquiresleep`, from its call and from a wakeup.
unfoldable pub acquiresleep : ℕ → ℕ → Sleeplock → Kernel → Outcome (Bool × Sleeplock × Kernel)
acquiresleep addr cur sl k = acquire sl.lk k.cpu >>= λ (l, c).
    take_sleeplock addr cur (record sl { lk = l }) (record k { cpu = c })

unfoldable pub acquiresleep_resume :
    ℕ → ℕ → Sleeplock → Kernel → Outcome (Bool × Sleeplock × Kernel)
acquiresleep_resume addr cur sl k = sleep_leave cur (other_lock sl.lk) k >>= λ (l, k').
    take_sleeplock addr cur (record sl { lk = lock_of l sl.lk }) k'

-- `releasesleep`
unfoldable pub releasesleep : ℕ → Sleeplock → Kernel → Outcome (Sleeplock × Kernel)
releasesleep addr sl k = acquire sl.lk k.cpu >>= λ (l, c).
    wakeup (of_addr addr) (record k { cpu = c }) >>= λ k'. release l k'.cpu >>= λ (l', c').
    done (record { locked = false; lk = l'; pid = pos 0 }, record k' { cpu = c' })

-- `holdingsleep`
unfoldable pub holdingsleep : ℕ → Sleeplock → Kernel → Outcome (Bool × Sleeplock × Kernel)
holdingsleep cur sl k = acquire sl.lk k.cpu >>= λ (l, c). release l c >>= λ (l', c').
    done (sl.locked && eqb_ℤ sl.pid (k.proc cur).pid, record sl { lk = l' }, record k { cpu = c' })

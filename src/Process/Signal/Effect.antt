-- ===== src/Process/Signal/Effect.antt =====
-- What `wakeup` and `kill` do to the table, on every branch.
use bf_scheduler.Common.{
  ℕ, ◌<◌, ◌≡◌, refl, true, false, arith, done, Option-cases, inl, inr, ◌==◌, update_self,
}
use bf_scheduler.Common.Int.{ℤ, pos, eqb_ℤ}
use bf_scheduler.SkipList.{nproc, minus_one}
use bf_scheduler.Process.{sleeping, runnable, same_state, Chan, same_chan, Proc, Kernel, set_proc}
use bf_scheduler.Process.Section.{
  IsIdle, Settled, entered, acquire_ptable-entered, settle, settle-Settled, release_ptable-settle,
}
use bf_scheduler.Process.Scan.{first_from, IsFirst, first_from-IsFirst, first_from-none}
use bf_scheduler.Process.Signal.{wakeup1, wakeup, signal, kill_locked, kill}

-- Exactly the processes of the table that sleep on the channel become RUNNABLE.
pub record Woken (chan : Chan) (p p' : ℕ → Proc) : Type 0 where
  pub woken :
      (i : ℕ)
      → i < nproc
      → (p i).state ≡ sleeping
      → same_chan (p i).chan chan ≡ true
      → p' i ≡ record (p i) { state = runnable }
  pub other_chan : (i : ℕ) → same_chan (p i).chan chan ≡ false → p' i ≡ p i
  pub awake : (i : ℕ) → same_state (p i).state sleeping ≡ false → p' i ≡ p i

pub wakeup1-Woken : (chan : Chan) (k : Kernel) → Woken chan k.proc (wakeup1 chan k).proc
unfolding wakeup1
wakeup1-Woken chan k = record {
  woken = λ i lt s c. ground arith;
  other_chan = λ i c. ground arith;
  awake = λ i s. ground arith;
}

wakeup1-lock : (chan : Chan) (k : Kernel) → (wakeup1 chan k).lock ≡ k.lock
unfolding wakeup1
wakeup1-lock chan k = refl

wakeup1-cpu : (chan : Chan) (k : Kernel) → (wakeup1 chan k).cpu ≡ k.cpu
unfolding wakeup1
wakeup1-cpu chan k = refl

wakeup_run :
    (chan : Chan) (k : Kernel)
    → IsIdle k
    → wakeup chan k ≡ done (settle k (wakeup1 chan (entered k)))
unfolding wakeup
wakeup_run chan k idle = rw (acquire_ptable-entered k idle) (
    release_ptable-settle k (wakeup1 chan (entered k)) idle (wakeup1-lock chan (entered k))
      (wakeup1-cpu chan (entered k)))

-- With `ptable.lock` free `wakeup` runs to its end, makes exactly the sleepers on the channel
-- RUNNABLE, and leaves the lock free, the nesting and the interrupt flag as they were.
pub wakeup-Woken :
    (chan : Chan) (k : Kernel)
    → IsIdle k
    → (k' : Kernel) × (wakeup chan k ≡ done k') × Woken chan k.proc k'.proc × Settled k k'
wakeup-Woken chan k idle = (
  settle k (wakeup1 chan (entered k)),
  wakeup_run chan k idle,
  wakeup1-Woken chan (entered k),
  settle-Settled k (wakeup1 chan (entered k)),
)

-- A process that has been marked; a sleeper can run, and no other field changes.
pub record Signalled (p p' : Proc) : Type 0 where
  pub marked : p'.killed ≡ 1
  pub awake : p.state ≡ sleeping → p'.state ≡ runnable
  pub kept : same_state p.state sleeping ≡ false → p'.state ≡ p.state
  pub rest : p' ≡ record p { killed = p'.killed; state = p'.state }

signal-Signalled : (p : Proc) → Signalled p (signal p)
unfolding signal
signal-Signalled p = record {
  marked = refl;
  awake = λ e. rw e refl;
  kept = λ e. rw e refl;
  rest = refl;
}

-- `kill` finds the first process with the pid, or none has it.
pub data Killed (pid : ℤ) (p p' : ℕ → Proc) (r : ℤ) : Type 0 where
  hit :
      (i : ℕ)
      → IsFirst (λ j. eqb_ℤ (p j).pid pid) 0 nproc i
      → r ≡ pos 0
      → Signalled (p i) (p' i)
      → ((j : ℕ) → (j == i) ≡ false → p' j ≡ p j)
      → Killed pid p p' r
  miss :
      ((j : ℕ) → j < nproc → eqb_ℤ (p j).pid pid ≡ false)
      → r ≡ minus_one
      → p' ≡ p
      → Killed pid p p' r

signal_found :
    (k : Kernel) (i : ℕ) → Signalled (k.proc i) ((set_proc k i (signal (k.proc i))).proc i)
unfolding set_proc
signal_found k i = rw (update_self k.proc i (signal (k.proc i))) (signal-Signalled (k.proc i))

kill_locked-Killed :
    (pid : ℤ) (k : Kernel) → Killed pid k.proc (kill_locked pid k).1.proc (kill_locked pid k).0
unfolding kill_locked
kill_locked-Killed pid k =
    elim (Option-cases (first_from (λ i. eqb_ℤ (k.proc i).pid pid) nproc 0)) [
      | inl e ↦
          miss
            (λ j lt.
              first_from-none (λ i. eqb_ℤ (k.proc i).pid pid) nproc 0 e j (omega arith)
                (omega arith))
            (rw (e, kill_locked)) (rw (e, kill_locked))
      | inr (i, e) ↦
          hit i (first_from-IsFirst (λ j. eqb_ℤ (k.proc j).pid pid) nproc 0 i e)
            (rw (e, kill_locked)) (rw (e, kill_locked) (signal_found k i))
            (λ j ne. rw (e, kill_locked) (ground arith))
    ]

kill_locked-lock : (pid : ℤ) (k : Kernel) → (kill_locked pid k).1.lock ≡ k.lock
unfolding kill_locked
kill_locked-lock pid k = ground arith

kill_locked-cpu : (pid : ℤ) (k : Kernel) → (kill_locked pid k).1.cpu ≡ k.cpu
unfolding kill_locked
kill_locked-cpu pid k = ground arith

kill_run :
    (pid : ℤ) (k : Kernel)
    → IsIdle k
    → kill pid k ≡ done ((kill_locked pid (entered k)).0, settle k (kill_locked pid (entered k)).1)
unfolding kill
kill_run pid k idle = rw (acquire_ptable-entered k idle) (
    rw (
      release_ptable-settle k (kill_locked pid (entered k)).1 idle
        (kill_locked-lock pid (entered k)) (kill_locked-cpu pid (entered k))))

-- With `ptable.lock` free `kill` runs to its end. If a process has the pid, the first one is
-- marked, made RUNNABLE if it sleeps, and the result is 0; otherwise the table stays and the result
-- is -1. The lock is free again, the nesting and the interrupt flag are as they were.
pub kill-Killed :
    (pid : ℤ) (k : Kernel)
    → IsIdle k
    → (r : ℤ) × (k' : Kernel) × (kill pid k ≡ done (r, k'))
      × Killed pid k.proc k'.proc r
      × Settled k k'
kill-Killed pid k idle = (
  (kill_locked pid (entered k)).0,
  settle k (kill_locked pid (entered k)).1,
  kill_run pid k idle,
  kill_locked-Killed pid (entered k),
  settle-Settled k (kill_locked pid (entered k)).1,
)

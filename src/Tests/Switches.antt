-- ===== src/Tests/Switches.antt =====
-- Sleeping, yielding, exiting and waiting at concrete kernels.
use bf_scheduler.Common.{true, ℕ, ◌≡◌, refl, false, some, arith, ◌==◌, done}
use bf_scheduler.Common.Int.{pos, ◌≤ℤ◌}
use bf_scheduler.Process.{running, runnable, of_addr, Kernel}
use bf_scheduler.Process.Deadline.{virtual_deadline}
use bf_scheduler.Process.Section.{IsIdle, held}
use bf_scheduler.Process.Signal.{wakeup}
use bf_scheduler.Process.Switch.{yield_cpu, other_lock, sleep_enter, Handover, change_locks}
use bf_scheduler.Process.Switch.Effect.{
  Asleep, HoldsOne, unlocked, wakeup-sleep_enter, yield_cpu-requeue,
}
use bf_scheduler.Process.Exit.{exit_proc}
use bf_scheduler.Process.Exit.Effect.{Exited, exit_proc-Exited}
use bf_scheduler.Process.Wait.Effect.{Result, wait_begin-Waited}
use bf_scheduler.Tests.{free_lock, kernel, nested_cpu}
use bf_scheduler.Sleeplock.{Sleeplock, acquiresleep}
use bf_scheduler.Sleeplock.Effect.{with_one, after_section, acquiresleep-Asleep}
use bf_scheduler.System.{count_quantum}
use bf_scheduler.System.Quantum.{with_ticks, count_quantum_lem}

abbrev locked_kernel : Kernel
locked_kernel = record kernel { cpu = nested_cpu }

kernel-IsIdle : IsIdle kernel
kernel-IsIdle = record { free = refl; masked = λ lt. absurd (omega arith) }

wakeup-sleep_enter_example :
    (k' : Kernel) × (sleep_enter (some 1) (of_addr 4096) (other_lock (held 0)) locked_kernel
      ≡ done (other_lock unlocked, k'))
    × ((h : Handover) × (change_locks (held 0) locked_kernel ≡ done h)
        × (h.own_midway.locked ≡ true)
        × (h.ptable_midway.locked ≡ true)
        × (h.own.locked ≡ false))
    × ((later : Kernel)
        → IsIdle later
        → later.proc 1 ≡ k'.proc 1
        → (woken : Kernel) × (wakeup (of_addr 4096) later ≡ done woken)
          × ((woken.proc 1).state ≡ runnable))
wakeup-sleep_enter_example =
    wakeup-sleep_enter 1 (of_addr 4096) (held 0) locked_kernel (omega arith)
      (record { ncli = refl; off = refl }) refl refl

yield_cpu-requeue_example :
    (k' : Kernel) × (yield_cpu 300 1 kernel ≡ done k')
    × HoldsOne k'.cpu
    × (k'.lock ≡ held kernel.cpu.id)
    × ((k'.proc 1).state ≡ runnable)
    × ((kernel.proc 1).ticks_left ≤ℤ pos 0
        → (k'.proc 1).vdeadline ≡ virtual_deadline 300 (kernel.proc 1).niceness)
    × (pos 1 ≤ℤ (kernel.proc 1).ticks_left → (k'.proc 1).vdeadline ≡ (kernel.proc 1).vdeadline)
    × ((j : ℕ) → (j == 1) ≡ false → k'.proc j ≡ kernel.proc j)
yield_cpu-requeue_example = yield_cpu-requeue 300 1 kernel kernel-IsIdle refl

exit_proc-Exited_example : (k' : Kernel) × (exit_proc 1 kernel ≡ done k') × Exited 1 kernel k'
exit_proc-Exited_example = exit_proc-Exited 1 kernel kernel-IsIdle refl refl

wait_begin-Waited_example : Result 0 kernel
wait_begin-Waited_example = wait_begin-Waited 0 kernel kernel-IsIdle refl

abbrev sleeplock : Sleeplock
sleeplock = record { locked = false; lk = free_lock; pid = pos 0 }

acquiresleep-Asleep_example :
    (sleeplock.locked ≡ false
      → acquiresleep 4096 1 sleeplock kernel
        ≡ done (
          true,
          record { locked = true; lk = unlocked; pid = (kernel.proc 1).pid },
          after_section kernel,
        ))
    × (sleeplock.locked ≡ true
        → (k' : Kernel) × (acquiresleep 4096 1 sleeplock kernel
            ≡ done (false, record sleeplock { lk = unlocked }, k'))
          × Asleep 1 (of_addr 4096) (with_one kernel) k')
acquiresleep-Asleep_example = acquiresleep-Asleep 4096 1 sleeplock kernel refl refl refl

-- Process 1 runs on its last tick.
abbrev last_tick : Kernel
last_tick = record kernel {
  proc = λ i. record (kernel.proc 1) { state = running; ticks_left = pos 1 };
}

last_tick-IsIdle : IsIdle last_tick
last_tick-IsIdle = record { free = refl; masked = kernel-IsIdle.masked }

count_quantum_lem_example :
    (pos 1 ≡ pos 2 → count_quantum 900 1 last_tick ≡ done (with_ticks last_tick 1 1))
    × (pos 1 ≡ pos 1
        → (k' : Kernel) × (count_quantum 900 1 last_tick ≡ done k')
          × ((k'.proc 1).state ≡ runnable)
          × ((k'.proc 1).vdeadline ≡ virtual_deadline 900 (last_tick.proc 1).niceness)
          × ((j : ℕ) → (j == 1) ≡ false → k'.proc j ≡ last_tick.proc j))
count_quantum_lem_example = count_quantum_lem 900 1 0 last_tick refl last_tick-IsIdle refl

-- ===== src/Tests/Locks.antt =====
-- The locks and the deadlines at concrete values.
use bf_scheduler.Common.{◌+◌, ◌≡◌, ◌↔◌, refl, false, arith, ◌&&◌, ◌==◌, done, panicked, ◌>>=◌}
use bf_scheduler.Common.Int.{pos, negsuc, ◌+ℤ◌}
use bf_scheduler.Spinlock.{Cpu, Spinlock, acquire, release}
use bf_scheduler.Spinlock.Nesting.{acquire_held, release_not_held, release_held, release-acquire}
use bf_scheduler.Process.Deadline.{
  virtual_deadline, documented_deadline, virtual_deadline-add, documented_deadline-eq_iff,
}
use bf_scheduler.Tests.{free_lock, lock_of_0, open_cpu, nested_cpu}

release-acquire_example :
    (lk' : Spinlock) × (c' : Cpu) × ((acquire free_lock open_cpu >>= λ (l, d). release l d)
      ≡ done (lk', c'))
    × (lk'.locked ≡ false)
    × (c'.ncli ≡ open_cpu.ncli)
    × (c'.interrupts ≡ open_cpu.interrupts)
release-acquire_example = release-acquire free_lock open_cpu refl (λ lt. absurd (omega arith))

acquire_held_example : acquire lock_of_0 nested_cpu ≡ panicked
acquire_held_example = acquire_held lock_of_0 nested_cpu refl refl

release_not_held_example : release free_lock nested_cpu ≡ panicked
release_not_held_example = release_not_held free_lock nested_cpu refl

release_held_example :
    (lk' : Spinlock) × (c' : Cpu) × (release lock_of_0 nested_cpu ≡ done (lk', c'))
    × (lk'.locked ≡ false)
    × (c'.id ≡ nested_cpu.id)
    × (c'.ncli + 1 ≡ nested_cpu.ncli)
    × (c'.intena ≡ nested_cpu.intena)
    × (c'.interrupts ≡ ((c'.ncli == 0) && nested_cpu.intena))
release_held_example = release_held lock_of_0 nested_cpu refl refl (omega arith) refl

virtual_deadline-add_example : virtual_deadline 300 (negsuc 4) ≡ pos (300 + 1050) +ℤ negsuc 4
virtual_deadline-add_example =
    virtual_deadline-add 300 (negsuc 4) (omega arith, omega arith) (omega arith)

documented_deadline-eq_iff_example :
    (virtual_deadline 300 (pos 19) ≡ documented_deadline 300 (pos 19)) ↔ (pos 19 ≡ pos 0)
documented_deadline-eq_iff_example =
    documented_deadline-eq_iff 300 (pos 19) (omega arith, omega arith) (omega arith)

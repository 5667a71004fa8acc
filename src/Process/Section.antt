-- ===== src/Process/Section.antt =====
-- Sections under `ptable.lock`: what they cost the CPU and the lock.
use bf_scheduler.Common.{
  ℕ, ◌+◌, ◌≡◌, refl, true, false, none, some, arith, ◌==◌, if◌then◌else◌, done,
}
use bf_scheduler.Spinlock.{Cpu, Spinlock, acquire, release}
use bf_scheduler.Spinlock.Nesting.{IsMasked}
use bf_scheduler.Process.{Kernel, acquire_ptable, release_ptable}

-- The lock is free, and interrupts are off if the CPU is inside a `pushcli`.
pub record IsIdle (k : Kernel) : Type 0 where
  pub free : k.lock.locked ≡ false
  pub masked : IsMasked k.cpu

abbrev pub held : ℕ → Spinlock
held id = record { locked = true; cpu = some id }

-- The CPU inside the section, and after it.
abbrev pub inside : Cpu → Cpu
inside c = record c {
  ncli = c.ncli + 1;
  intena = if c.ncli == 0 then c.interrupts else c.intena;
  interrupts = false;
}

abbrev pub outside : Cpu → Cpu
outside c = record c { intena = if c.ncli == 0 then c.interrupts else c.intena }

abbrev pub entered : Kernel → Kernel
entered k = record k { lock = held k.cpu.id; cpu = inside k.cpu }

pub acquire_ptable-entered : (k : Kernel) → IsIdle k → acquire_ptable k ≡ done (entered k)
unfolding acquire_ptable acquire
acquire_ptable-entered k idle = ground (arith, idle.free)

-- The end of a section that began at the CPU state `c`.
pub release_ptable-outside :
    (k : Kernel) (c : Cpu)
    → IsMasked c
    → k.lock ≡ held c.id
    → k.cpu ≡ inside c
    → release_ptable k
      ≡ done (record k { lock = record { locked = false; cpu = none }; cpu = outside c })
unfolding release_ptable release
release_ptable-outside k c masked l e = ground (arith, masked)

-- What an operation that runs one section leaves of the lock and the CPU.
pub record Settled (k k' : Kernel) : Type 0 where
  pub lock_free : k'.lock.locked ≡ false
  pub ncli : k'.cpu.ncli ≡ k.cpu.ncli
  pub interrupts : k'.cpu.interrupts ≡ k.cpu.interrupts
  pub id : k'.cpu.id ≡ k.cpu.id

-- The kernel after a section that left it as `k'`.
abbrev pub settle : Kernel → Kernel → Kernel
settle k k' = record k' { lock = record { locked = false; cpu = none }; cpu = outside k.cpu }

pub settle-Settled : (k k' : Kernel) → Settled k (settle k k')
settle-Settled k k' = record { lock_free = refl; ncli = refl; interrupts = refl; id = refl }

-- The lock is free again, so the next section runs.
pub settle-IsIdle : (k k' : Kernel) → IsIdle k → IsIdle (settle k k')
settle-IsIdle k k' idle = record { free = refl; masked = idle.masked }

pub release_ptable-settle :
    (k k' : Kernel)
    → IsIdle k
    → k'.lock ≡ held k.cpu.id
    → k'.cpu ≡ inside k.cpu
    → release_ptable k' ≡ done (settle k k')
release_ptable-settle k k' idle l e = release_ptable-outside k' k.cpu idle.masked l e

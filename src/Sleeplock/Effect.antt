-- ===== src/Sleeplock/Effect.antt =====
-- What taking a sleep lock does.
use bf_scheduler.Common.{ℕ, ◌≡◌, refl, arith, true, false, some, done, ◌∙◌}
use bf_scheduler.Spinlock.{Cpu, Spinlock, acquire, release}
use bf_scheduler.Process.{of_addr, Kernel}
use bf_scheduler.Process.Section.{held}
use bf_scheduler.Process.Switch.{other_lock, sleep_enter}
use bf_scheduler.Process.Switch.Effect.{Asleep, unlocked, sleep_enter-Asleep}
use bf_scheduler.Sleeplock.{Sleeplock, take_sleeplock, acquiresleep}

-- The kernel while the CPU, which held no lock, holds one.
abbrev pub with_one : Kernel → Kernel
with_one k = record k {
  cpu = record k.cpu { ncli = 1; intena = k.cpu.interrupts; interrupts = false };
}

-- The kernel after a section of the CPU, which held no lock.
abbrev pub after_section : Kernel → Kernel
after_section k = record k { cpu = record k.cpu { intena = k.cpu.interrupts } }

acquire-with_one :
    (lk : Spinlock) (c : Cpu)
    → c.ncli ≡ 0
    → lk.locked ≡ false
    → acquire lk c
      ≡ done (held c.id, record c { ncli = 1; intena = c.interrupts; interrupts = false })
unfolding acquire
acquire-with_one lk c none_held free = ground (arith, none_held, free)

take_sleeplock-free :
    (addr cur : ℕ) (sl : Sleeplock) (k : Kernel)
    → k.cpu.ncli ≡ 0
    → sl.locked ≡ false
    → take_sleeplock addr cur (record sl { lk = held k.cpu.id }) (with_one k)
      ≡ done
          (true, record { locked = true; lk = unlocked; pid = (k.proc cur).pid }, after_section k)
unfolding take_sleeplock release
take_sleeplock-free addr cur sl k none_held free = ground (arith, none_held, free)

take_sleeplock-busy :
    (addr cur : ℕ) (sl : Sleeplock) (k k' : Kernel)
    → sl.locked ≡ true
    → sleep_enter (some cur) (of_addr addr) (other_lock (held k.cpu.id)) (with_one k)
      ≡ done (other_lock unlocked, k')
    → take_sleeplock addr cur (record sl { lk = held k.cpu.id }) (with_one k)
      ≡ done (false, record sl { lk = unlocked }, k')
unfolding take_sleeplock
take_sleeplock-busy addr cur sl k k' busy run = ground (arith, busy, run)

acquiresleep-got :
    (addr cur : ℕ) (sl : Sleeplock) (k : Kernel)
    → acquire sl.lk k.cpu
      ≡ done
          (held k.cpu.id, record k.cpu { ncli = 1; intena = k.cpu.interrupts; interrupts = false })
    → acquiresleep addr cur sl k
      ≡ take_sleeplock addr cur (record sl { lk = held k.cpu.id }) (with_one k)
unfolding acquiresleep
acquiresleep-got addr cur sl k got = rw got refl

-- Called with no spin lock held, and with the lock's own spin lock and `ptable.lock` free,
-- `acquiresleep` takes a free lock for the process and changes no process, and on a busy one the process
-- sleeps on its address, with its spin lock released.
pub acquiresleep-Asleep :
    (addr cur : ℕ) (sl : Sleeplock) (k : Kernel)
    → k.cpu.ncli ≡ 0
    → k.lock.locked ≡ false
    → sl.lk.locked ≡ false
    → (sl.locked ≡ false
        → acquiresleep addr cur sl k
          ≡ done (
            true,
            record { locked = true; lk = unlocked; pid = (k.proc cur).pid },
            after_section k,
          ))
      × (sl.locked ≡ true
          → (k' : Kernel) × (acquiresleep addr cur sl k
              ≡ done (false, record sl { lk = unlocked }, k'))
            × Asleep cur (of_addr addr) (with_one k) k')
acquiresleep-Asleep addr cur sl k none_held ptable_free free =
    let got = acquire-with_one sl.lk k.cpu none_held free in
    (
      λ ready.
          acquiresleep-got addr cur sl k got ∙ take_sleeplock-free addr cur sl k none_held ready,
      λ busy.
          let (k', run, asleep) =
            sleep_enter-Asleep cur (of_addr addr) (held k.cpu.id) (with_one k)
              (record { ncli = refl; off = refl }) refl ptable_free in
          (
            k',
            acquiresleep-got addr cur sl k got ∙ take_sleeplock-busy addr cur sl k k' busy run,
            asleep,
          ),
    )

-- ===== src/Process/Switch/Effect.antt =====
-- Going to sleep and yielding reach `swtch`, and what they leave in the table.
use bf_scheduler.Common.{
  ℕ, ◌≡◌, refl, true, false, some, arith, ◌==◌, done, ◌<◌, ap, ◌∙◌, update, update_self, none,
}
use bf_scheduler.Common.Int.{pos, ◌≤ℤ◌}
use bf_scheduler.Spinlock.{Cpu, Spinlock, acquire, release}
use bf_scheduler.SkipList.{nproc}
use bf_scheduler.Process.{
  sleeping, runnable, running, same_state, Chan, same_chan, Proc, Kernel, acquire_ptable,
}
use bf_scheduler.Process.Deadline.{virtual_deadline}
use bf_scheduler.Process.Section.{held, IsIdle}
use bf_scheduler.Process.Signal.{wakeup}
use bf_scheduler.Process.Signal.Effect.{wakeup-Woken}
use bf_scheduler.Process.Switch.{
  sched, requeue, yield_cpu, other_lock, Handover, change_locks, fall_asleep, sleep_enter,
}

-- The CPU holds one spin lock, so interrupts are off.
pub record HoldsOne (c : Cpu) : Type 0 where
  pub ncli : c.ncli ≡ 1
  pub off : c.interrupts ≡ false

-- With only `ptable.lock` held and the process not RUNNING `sched` passes its checks.
pub sched_lem :
    (cur : ℕ) (k : Kernel)
    → HoldsOne k.cpu
    → k.lock ≡ held k.cpu.id
    → same_state (k.proc cur).state running ≡ false
    → sched cur k ≡ done k
unfolding sched
sched_lem cur k h l s = ground (arith, h.ncli, h.off)

-- The kernel as `sleep` leaves it at `swtch`: the CPU holds `ptable.lock` alone, the process sleeps on
-- the channel, and all others are as they were.
pub record Asleep (cur : ℕ) (chan : Chan) (k k' : Kernel) : Type 0 where
  pub holds : HoldsOne k'.cpu
  pub locked : k'.lock ≡ held k.cpu.id
  pub sleeps : k'.proc cur ≡ record (k.proc cur) { chan = chan; state = sleeping }
  pub others : (j : ℕ) → (j == cur) ≡ false → k'.proc j ≡ k.proc j

abbrev pub unlocked : Spinlock
unlocked = record { locked = false; cpu = none }

-- `cur` put to sleep on a CPU that holds `ptable.lock` alone.
abbrev pub slept : ℕ → Chan → Kernel → Kernel
slept cur chan k = record {
  cpu = record k.cpu { ncli = 1; interrupts = false };
  lock = held k.cpu.id;
  proc = update k.proc cur (record (k.proc cur) { chan = chan; state = sleeping });
  nextpid = k.nextpid;
  initproc = k.initproc;
}

pub slept-Asleep : (cur : ℕ) (chan : Chan) (k : Kernel) → Asleep cur chan k (slept cur chan k)
slept-Asleep cur chan k = record {
  holds = record { ncli = refl; off = refl };
  locked = refl;
  sleeps = update_self k.proc cur _;
  others = λ j ne. ground arith;
}

pub fall_asleep-slept :
    (cur : ℕ) (chan : Chan) (k : Kernel)
    → HoldsOne k.cpu
    → k.lock ≡ held k.cpu.id
    → fall_asleep cur chan k ≡ done (slept cur chan k)
unfolding fall_asleep sched
fall_asleep-slept cur chan k h l = ground (arith, h.ncli, h.off)

-- `sleep`, called with one lock other than `ptable.lock` held and `ptable.lock` free, does not panic:
-- at its `swtch` that lock is free, and the kernel is as `Asleep` says.
pub sleep_enter-Asleep :
    (cur : ℕ) (chan : Chan) (lk : Spinlock) (k : Kernel)
    → HoldsOne k.cpu
    → lk ≡ held k.cpu.id
    → k.lock.locked ≡ false
    → (k' : Kernel) × (sleep_enter (some cur) chan (other_lock lk) k
        ≡ done (other_lock unlocked, k'))
      × Asleep cur chan k k'
unfolding sleep_enter change_locks acquire_ptable acquire release fall_asleep sched
sleep_enter-Asleep cur chan lk k h l free =
    (slept cur chan k, ground (arith, h.ncli, h.off), slept-Asleep cur chan k)

-- Both locks are held between the two calls.
change_locks-held :
    (lk : Spinlock) (k : Kernel)
    → HoldsOne k.cpu
    → lk ≡ held k.cpu.id
    → k.lock.locked ≡ false
    → (h : Handover) × (change_locks lk k ≡ done h)
      × (h.own_midway.locked ≡ true)
      × (h.ptable_midway.locked ≡ true)
      × (h.own.locked ≡ false)
unfolding change_locks acquire_ptable acquire release
change_locks-held lk k h l free = (
  record {
    own_midway = lk;
    ptable_midway = held k.cpu.id;
    own = unlocked;
    kernel = record k { cpu = record k.cpu { ncli = 1; interrupts = false }; lock = held k.cpu.id };
  },
  ground (arith, h.ncli, h.off),
  ground (arith, l),
  refl,
  refl,
)

-- The process is found by a `wakeup` on its own channel.
chan_refl : (chan : Chan) → same_chan chan chan ≡ true
chan_refl Chan.no_chan = refl
chan_refl (Chan.of_proc i) = ground arith
chan_refl (Chan.of_addr a) = ground arith

-- A process of the table that calls `sleep` with one other lock held reaches `swtch`. When it changes
-- locks, both are held between the two calls, so that a `wakeup` under the other lock runs before it
-- calls `sleep` or after `swtch`. Any later `wakeup` on its channel, run while `ptable.lock` is free and the process has
-- not changed, ends and makes it RUNNABLE.
pub wakeup-sleep_enter :
    (cur : ℕ) (chan : Chan) (lk : Spinlock) (k : Kernel)
    → cur < nproc
    → HoldsOne k.cpu
    → lk ≡ held k.cpu.id
    → k.lock.locked ≡ false
    → (k' : Kernel) × (sleep_enter (some cur) chan (other_lock lk) k
        ≡ done (other_lock unlocked, k'))
      × ((h : Handover) × (change_locks lk k ≡ done h)
          × (h.own_midway.locked ≡ true)
          × (h.ptable_midway.locked ≡ true)
          × (h.own.locked ≡ false))
      × ((later : Kernel)
          → IsIdle later
          → later.proc cur ≡ k'.proc cur
          → (woken : Kernel) × (wakeup chan later ≡ done woken)
            × ((woken.proc cur).state ≡ runnable))
wakeup-sleep_enter cur chan lk k lt h l free =
    let (k', run, a) = sleep_enter-Asleep cur chan lk k h l free in
    (
      k',
      run,
      change_locks-held lk k h l free,
      λ later idle same.
          let (woken, done_run, w, settled) = wakeup-Woken chan later idle in
          let now : later.proc cur ≡ record (k.proc cur) { chan = chan; state = sleeping } =
            same ∙ a.sleeps in
          (
            woken,
            done_run,
            ap (λ (p : Proc). p.state)
                (w.woken cur lt (ap (λ (p : Proc). p.state) now)
                  (ap (λ (p : Proc). same_chan p.chan chan) now ∙ chan_refl chan)),
          ),
    )

-- The kernel as `yield` leaves it at `swtch`.
abbrev pub yielded : ℕ → ℕ → Kernel → Kernel
yielded ticks cur k = record {
  cpu = record k.cpu { ncli = 1; intena = k.cpu.interrupts; interrupts = false };
  lock = held k.cpu.id;
  proc = update k.proc cur (requeue ticks (k.proc cur));
  nextpid = k.nextpid;
  initproc = k.initproc;
}

-- `yield`, called with no lock held, reaches `swtch` with `ptable.lock` alone. The process is RUNNABLE,
-- its deadline is computed anew from the clock if its quantum is used up and is kept otherwise, and
-- all other processes are as they were.
pub yield_cpu-requeue :
    (ticks cur : ℕ) (k : Kernel)
    → IsIdle k
    → k.cpu.ncli ≡ 0
    → (k' : Kernel) × (yield_cpu ticks cur k ≡ done k')
      × HoldsOne k'.cpu
      × (k'.lock ≡ held k.cpu.id)
      × ((k'.proc cur).state ≡ runnable)
      × ((k.proc cur).ticks_left ≤ℤ pos 0
          → (k'.proc cur).vdeadline ≡ virtual_deadline ticks (k.proc cur).niceness)
      × (pos 1 ≤ℤ (k.proc cur).ticks_left → (k'.proc cur).vdeadline ≡ (k.proc cur).vdeadline)
      × ((j : ℕ) → (j == cur) ≡ false → k'.proc j ≡ k.proc j)
unfolding yield_cpu acquire_ptable acquire sched requeue
yield_cpu-requeue ticks cur k idle zero = (
  yielded ticks cur k,
  ground (arith, idle.free),
  record { ncli = refl; off = refl },
  refl,
  ground arith,
  λ le. ground arith,
  λ lt. ground arith,
  λ j ne. ground arith,
)

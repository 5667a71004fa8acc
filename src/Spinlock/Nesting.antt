-- ===== src/Spinlock/Nesting.antt =====
-- Critical sections nest: `release` undoes `acquire`, and interrupts come back with the outermost.
use bf_scheduler.Common.{
  ◌+◌, ◌<◌, ◌≡◌, refl, true, false, none, some, arith, ◌&&◌, ◌==◌, done, panicked, ◌>>=◌, ◌-◌, ◌∙◌,
  ap, sym,
}
use bf_scheduler.Spinlock.{Cpu, Spinlock, held_by, pushcli, acquire, release}

-- Inside a `pushcli` interrupts are off.
abbrev pub IsMasked : Cpu → Type 0
IsMasked c = 0 < c.ncli → c.interrupts ≡ false

-- From a CPU that does not hold it, a free lock is acquired: interrupts go off, the nesting grows
-- by one, and the lock names the CPU.
pub record Acquired (c : Cpu) (lk : Spinlock) (c' : Cpu) : Type 0 where
  pub locked : lk.locked ≡ true
  pub cpu : lk.cpu ≡ some c.id
  pub id : c'.id ≡ c.id
  pub ncli : c'.ncli ≡ c.ncli + 1
  pub off : c'.interrupts ≡ false
  pub saved : (c.ncli ≡ 0 → c'.intena ≡ c.interrupts) × (0 < c.ncli → c'.intena ≡ c.intena)

pub acquire_free :
    (lk : Spinlock) (c : Cpu)
    → lk.locked ≡ false
    → (lk' : Spinlock) × (c' : Cpu) × (acquire lk c ≡ done (lk', c')) × Acquired c lk' c'
unfolding acquire
acquire_free lk c free = (
  record { locked = true; cpu = some c.id },
  pushcli c,
  ground arith,
  record {
    locked = refl;
    cpu = refl;
    id = refl;
    ncli = refl;
    off = refl;
    saved = (λ e. ground arith, λ e. ground arith);
  },
)

-- `acquire` panics on a CPU that already holds the lock.
pub acquire_held :
    (lk : Spinlock) (c : Cpu) → lk.locked ≡ true → lk.cpu ≡ some c.id → acquire lk c ≡ panicked
unfolding acquire
acquire_held lk c h e = ground arith

-- `release` panics on a CPU that does not hold the lock.
pub release_not_held :
    (lk : Spinlock) (c : Cpu) → (lk.locked && held_by lk.cpu c.id) ≡ false → release lk c ≡ panicked
unfolding release
release_not_held lk c h = ground arith

-- With the lock held and interrupts off `release` runs: the lock is free, one nesting has ended, and
-- interrupts are on again exactly if it was the outermost and they were on before it.
pub release_held :
    (lk : Spinlock) (c : Cpu)
    → lk.locked ≡ true
    → lk.cpu ≡ some c.id
    → 0 < c.ncli
    → c.interrupts ≡ false
    → (lk' : Spinlock) × (c' : Cpu) × (release lk c ≡ done (lk', c'))
      × (lk'.locked ≡ false)
      × (c'.id ≡ c.id)
      × (c'.ncli + 1 ≡ c.ncli)
      × (c'.intena ≡ c.intena)
      × (c'.interrupts ≡ ((c'.ncli == 0) && c.intena))
unfolding release
release_held lk c h e pos off = (
  record { locked = false; cpu = none },
  record c { ncli = c.ncli - 1; interrupts = (c.ncli - 1 == 0) && c.intena },
  ground arith,
  refl,
  refl,
  ground arith,
  refl,
  refl,
)

-- A critical section: on a free lock, and on a CPU with interrupts off if its nesting is not 0,
-- `acquire` and then `release` run, free the lock, and leave the nesting and the interrupt flag as
-- they were.
pub release-acquire :
    (lk : Spinlock) (c : Cpu)
    → lk.locked ≡ false
    → IsMasked c
    → (lk' : Spinlock) × (c' : Cpu) × ((acquire lk c >>= λ (l, d). release l d) ≡ done (lk', c'))
      × (lk'.locked ≡ false)
      × (c'.ncli ≡ c.ncli)
      × (c'.interrupts ≡ c.interrupts)
release-acquire lk c free masked =
    let (l, d, run, a) = acquire_free lk c free in
    let b = release_held l d a.locked (a.cpu ∙ ap some (sym a.id)) (omega (arith, a.ncli)) a.off in
    (
      b.0,
      b.1,
      rw run b.2,
      b.3,
      omega (arith, b.5, a.ncli),
      ground (arith, b.5, b.6, b.7, a.ncli, a.saved, masked),
    )

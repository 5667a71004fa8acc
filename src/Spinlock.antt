-- ===== src/Spinlock.antt =====
-- spinlock.c, from the CPU that runs the code: the lock, the nesting of `pushcli`, and the interrupt
-- flag. A lock that another CPU holds makes `acquire` spin, which is `out_of_fuel`.
pub mod Nesting
use bf_scheduler.Common.{
  ℕ, ◌+◌, ◌-◌, Bool, true, false, Option, none, some, ◌&&◌, ◌==◌, if◌then◌else◌, Outcome, done,
  panicked, out_of_fuel, ◌>>=◌,
}

-- The fields of `struct cpu` that the locks use, the CPU's index, and its flag `FL_IF`.
pub record Cpu : Type 0 where
  pub id : ℕ
  pub ncli : ℕ
  pub intena : Bool
  pub interrupts : Bool

-- `struct spinlock`, less what is there for debugging; `cpu` is the index of the holder.
pub record Spinlock : Type 0 where
  pub locked : Bool
  pub cpu : Option ℕ

-- `initlock`
unfoldable pub initlock : Spinlock → Spinlock
initlock lk = record { locked = false; cpu = none }

-- `pushcli`
unfoldable pub pushcli : Cpu → Cpu
pushcli c = record c {
  ncli = c.ncli + 1;
  intena = if c.ncli == 0 then c.interrupts else c.intena;
  interrupts = false;
}

-- `popcli`
unfoldable pub popcli : Cpu → Outcome Cpu
popcli c =
    if c.interrupts
    then panicked
    else if c.ncli == 0
    then panicked
    else done (record c { ncli = c.ncli - 1; interrupts = (c.ncli - 1 == 0) && c.intena })

-- Whether `lk->cpu` is the CPU of this index.
abbrev pub held_by : Option ℕ → ℕ → Bool
held_by none id = false
held_by (some j) id = j == id

-- `holding`: its result, and the CPU after its own `pushcli` and `popcli`.
unfoldable pub holding : Spinlock → Cpu → Outcome (Bool × Cpu)
unfolding pushcli popcli
holding lk c = popcli (pushcli c) >>= λ c'. done (lk.locked && held_by lk.cpu c.id, c')

-- `acquire`
unfoldable pub acquire : Spinlock → Cpu → Outcome (Spinlock × Cpu)
unfolding holding
acquire lk c = holding lk (pushcli c) >>= λ (held, c').
    if held
    then panicked
    else if lk.locked
    then out_of_fuel
    else done (record { locked = true; cpu = some c.id }, c')

-- `release`
unfoldable pub release : Spinlock → Cpu → Outcome (Spinlock × Cpu)
unfolding holding
release lk c = holding lk c >>= λ (held, c').
    if held
    then (popcli c' >>= λ c''. done (record { locked = false; cpu = none }, c''))
    else panicked

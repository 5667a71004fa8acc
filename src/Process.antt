-- ===== src/Process.antt =====
-- The process table of proc.c and proc.h: `struct proc` less what only the machine reads (the trap
-- frame, the saved context, open files, the directory, the name), and the kernel that holds it.
pub mod Deadline
pub mod Section
pub mod Scan
pub mod Alloc
pub mod Signal
pub mod Switch
pub mod Exit
pub mod Wait
use bf_scheduler.Common.{
  ℕ, ◌≡◌, Bool, true, false, Option, none, some, ◌==◌, if◌then◌else◌, update, Outcome, done, ◌>>=◌,
}
use bf_scheduler.Common.Int.{ℤ}
use bf_scheduler.Spinlock.{Cpu, Spinlock, acquire, release}

-- `enum procstate`
pub data ProcState : Type 0 where
  unused embryo sleeping runnable running zombie : ProcState

abbrev pub same_state : ProcState → ProcState → Bool
same_state unused unused = true
same_state embryo embryo = true
same_state sleeping sleeping = true
same_state runnable runnable = true
same_state running running = true
same_state zombie zombie = true
same_state _ _ = false

-- What a process sleeps on: nothing, a process of the table, or another kernel address.
pub data Chan : Type 0 where
  no_chan : Chan
  of_proc : ℕ → Chan
  of_addr : ℕ → Chan

abbrev pub same_chan : Chan → Chan → Bool
same_chan no_chan no_chan = true
same_chan (of_proc i) (of_proc j) = i == j
same_chan (of_addr a) (of_addr b) = a == b
same_chan _ _ = false

-- The address of the process pointed to; a null pointer is no channel.
abbrev pub chan_of : Option ℕ → Chan
chan_of none = no_chan
chan_of (some i) = of_proc i

-- `struct proc`. Pointers to processes are indices of the table; pages are addresses.
pub record Proc : Type 0 where
  pub sz : ℕ
  pub pgdir : Option ℕ
  pub kstack : Option ℕ
  pub state : ProcState
  pub pid : ℤ
  pub parent : Option ℕ
  pub chan : Chan
  pub killed : ℕ
  pub niceness : ℤ
  pub vdeadline : ℤ
  pub ticks_left : ℤ
  pub maxlevel : ℤ

-- `ptable`, `nextpid`, `initproc`, and the CPU that runs the code.
pub record Kernel : Type 0 where
  pub cpu : Cpu
  pub lock : Spinlock
  pub proc : ℕ → Proc
  pub nextpid : ℤ
  pub initproc : ℕ

-- `acquire(&ptable.lock)` and `release(&ptable.lock)`
unfoldable pub acquire_ptable : Kernel → Outcome Kernel
acquire_ptable k = acquire k.lock k.cpu >>= λ (l, c). done (record k { lock = l; cpu = c })

unfoldable pub release_ptable : Kernel → Outcome Kernel
release_ptable k = release k.lock k.cpu >>= λ (l, c). done (record k { lock = l; cpu = c })

-- Writing one process.
unfoldable pub set_proc : Kernel → ℕ → Proc → Kernel
set_proc k i p = record k { proc = update k.proc i p }

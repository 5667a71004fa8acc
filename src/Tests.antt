-- ===== src/Tests.antt =====
-- Concrete lists, locks and tables for the tests.
pub mod Disks
pub mod Pieces
pub mod Entries
pub mod Keyboard
pub mod Numbers
pub mod Queues
pub mod Tables
pub mod Locks
pub mod Switches
pub mod Logs
pub mod Bytes
pub mod Stores
use bf_scheduler.Common.{ℕ, Bool, true, false, Option, none, some, ◌==◌, if◌then◌else◌}
use bf_scheduler.Common.Int.{ℤ, pos, negsuc}
use bf_scheduler.SkipList.{SkipNode, SkipList}
use bf_scheduler.Spinlock.{Cpu, Spinlock}
use bf_scheduler.Process.{
  ProcState, unused, sleeping, runnable, running, Chan, no_chan, of_proc, Proc, Kernel,
}

-- The array as the loader leaves it.
abbrev pub blank_node : SkipNode
blank_node = record {
  valid = 0;
  value = pos 0;
  pid = pos 0;
  forward = λ i. some 0;
  backward = λ i. some 0;
  maxlevel = 0;
}

abbrev pub blank : SkipList
blank = record { node = λ a. blank_node; before = blank_node; level = none }

abbrev pub stack : ℕ → ℕ
stack i = 7

-- `SEED`
abbrev pub first_seed : ℕ
first_seed = 62301983

abbrev pub free_lock : Spinlock
free_lock = record { locked = false; cpu = none }

abbrev pub lock_of_0 : Spinlock
lock_of_0 = record { locked = true; cpu = some 0 }

abbrev pub open_cpu : Cpu
open_cpu = record { id = 0; ncli = 0; intena = false; interrupts = true }

abbrev pub nested_cpu : Cpu
nested_cpu = record { id = 0; ncli = 1; intena = true; interrupts = false }

abbrev pub no_proc : Proc
no_proc = record {
  sz = 0;
  pgdir = none;
  kstack = none;
  state = unused;
  pid = pos 0;
  parent = none;
  chan = no_chan;
  killed = 0;
  niceness = pos 0;
  vdeadline = pos 0;
  ticks_left = pos 0;
  maxlevel = pos 0;
}

abbrev pub proc_with : ProcState → ℤ → ℤ → Chan → Proc
proc_with state pid vdeadline chan = record no_proc {
  state = state;
  pid = pid;
  vdeadline = vdeadline;
  chan = chan;
  kstack = some 4096;
  pgdir = some 8192;
}

-- The first process waits for its children, two of which can run.
abbrev pub table : ℕ → Proc
table i =
    if i == 0
    then proc_with sleeping (pos 1) (pos 1050) (of_proc 0)
    else if i == 1
    then proc_with runnable (pos 2) (pos 1075) no_chan
    else if i == 2
    then proc_with runnable (pos 3) (pos 1063) no_chan
    else no_proc

abbrev pub kernel : Kernel
kernel = record { cpu = open_cpu; lock = free_lock; proc = table; nextpid = pos 4; initproc = 0 }

-- ===== src/Process/Alloc/Result.antt =====
-- `nicefork` on all its branches.
use bf_scheduler.Common.{ℕ, ◌≡◌, some, done, Option}
use bf_scheduler.Common.Int.{ℤ}
use bf_scheduler.Process.{Kernel}
use bf_scheduler.Process.Section.{Settled, entered, settle}
use bf_scheduler.Process.Alloc.{prepare, nicefork}
use bf_scheduler.Process.Alloc.Fork.{Forked, claimed}

-- A run of `nicefork` and what it leaves.
pub record Result (ticks ticks' : ℕ) (page pgdir : Option ℕ) (cur : ℕ) (nice : ℤ) (k : Kernel)
    : Type 0 where
  pub result : ℤ
  pub after : Kernel
  pub run : nicefork ticks ticks' page pgdir cur nice k ≡ done (result, after)
  pub forked : Forked page pgdir cur ticks' nice k.proc after.proc k.nextpid after.nextpid result
  pub settled : Settled k after

-- With a slot `i` and a page for its stack.
abbrev prepared : ℕ → ℕ → ℕ → Kernel → Kernel
prepared ticks page i k = (prepare ticks (some page) i (settle k (claimed i (entered k)))).1

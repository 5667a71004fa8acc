-- ===== src/System.antt =====
-- sysproc.c, and what the timer interrupt of trap.c does to the clock and to the process that runs.
-- `m`, `sz` and `esp` are what the arguments of the call are read from.
pub mod Quantum
use bf_scheduler.Common.{
  ℕ, ◌+◌, ◌-◌, ◌%◌, ◌^◌, Bool, true, false, Option, none, some, not, ◌==◌, ltb, if◌then◌else◌,
  Outcome, done, ◌>>=◌,
}
use bf_scheduler.Common.Int.{ℤ, pos, negsuc, neg_part, pos_part, ◌+ℤ◌, eqb_ℤ}
use bf_scheduler.SkipList.{minus_one}
use bf_scheduler.Spinlock.{Spinlock, acquire, release}
use bf_scheduler.Strings.{Memory}
use bf_scheduler.Arguments.{argint}
use bf_scheduler.Process.{running, same_state, of_addr, Proc, Kernel, set_proc}
use bf_scheduler.Process.Signal.{wakeup, kill}
use bf_scheduler.Process.Switch.{LockArg, other_lock, sleep_enter, sleep_leave, yield_cpu}

-- A word read as an `int`.
abbrev pub to_int : ℕ → ℤ
to_int w = if ltb w (2 ^ 31) then pos w else negsuc (2 ^ 32 - 1 - w)

-- `sys_kill`
unfoldable pub sys_kill : Memory → ℕ → ℕ → Kernel → Outcome (ℤ × Kernel)
sys_kill m sz esp k = elim (argint m sz esp 0) [
  | none ↦ done (minus_one, k)
  | some pid ↦ kill (to_int pid) k
]

-- `sys_getpid`
unfoldable pub sys_getpid : ℕ → Kernel → ℤ
sys_getpid cur k = (k.proc cur).pid

-- The clock: `tickslock` and `ticks`, and the address of `ticks`, on which processes sleep.
pub record Clock : Type 0 where
  pub lock : Spinlock
  pub ticks : ℕ
  pub addr : ℕ

-- `release(&tickslock); return r;`
unfoldable pub leave_sleep : ℤ → Clock → Kernel → Outcome (Option ℤ × Clock × Kernel)
leave_sleep r t k =
    release t.lock k.cpu >>= λ (l, c). done (some r, record t { lock = l }, record k { cpu = c })

-- One turn of the loop of `sys_sleep`, with `tickslock` held, for `n` read as a word: the result, or
-- none if the process has gone to sleep. The comparison is one of unsigned numbers.
unfoldable pub sleep_turn : ℕ → ℕ → ℕ → Clock → Kernel → Outcome (Option ℤ × Clock × Kernel)
sleep_turn n ticks0 cur t k =
    if ltb ((t.ticks + 2 ^ 32 - ticks0) % 2 ^ 32) n
    then (if not ((k.proc cur).killed == 0)
        then leave_sleep minus_one t k
        else (sleep_enter (some cur) (of_addr t.addr) (other_lock t.lock) k >>= λ (l, k').
            done (none, record t { lock = elim l [ other_lock l' ↦ l' | _ ↦ t.lock ] }, k')))
    else leave_sleep (pos 0) t k

-- `sys_sleep` up to its return or its first `swtch`.
unfoldable pub sys_sleep : Memory → ℕ → ℕ → ℕ → Clock → Kernel → Outcome (Option ℤ × Clock × Kernel)
sys_sleep m sz esp cur t k = elim (argint m sz esp 0) [
  | none ↦ done (some minus_one, t, k)
  | some n ↦ acquire t.lock k.cpu >>= λ (l, c).
      sleep_turn n t.ticks cur (record t { lock = l }) (record k { cpu = c })
]

-- `sys_uptime`
unfoldable pub sys_uptime : Clock → Kernel → Outcome (ℕ × Clock × Kernel)
sys_uptime t k = acquire t.lock k.cpu >>= λ (l, c).
    release l c >>= λ (l', c'). done (t.ticks, record t { lock = l' }, record k { cpu = c' })

-- `sys_yield`, up to `swtch`.
unfoldable pub sys_yield : ℕ → ℕ → Kernel → Outcome Kernel
sys_yield ticks cur k = yield_cpu ticks cur k

-- What `trap` does on a timer interrupt of CPU 0: the clock.
unfoldable pub clock_tick : Clock → Kernel → Outcome (Clock × Kernel)
clock_tick t k = acquire t.lock k.cpu >>= λ (l, c).
    wakeup (of_addr t.addr) (record k { cpu = c }) >>= λ k'. release l k'.cpu >>= λ (l', c').
    done (record t { lock = l'; ticks = (t.ticks + 1) % 2 ^ 32 }, record k' { cpu = c' })

-- And on every CPU: the quantum of the process that runs, which yields at 0.
unfoldable pub count_quantum : ℕ → ℕ → Kernel → Outcome Kernel
count_quantum ticks cur k =
    let left = (k.proc cur).ticks_left +ℤ negsuc 0 in
    let k' = set_proc k cur (record (k.proc cur) { ticks_left = left }) in
    if same_state (k.proc cur).state running
    then (if eqb_ℤ left (pos 0) then yield_cpu ticks cur k' else done k')
    else done k

-- ===== src/System/Quantum.antt =====
-- A process runs for its quantum.
use bf_scheduler.Common.{ℕ, ◌+◌, ◌≡◌, arith, false, ◌==◌, update, update_self, done, ap, ◌∙◌}
use bf_scheduler.Common.Int.{pos, ◌+ℤ◌}
use bf_scheduler.Process.{running, runnable, Proc, Kernel, set_proc}
use bf_scheduler.Process.Deadline.{virtual_deadline}
use bf_scheduler.Process.Section.{IsIdle}
use bf_scheduler.Process.Switch.{yield_cpu}
use bf_scheduler.Process.Switch.Effect.{yield_cpu-requeue}
use bf_scheduler.System.{count_quantum}

-- `cur` with `left` ticks of its quantum.
abbrev pub with_ticks : Kernel → ℕ → ℕ → Kernel
with_ticks k cur left = record k {
  proc = update k.proc cur (record (k.proc cur) { ticks_left = pos left });
}

count_quantum-goes_on :
    (ticks cur left : ℕ) (k : Kernel)
    → (k.proc cur).state ≡ running
    → (k.proc cur).ticks_left ≡ pos (left + 2)
    → count_quantum ticks cur k ≡ done (with_ticks k cur (left + 1))
unfolding count_quantum set_proc ◌+ℤ◌
count_quantum-goes_on ticks cur left k runs q = ground (arith, runs, q)

count_quantum-last :
    (ticks cur : ℕ) (k : Kernel)
    → (k.proc cur).state ≡ running
    → (k.proc cur).ticks_left ≡ pos 1
    → count_quantum ticks cur k ≡ yield_cpu ticks cur (with_ticks k cur 0)
unfolding count_quantum set_proc ◌+ℤ◌
count_quantum-last ticks cur k runs q = ground (arith, runs, q)

-- The timer interrupt of a running process with `left + 1` ticks of its quantum, on a CPU that holds no
-- lock: with more than one tick left, it goes on with one less. With the last one it yields: it is then
-- RUNNABLE with a deadline computed from the clock, and no other process changes.
pub count_quantum_lem :
    (ticks cur left : ℕ) (k : Kernel)
    → (k.proc cur).state ≡ running
    → IsIdle k
    → k.cpu.ncli ≡ 0
    → ((k.proc cur).ticks_left ≡ pos (left + 2)
        → count_quantum ticks cur k ≡ done (with_ticks k cur (left + 1)))
      × ((k.proc cur).ticks_left ≡ pos 1
          → (k' : Kernel) × (count_quantum ticks cur k ≡ done k')
            × ((k'.proc cur).state ≡ runnable)
            × ((k'.proc cur).vdeadline ≡ virtual_deadline ticks (k.proc cur).niceness)
            × ((j : ℕ) → (j == cur) ≡ false → k'.proc j ≡ k.proc j))
count_quantum_lem ticks cur left k runs idle none_held = (
  count_quantum-goes_on ticks cur left k runs,
  λ q.
      let (k', run, _, _, ready, renewed, _, others) =
        yield_cpu-requeue ticks cur (with_ticks k cur 0)
          (record { free = idle.free; masked = idle.masked }) none_held in
      let self : (with_ticks k cur 0).proc cur ≡ record (k.proc cur) { ticks_left = pos 0 } =
        update_self k.proc cur _ in
      (
        k',
        count_quantum-last ticks cur k runs q ∙ run,
        ready,
        renewed (ground (arith, self)) ∙ ap (λ (p : Proc). virtual_deadline ticks p.niceness) self,
        λ j ne. others j ne ∙ ground (arith, ne),
      ),
)

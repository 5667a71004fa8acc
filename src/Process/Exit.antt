-- ===== src/Process/Exit.antt =====
-- `exit` of proc.c, from its acquisition of `ptable.lock` to `swtch`. (Before it `exit` closes the
-- files of the process.)
pub mod Adopt
pub mod Effect
use bf_scheduler.Common.{
  ℕ, zero, suc, Bool, false, Option, none, some, ◌==◌, if◌then◌else◌, Outcome, panicked, ◌>>=◌,
}
use bf_scheduler.SkipList.{nproc}
use bf_scheduler.Process.{
  zombie, same_state, of_proc, chan_of, Proc, Kernel, acquire_ptable, set_proc,
}
use bf_scheduler.Process.Signal.{wakeup1}
use bf_scheduler.Process.Switch.{sched}

-- `p->parent == curproc`
abbrev pub is_child : ℕ → Proc → Bool
is_child cur p = elim p.parent [ none ↦ false | some i ↦ i == cur ]

-- The body of the loop that passes abandoned children to init, for the process `n`.
unfoldable pub adopt_one : ℕ → ℕ → Kernel → Kernel
unfolding set_proc
adopt_one cur n k =
    let k' = set_proc k n (record (k.proc n) { parent = some k.initproc }) in
    if is_child cur (k.proc n)
    then (if same_state (k.proc n).state zombie then wakeup1 (of_proc k.initproc) k' else k')
    else k

-- The loop, for the first `n` processes.
unfoldable pub adopt : ℕ → ℕ → Kernel → Kernel
adopt cur zero k = k
adopt cur (suc n) k = adopt_one cur n (adopt cur n k)

-- `exit`: its check for init, and the part under the lock.
unfoldable pub exit_proc : ℕ → Kernel → Outcome Kernel
unfolding set_proc
exit_proc cur k =
    if cur == k.initproc
    then panicked
    else (acquire_ptable k >>= λ k1.
        let k2 = wakeup1 (chan_of (k1.proc cur).parent) k1 in
        let k3 = adopt cur nproc k2 in
        sched cur (set_proc k3 cur (record (k3.proc cur) { state = zombie })))

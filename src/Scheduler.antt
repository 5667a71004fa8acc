-- ===== src/Scheduler.antt =====
-- The scheduler of proc.c: the loop that brings the skip list up to date with the process table, and
-- the choice of the next process.
pub mod Queue
pub mod Owners
pub mod Sync
pub mod Choice
use bf_scheduler.Common.{
  ℕ, zero, suc, ◌+◌, ◌-◌, Bool, Option, none, some, ◌&&◌, ◌==◌, ltb, leb, if◌then◌else◌, Outcome,
  done, ◌>>=◌,
}
use bf_scheduler.Common.Int.{ℤ, pos, negsuc, eqb_ℤ, pos_part}
use bf_scheduler.SkipList.{SkipList, at_link, nproc, chance}
use bf_scheduler.SkipList.Search.{sl_search}
use bf_scheduler.SkipList.Insert.{sl_insert}
use bf_scheduler.SkipList.Delete.{sl_delete}
use bf_scheduler.Process.{
  ProcState, unused, embryo, sleeping, runnable, running, zombie, Proc, Kernel, acquire_ptable,
  release_ptable, set_proc,
}
use bf_scheduler.Process.Deadline.{default_quantum}

-- `case RUNNABLE:` a process that the list does not hold is inserted.
unfoldable pub enqueue : (ℕ → ℕ) → SkipList → ℕ → Proc → Outcome (SkipList × ℕ)
enqueue stack sl seed p = sl_search sl p.vdeadline p.pid >>= λ found. elim found [
  | none ↦
      sl_insert stack sl seed p.vdeadline p.pid chance >>= λ (status, sl', seed'). done (sl', seed')
  | some n ↦ done (sl, seed)
]

-- `default:` a process that the list holds is deleted.
unfoldable pub dequeue : SkipList → ℕ → Proc → Outcome (SkipList × ℕ)
dequeue sl seed p = sl_search sl p.vdeadline p.pid >>= λ found. elim found [
  | none ↦ done (sl, seed)
  | some n ↦ sl_delete sl p.vdeadline p.pid >>= λ (deleted, sl'). done (sl', seed)
]

-- The body of the loop over the table.
unfoldable pub sync_proc : ProcState → (ℕ → ℕ) → SkipList → ℕ → Proc → Outcome (SkipList × ℕ)
sync_proc unused stack sl seed p = done (sl, seed)
sync_proc runnable stack sl seed p = enqueue stack sl seed p
sync_proc _ stack sl seed p = dequeue sl seed p

-- The loop, for the first `n` processes.
unfoldable pub sync : (ℕ → ℕ) → ℕ → (ℕ → Proc) → SkipList → ℕ → Outcome (SkipList × ℕ)
sync stack zero proc sl seed = done (sl, seed)
sync stack (suc n) proc sl seed =
    sync stack n proc sl seed >>= λ (sl', seed'). sync_proc (proc n).state stack sl' seed' (proc n)

-- `index > 0 && index < NPROC + 1`, for an index that may be -1: the index, if it passes.
abbrev in_range : Option ℕ → Option ℕ
in_range none = none
in_range (some b) = if ltb 0 b && ltb b (nproc + 1) then some b else none

-- The first node behind the sentinel, if its valid bit, which is read first, and its index pass the
-- test. With an empty list the bit is read from `nodeList[-1]`.
unfoldable pub first_node : SkipList → Option ℕ
first_node sl =
    let index : Option ℕ = (sl.node 0).forward 0 in
    let passes : Option ℕ = in_range index in if (at_link sl index).valid == 1 then passes else none

-- The loop that looks for the pid among the first `n` processes: the last match wins.
unfoldable pub with_pid : ℕ → (ℕ → Proc) → ℤ → ℕ → ℕ
with_pid zero proc pid next = next
with_pid (suc n) proc pid next =
    let found = with_pid n proc pid next in if eqb_ℤ (proc n).pid pid then n else found

-- The process made RUNNING, with a fresh quantum if it has none left.
unfoldable pub dispatch : Proc → ℕ → Proc
dispatch p level = record p {
  state = running;
  ticks_left = elim p.ticks_left [
    | pos zero ↦ pos default_quantum
    | pos (suc n) ↦ pos (suc n)
    | negsuc n ↦ pos default_quantum
  ];
  maxlevel = pos level;
}

-- One round of `scheduler`, up to `swtch`: the process to run, if there is one, and the state.
pub record Round : Type 0 where
  pub next : Option ℕ
  pub kernel : Kernel
  pub list : SkipList
  pub seed : ℕ

-- The branch that runs the first node `b`: its process, which keeps `ptable.lock`.
unfoldable pub run_first : ℕ → SkipList → ℕ → Kernel → Outcome Round
run_first b sl seed k = sl_delete sl (sl.node b).value (sl.node b).pid >>= λ (deleted, sl').
    let i = with_pid nproc k.proc (sl'.node b).pid (pos_part (sl.node b).pid - 1) in
    done (record {
      next = some i;
      kernel = set_proc k i (dispatch (k.proc i) (sl'.node b).maxlevel);
      list = sl';
      seed = seed;
    })

unfoldable pub schedule : (ℕ → ℕ) → Kernel → SkipList → ℕ → Outcome Round
schedule stack k sl seed = acquire_ptable k >>= λ k1.
    sync stack nproc k1.proc sl seed >>= λ (sl', seed'). elim (first_node sl') [
      | none ↦ release_ptable k1 >>= λ k2.
          done (record { next = none; kernel = k2; list = sl'; seed = seed' })
      | some b ↦ run_first b sl' seed' k1
    ]

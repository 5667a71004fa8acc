-- ===== src/Tests/Logs.antt =====
-- The log at a concrete disk.
use bf_scheduler.Common.{
  ℕ, ◌+◌, ◌≤◌, length, ◌≡◌, refl, false, some, [], ◌∷◌, arith, ◌==◌, if◌then◌else◌, inr, done,
}
use bf_scheduler.Common.Int.{pos, ◌+ℤ◌, ◌*ℤ◌, ◌≤ℤ◌}
use bf_scheduler.Log.{
  Block, Store, LogHeader, Log, recover_from_log, commit, begin_op, max_op_blocks, log_size,
}
use bf_scheduler.Log.Loops.{IsTransaction}
use bf_scheduler.Log.Crash.{Atomic, powered}
use bf_scheduler.Log.Atomic.{reboots, commit-Atomic}
use bf_scheduler.Log.Absorb.{log_writes, begin_op-log_writes}

-- Two blocks changed in the cache, and power for three writes.
abbrev two_blocks : LogHeader
two_blocks = record { n = 2; block = λ i. if i == 0 then 60 else 70 }

abbrev store : Store
store = record {
  mem = λ b i. if b == 60 then 1 else if b == 70 then 2 else 0;
  disk = λ b i. 0;
  power = 3;
}

abbrev powerful : Store
powerful = record store { power = 6 }

two_blocks-IsTransaction : IsTransaction 2 two_blocks
two_blocks-IsTransaction = record {
  fits = omega arith;
  home = λ i lt. ground arith;
  once = λ i j lt le. ground arith;
}

commit-Atomic_example :
    (d : ℕ → Block) × (lh' : LogHeader) × (s' : Store) × (reboots 2 two_blocks
        (0 ∷ 1 ∷ [])
        (commit 2 two_blocks store).1.disk
      ≡ done d)
    × (recover_from_log 2 two_blocks (powered d 40) ≡ done (lh', s'))
    × Atomic 2 two_blocks (λ i. store.mem (two_blocks.block i)) store.disk s'.disk
commit-Atomic_example =
    commit-Atomic store two_blocks (0 ∷ 1 ∷ []) 40 two_blocks-IsTransaction refl (omega arith)
      (omega arith)

abbrev busy : Log
busy = record { start = 2; size = 30; outstanding = pos 1; committing = false; lh = two_blocks }

abbrev idle_log : Log
idle_log = record busy { outstanding = pos 0 }

admitted : begin_op idle_log ≡ some busy
unfolding begin_op
admitted = refl

begin_op-log_writes_example :
    (idle_log.committing ≡ false)
    × (busy.outstanding ≡ idle_log.outstanding +ℤ pos 1)
    × (pos idle_log.lh.n +ℤ busy.outstanding *ℤ pos max_op_blocks ≤ℤ pos log_size)
    × ((l'' : Log) × (log_writes busy (80 ∷ 60 ∷ []) ≡ done l'')
        × IsTransaction 2 l''.lh
        × (l''.lh.n ≤ idle_log.lh.n + length {A = ℕ} (80 ∷ 60 ∷ [])))
begin_op-log_writes_example =
    begin_op-log_writes 2 idle_log busy (80 ∷ 60 ∷ []) admitted two_blocks-IsTransaction
      (omega arith) (omega arith) (inr (omega arith), (inr (omega arith), tt)) (omega arith)

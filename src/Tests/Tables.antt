-- ===== src/Tests/Tables.antt =====
-- The process table and the scheduler at a concrete kernel.
use bf_scheduler.Common.{ℕ, ◌<◌, ◌≡◌, refl, true, [], arith, done}
use bf_scheduler.Common.Int.{ℤ, pos}
use bf_scheduler.SkipList.{nproc, init_skip_list}
use bf_scheduler.SkipList.Start.{init_skip_list-Represents}
use bf_scheduler.SkipList.Delete.Entries.{has_entry}
use bf_scheduler.Process.{runnable, Kernel}
use bf_scheduler.Process.Section.{IsIdle, Settled}
use bf_scheduler.Process.Signal.{kill}
use bf_scheduler.Process.Signal.Effect.{Killed, kill-Killed}
use bf_scheduler.Process.Alloc.Result.{Result}
use bf_scheduler.Scheduler.{sync}
use bf_scheduler.Scheduler.Owners.{entry_of}
use bf_scheduler.Scheduler.Sync.{Tracks, PidsDistinct}
use bf_scheduler.Scheduler.Sync.Table.{Synced, sync_exact}
use bf_scheduler.Scheduler.Choice.{Ran, schedule-Decision}
use bf_scheduler.Tests.{blank, stack, first_seed, table, kernel}

kernel-IsIdle : IsIdle kernel
kernel-IsIdle = record { free = refl; masked = λ lt. absurd (omega arith) }

table-PidsDistinct : PidsDistinct table
table-PidsDistinct i j hi hj used same = ground arith

empty-Tracks : Tracks table (init_skip_list blank) []
empty-Tracks = record { represents = init_skip_list-Represents blank; owned = tt; once = tt }

kill-Killed_example :
    (r : ℤ) × (k' : Kernel) × (kill (pos 1) kernel ≡ done (r, k'))
    × Killed (pos 1) table k'.proc r
    × Settled kernel k'
kill-Killed_example = kill-Killed (pos 1) kernel kernel-IsIdle

sync_exact_example :
    (s : Synced table nproc (sync stack nproc table (init_skip_list blank) first_seed)) × ((d : ℤ
        × ℤ)
      → has_entry d s.queue ≡ true
      → (i : ℕ) × (i < nproc) × (entry_of (table i) ≡ d) × ((table i).state ≡ runnable))
sync_exact_example = sync_exact table table-PidsDistinct stack first_seed empty-Tracks

schedule-Decision_example : Ran stack kernel (init_skip_list blank) first_seed
schedule-Decision_example =
    schedule-Decision stack kernel first_seed kernel-IsIdle table-PidsDistinct empty-Tracks

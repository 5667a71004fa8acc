-- ===== src/Scheduler/Choice.antt =====
-- The scheduler runs a RUNNABLE process with the least virtual deadline.
mod First
use bf_scheduler.Common.{
  ℕ, zero, suc, ◌-◌, ◌≤◌, ◌<◌, ◌≡◌, refl, Bool, true, false, Option, none, some, List, [], ◌∷◌, map,
  update_self, arith, ◌==◌, if◌then◌else◌, All, Bool-cases, inl, inr, ◌∙◌, sym, ap, Outcome, done,
  ◌>>=◌,
}
use mathlib.Core.Bool.{false≢true}
use bf_scheduler.Common.Int.{ℤ, pos, pos_part, ◌≤ℤ◌}
use bf_scheduler.SkipList.{SkipList, nproc}
use bf_scheduler.SkipList.Shape.{Represents, IsSkipList, entry, key}
use bf_scheduler.SkipList.Delete.{sl_delete}
use bf_scheduler.SkipList.Delete.Entries.{delete_entry, has_entry}
use bf_scheduler.SkipList.Delete.Refine.{sl_delete-delete_entry}
use bf_scheduler.Process.{
  unused, runnable, running, same_state, Proc, Kernel, set_proc, acquire_ptable, release_ptable,
}
use bf_scheduler.Process.Section.{
  IsIdle, Settled, entered, settle, settle-Settled, acquire_ptable-entered, release_ptable-settle,
}
use bf_scheduler.Scheduler.{sync, first_node, with_pid, dispatch, run_first, schedule, Round}
use bf_scheduler.Scheduler.Queue.{
  NoDuplicates, NoDuplicates-delete_entry, has_entry-delete_entry, same_entry_refl,
}
use bf_scheduler.Scheduler.Owners.{entry_of, Owner, All-delete_entry}
use bf_scheduler.Scheduler.Sync.{Tracks, PidsDistinct}
use bf_scheduler.Scheduler.Sync.Table.{Synced, sync_exact, state_of_same}
use First.{first_node-nodes, first_le, has_first, with_pid_unique}

-- A process that has been made RUNNING: it keeps the ticks of its quantum, or gets a full one of 50 if
-- none is left. Only its level changes besides.
pub record Dispatched (p p' : Proc) : Type 0 where
  pub state : p'.state ≡ running
  pub positive : pos 1 ≤ℤ p'.ticks_left
  pub kept : pos 1 ≤ℤ p.ticks_left → p'.ticks_left ≡ p.ticks_left
  pub renewed : p.ticks_left ≤ℤ pos 0 → p'.ticks_left ≡ pos 50
  pub rest : p' ≡ record p { state = p'.state; ticks_left = p'.ticks_left; maxlevel = p'.maxlevel }

dispatch-Dispatched : (p : Proc) (level : ℕ) → Dispatched p (dispatch p level)
unfolding dispatch
dispatch-Dispatched p level = record {
  state = refl;
  positive = ground arith;
  kept = λ h. ground arith;
  renewed = λ h. ground arith;
  rest = refl;
}

-- What a round decides.
pub data Decision (k : Kernel) (r : Round) : Type 0 where
  nobody :
      ((j : ℕ) → j < nproc → same_state (k.proc j).state runnable ≡ false)
      → r.next ≡ none
      → r.kernel.proc ≡ k.proc
      → Settled k r.kernel
      → Decision k r
  somebody :
      (i : ℕ)
      → i < nproc
      → (k.proc i).state ≡ runnable
      → ((j : ℕ)
          → j < nproc
          → (k.proc j).state ≡ runnable
          → (k.proc i).vdeadline ≤ℤ (k.proc j).vdeadline)
      → r.next ≡ some i
      → Dispatched (k.proc i) (r.kernel.proc i)
      → ((j : ℕ) → (j == i) ≡ false → r.kernel.proc j ≡ k.proc j)
      → Decision k r

-- A round that ends, its decision, and the queue that it leaves.
pub record Ran (stack : ℕ → ℕ) (k : Kernel) (sl : SkipList) (seed : ℕ) : Type 0 where
  pub round : Round
  pub returned : schedule stack k sl seed ≡ done round
  pub decision : Decision k round
  pub queue : List (ℤ × ℤ)
  pub tracks : Tracks round.kernel.proc round.list queue

schedule-none :
    (stack : ℕ → ℕ) (k k1 k2 : Kernel) (sl sl' : SkipList) (seed seed' : ℕ)
    → acquire_ptable k ≡ done k1
    → sync stack nproc k1.proc sl seed ≡ done (sl', seed')
    → first_node sl' ≡ none
    → release_ptable k1 ≡ done k2
    → schedule stack k sl seed
      ≡ done (record { next = none; kernel = k2; list = sl'; seed = seed' })
unfolding schedule
schedule-none stack k k1 k2 sl sl' seed seed' a s f r = ground arith

schedule-some :
    (stack : ℕ → ℕ) (k k1 : Kernel) (sl sl' : SkipList) (seed seed' b : ℕ)
    → acquire_ptable k ≡ done k1
    → sync stack nproc k1.proc sl seed ≡ done (sl', seed')
    → first_node sl' ≡ some b
    → schedule stack k sl seed ≡ run_first b sl' seed' k1
unfolding schedule
schedule-some stack k k1 sl sl' seed seed' b a s f = ground arith

run_first_run :
    (b : ℕ) (sl sl' : SkipList) (seed : ℕ) (k : Kernel) (deleted : Option ℕ) (i : ℕ)
    → sl_delete sl (sl.node b).value (sl.node b).pid ≡ done (deleted, sl')
    → with_pid nproc k.proc (sl'.node b).pid (pos_part (sl.node b).pid - 1) ≡ i
    → run_first b sl seed k
      ≡ done (record {
        next = some i;
        kernel = set_proc k i (dispatch (k.proc i) (sl'.node b).maxlevel);
        list = sl';
        seed = seed;
      })
unfolding run_first
run_first_run b sl sl' seed k deleted i d w = rw (d, w) refl

Owner-dispatch :
    (k : Kernel) (i level : ℕ) (e : ℤ × ℤ)
    → Owner k.proc e
    → Owner (set_proc k i (dispatch (k.proc i) level)).proc e
unfolding set_proc dispatch
Owner-dispatch k i level e o = record {
  index = o.index;
  index_lt = o.index_lt;
  used = ground (arith, o.used);
  is_entry = ground (arith, o.is_entry);
}

All-Owner-dispatch :
    (k : Kernel) (i level : ℕ) (q : List (ℤ × ℤ))
    → All (Owner k.proc) q
    → All (Owner (set_proc k i (dispatch (k.proc i) level)).proc) q
All-Owner-dispatch k i level [] h = tt
All-Owner-dispatch k i level (x ∷ q) h =
    (Owner-dispatch k i level x h.0, All-Owner-dispatch k i level q h.1)

module _ (stack : ℕ → ℕ) (k : Kernel) {sl : SkipList} (seed : ℕ) {q : List (ℤ × ℤ)}
    (idle : IsIdle k) (distinct : PidsDistinct k.proc) (t : Tracks k.proc sl q) where
  synced : Synced k.proc nproc (sync stack nproc k.proc sl seed)
  synced = (sync_exact k.proc distinct stack seed t).0

  runnable_listed :
      (j : ℕ)
      → j < nproc
      → (k.proc j).state ≡ runnable
      → has_entry (entry_of (k.proc j)) synced.queue ≡ true
  runnable_listed j lt e = synced.listed j lt (rw e refl) ∙ rw e refl

  nobody_runnable :
      synced.queue ≡ [] → (j : ℕ) → j < nproc → same_state (k.proc j).state runnable ≡ false
  unfolding has_entry
  nobody_runnable e j lt = elim (Bool-cases (same_state (k.proc j).state runnable)) [
    | inr no_one ↦ no_one
    | inl yes_one ↦ absurd (
        false≢true (
          ap (has_entry (entry_of (k.proc j))) (sym e)
          ∙ runnable_listed j lt (state_of_same (k.proc j).state runnable yes_one)))
  ]

  with_first :
      (xs : List ℕ)
      → IsSkipList synced.list xs
      → map (entry synced.list) xs ≡ synced.queue
      → Ran stack k sl seed
  unfolding set_proc synced
  with_first [] s e = record {
    round = record {
      next = none;
      kernel = settle k (entered k);
      list = synced.list;
      seed = synced.seed;
    };
    returned =
        schedule-none stack k (entered k) (settle k (entered k)) sl synced.list seed synced.seed
          (acquire_ptable-entered k idle) synced.returned (first_node-nodes [] s)
          (release_ptable-settle k (entered k) idle refl refl);
    decision = nobody (nobody_runnable (sym e)) refl refl (settle-Settled k (entered k));
    queue = synced.queue;
    tracks = synced.tracks;
  }
  with_first (b ∷ xs) s e =
      let v = (synced.list.node b).value in
      let pid = (synced.list.node b).pid in
      let head : has_entry (entry synced.list b) synced.queue ≡ true =
        ap (has_entry (entry synced.list b)) (sym e)
        ∙ has_first (entry synced.list b) (map (entry synced.list) xs) in
      let (i, lt, is, state) =
        (sync_exact k.proc distinct stack seed t).1 (entry synced.list b) head in
      let (deleted, sl', run, rep, gone, fields) =
        sl_delete-delete_entry v pid synced.tracks.represents in
      let level = (sl'.node b).maxlevel in
      let found : with_pid nproc k.proc (sl'.node b).pid (pos_part pid - 1) ≡ i =
        with_pid_unique nproc k.proc (sl'.node b).pid (pos_part pid - 1) i lt
          (ap (λ d. d.1) is ∙ sym (ap (λ d. d.1) (fields b)))
          (λ j hj q. sym (
            distinct i j lt hj (rw state refl)
              (ap (λ d. d.1) is ∙ sym (ap (λ d. d.1) (fields b)) ∙ sym q))) in
      let earliest : (k.proc i).vdeadline ≡ key synced.list b = ap (λ d. d.0) is in
      record {
        round = record {
          next = some i;
          kernel = set_proc (entered k) i (dispatch (k.proc i) level);
          list = sl';
          seed = synced.seed;
        };
        returned =
            schedule-some stack k (entered k) sl synced.list seed synced.seed b
              (acquire_ptable-entered k idle) synced.returned (first_node-nodes (b ∷ xs) s)
            ∙ run_first_run b synced.list sl' synced.seed (entered k) deleted i run found;
        decision =
            somebody i lt state
              (λ j hj ej.
                let le =
                  first_le synced.list b xs s.sorted (entry_of (k.proc j))
                    (ap (has_entry (entry_of (k.proc j))) e ∙ runnable_listed j hj ej) in
                rw earliest le)
              refl
              (rw (update_self k.proc i (dispatch (k.proc i) level))
                (dispatch-Dispatched (k.proc i) level))
              (λ j ne. ground arith);
        queue = delete_entry (v, pid) synced.queue;
        tracks = record {
          represents = rep;
          owned =
              All-Owner-dispatch (entered k) i level _
                (All-delete_entry (Owner k.proc) (v, pid) synced.queue synced.tracks.owned);
          once = NoDuplicates-delete_entry (v, pid) synced.queue synced.tracks.once;
        };
      }

  -- With `ptable.lock` free, distinct pids in use, and a skip list that stands for a queue of
  -- processes in use without duplicates, a round of the scheduler ends. If a process is RUNNABLE,
  -- one with the least virtual deadline is made RUNNING, keeps the ticks it has left or gets 50, and
  -- all others stay; if none is, the lock is released. The skip list goes on standing for such a queue.
  pub schedule-Decision : Ran stack k sl seed
  schedule-Decision =
      with_first synced.tracks.represents.nodes synced.tracks.represents.shape
        synced.tracks.represents.entries

-- ===== src/Scheduler/Sync/Table.antt =====
-- All turns of the loop over the process table.
use bf_scheduler.Common.{
  ℕ, zero, suc, ◌≤◌, ◌<◌, ◌≡◌, refl, Bool, true, false, List, arith, ◌==◌, ==→eq, Bool-cases, inl,
  inr, ◌∙◌, sym, ap, Outcome, done,
}
use bf_scheduler.Common.Int.{ℤ}
use mathlib.Core.Path.{subst}
use bf_scheduler.SkipList.{SkipList, nproc}
use bf_scheduler.SkipList.Delete.Entries.{has_entry, same_entry}
use bf_scheduler.Process.{
  ProcState, unused, embryo, sleeping, runnable, running, zombie, same_state, Proc,
}
use bf_scheduler.Scheduler.{sync_proc, sync}
use bf_scheduler.Scheduler.Queue.{same_entry→eq, same_entry_refl}
use bf_scheduler.Scheduler.Owners.{entry_of, Owner, All_has_entry}
use bf_scheduler.Scheduler.Sync.{Tracks, PidsDistinct, wanted, Turn, enqueue-Turn, dequeue-Turn}

module _ (proc : ℕ → Proc) (stack : ℕ → ℕ) {sl : SkipList} (seed : ℕ) {q : List (ℤ × ℤ)}
    (t : Tracks proc sl q) (n : ℕ) (lt : n < nproc) where
  sync_proc-Turn :
      (state : ProcState)
      → (proc n).state ≡ state
      → Turn proc (proc n) (sync_proc state stack sl seed (proc n)) (wanted state) q
  unfolding sync_proc
  sync_proc-Turn unused e = record {
    list = sl;
    seed = seed;
    queue = q;
    returned = refl;
    tracks = t;
    effect = λ d. ground arith;
  }
  sync_proc-Turn runnable e = enqueue-Turn proc stack seed t n lt (rw e refl)
  sync_proc-Turn embryo e = dequeue-Turn proc stack seed t n lt (rw e refl)
  sync_proc-Turn sleeping e = dequeue-Turn proc stack seed t n lt (rw e refl)
  sync_proc-Turn running e = dequeue-Turn proc stack seed t n lt (rw e refl)
  sync_proc-Turn zombie e = dequeue-Turn proc stack seed t n lt (rw e refl)

-- After the turns of the first `n` processes.
pub record Synced (proc : ℕ → Proc) (n : ℕ) (run : Outcome (SkipList × ℕ)) : Type 0 where
  pub list : SkipList
  pub seed : ℕ
  pub queue : List (ℤ × ℤ)
  pub returned : run ≡ done (list, seed)
  pub tracks : Tracks proc list queue
  pub listed :
      (i : ℕ)
      → i < n
      → same_state (proc i).state unused ≡ false
      → has_entry (entry_of (proc i)) queue ≡ same_state (proc i).state runnable

module _ (proc : ℕ → Proc) (distinct : PidsDistinct proc) (stack : ℕ → ℕ) {sl : SkipList} (seed : ℕ)
    {q : List (ℤ × ℤ)} (t : Tracks proc sl q) where
  other_entry :
      (i j : ℕ)
      → i < nproc
      → j < nproc
      → same_state (proc i).state unused ≡ false
      → (i == j) ≡ false
      → same_entry (entry_of (proc j)) (entry_of (proc i)) ≡ false
  other_entry i j hi hj used ne =
      elim (Bool-cases (same_entry (entry_of (proc j)) (entry_of (proc i)))) [
        | inr other ↦ other
        | inl match ↦
            let same : entry_of (proc j) ≡ entry_of (proc i) = same_entry→eq _ _ match in
            let at : i ≡ j = distinct i j hi hj used (sym (ap (λ e. e.1) same)) in
            absurd (ground arith)
      ]

  wanted_used :
      (s : ProcState) (b : Bool) → same_state s unused ≡ false → wanted s b ≡ same_state s runnable
  wanted_used unused b h = cc
  wanted_used _ b h = refl

  sync-Synced : (n : ℕ) → n ≤ nproc → Synced proc n (sync stack n proc sl seed)
  unfolding sync
  sync-Synced zero le = record {
    list = sl;
    seed = seed;
    queue = q;
    returned = refl;
    tracks = t;
    listed = λ i lt. absurd (omega arith);
  }
  sync-Synced (suc n) le =
      let s = sync-Synced n (omega arith) in
      let turn = sync_proc-Turn proc stack s.seed s.tracks n (omega arith) (proc n).state refl in
      record {
        list = turn.list;
        seed = turn.seed;
        queue = turn.queue;
        returned = rw s.returned turn.returned;
        tracks = turn.tracks;
        listed = λ i lt used. elim (Bool-cases (i == n)) [
          | inl here ↦
              subst
                (λ j.
                  same_state (proc j).state unused ≡ false
                  → has_entry (entry_of (proc j)) turn.queue ≡ same_state (proc j).state runnable)
                (sym (==→eq i n here))
                (λ u.
                  turn.effect (entry_of (proc n))
                  ∙ rw (same_entry_refl (entry_of (proc n)))
                      (wanted_used (proc n).state (has_entry (entry_of (proc n)) s.queue) u))
                used
          | inr other ↦
              turn.effect (entry_of (proc i))
              ∙ rw (other_entry i n (omega arith) (omega arith) used other)
                  (s.listed i (ground arith) used)
        ];
      }

pub state_of_same : (s t : ProcState) → same_state s t ≡ true → s ≡ t
state_of_same s t h = ground arith

-- If the pids in use are distinct and the skip list stands for a queue of processes in use without
-- duplicates, the loop over all processes ends, and the queue then holds exactly the RUNNABLE ones.
pub sync_exact :
    (proc : ℕ → Proc)
    → PidsDistinct proc
    → (stack : ℕ → ℕ) {sl : SkipList} (seed : ℕ) {q : List (ℤ × ℤ)} → Tracks proc sl q
    → (s : Synced proc nproc (sync stack nproc proc sl seed)) × ((d : ℤ × ℤ)
        → has_entry d s.queue ≡ true
        → (i : ℕ) × (i < nproc) × (entry_of (proc i) ≡ d) × ((proc i).state ≡ runnable))
sync_exact proc distinct stack seed t =
    let s = sync-Synced proc distinct stack seed t nproc (omega arith) in
    (
      s,
      λ d m.
          let o = All_has_entry (Owner proc) d s.queue s.tracks.owned m in
          (
            o.index,
            o.index_lt,
            o.is_entry,
            state_of_same (proc o.index).state runnable (
                sym (s.listed o.index o.index_lt o.used)
                ∙ ap (λ e. has_entry e s.queue) o.is_entry
                ∙ m),
          ),
    )

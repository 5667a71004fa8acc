-- ===== src/Scheduler/Sync.antt =====
-- The loop over the process table leaves exactly the RUNNABLE processes in the skip list.
pub mod Table
use bf_scheduler.Common.{
  ℕ, zero, suc, ◌≤◌, ◌<◌, ◌≡◌, refl, Bool, true, false, not, Option, none, some, List, arith, ◌&&◌,
  ◌||◌, ◌==◌, if◌then◌else◌, All, Bool-cases, Option-cases, inl, inr, ◌∙◌, sym, ap, Outcome, done,
  ◌>>=◌, length,
}
use bf_scheduler.Common.Int.{ℤ, eqb_ℤ, pos}
use bf_scheduler.SkipList.{SkipList, nproc, chance}
use bf_scheduler.SkipList.Shape.{Represents}
use bf_scheduler.SkipList.Search.{sl_search}
use bf_scheduler.SkipList.Seed.{sl_up_level}
use bf_scheduler.SkipList.Insert.{sl_insert}
use bf_scheduler.SkipList.Insert.Queue.{insert_entry}
use bf_scheduler.SkipList.Insert.Refine.{sl_insert-insert_entry}
use bf_scheduler.SkipList.Delete.{sl_delete}
use bf_scheduler.SkipList.Delete.Entries.{delete_entry, has_entry, same_entry, is_some}
use bf_scheduler.SkipList.Delete.Refine.{sl_search-has_entry, sl_delete-delete_entry}
use bf_scheduler.Process.{
  ProcState, unused, embryo, sleeping, runnable, running, zombie, same_state, Proc,
}
use bf_scheduler.Scheduler.{enqueue, dequeue, sync_proc, sync}
use bf_scheduler.Scheduler.Queue.{
  same_entry→eq, same_entry_refl, NoDuplicates, has_entry-insert_entry, has_entry-delete_entry,
  NoDuplicates-insert_entry, NoDuplicates-delete_entry,
}
use bf_scheduler.Scheduler.Owners.{
  entry_of, Owner, All-insert_entry, All-delete_entry, length-lt-nproc,
}

-- The skip list stands for a queue without duplicates, of entries of processes in use.
pub record Tracks (proc : ℕ → Proc) (sl : SkipList) (q : List (ℤ × ℤ)) : Type 0 where
  pub represents : Represents sl q
  pub owned : All (Owner proc) q
  pub once : NoDuplicates q

-- A process in use shares its pid with no other slot.
abbrev pub PidsDistinct : (ℕ → Proc) → Type 0
PidsDistinct proc =
    (i j : ℕ)
    → i < nproc
    → j < nproc
    → same_state (proc i).state unused ≡ false
    → (proc i).pid ≡ (proc j).pid
    → i ≡ j

-- Whether a process in this state has an entry after its turn, and had one before or not.
abbrev pub wanted : ProcState → Bool → Bool
wanted unused b = b
wanted runnable b = true
wanted _ b = false

-- The turn of the process `p`: it ends, and changes at most the entry of `p`.
pub record Turn (proc : ℕ → Proc) (p : Proc) (run : Outcome (SkipList × ℕ)) (want : Bool → Bool)
    (q : List (ℤ × ℤ)) : Type 0 where
  pub list : SkipList
  pub seed : ℕ
  pub queue : List (ℤ × ℤ)
  pub returned : run ≡ done (list, seed)
  pub tracks : Tracks proc list queue
  pub effect :
      (d : ℤ × ℤ)
      → has_entry d queue
        ≡ (if same_entry (entry_of p) d then want (has_entry d q) else has_entry d q)

module _ (proc : ℕ → Proc) (stack : ℕ → ℕ) {sl : SkipList} (seed : ℕ) {q : List (ℤ × ℤ)}
    (t : Tracks proc sl q) (n : ℕ) (lt : n < nproc)
    (used : same_state (proc n).state unused ≡ false) where
  abbrev entry : ℤ × ℤ
  entry = entry_of (proc n)

  -- An entry that matches that of the process is that of the process.
  has_match : (d : ℤ × ℤ) → same_entry entry d ≡ true → has_entry d q ≡ has_entry entry q
  has_match d m = ap (λ e. has_entry e q) (sym (same_entry→eq entry d m))

  pub enqueue-Turn : Turn proc (proc n) (enqueue stack sl seed (proc n)) (λ b. true) q
  unfolding enqueue
  enqueue-Turn =
      let (found, search, iff, holds) =
        sl_search-has_entry (proc n).vdeadline (proc n).pid t.represents in
      elim (Option-cases found) [
        | inr (b, e) ↦ record {
          list = sl;
          seed = seed;
          queue = q;
          returned = rw (search, e) refl;
          tracks = t;
          effect = λ d. ground (arith, has_match d, e, iff);
        }
        | inl e ↦
            let missing : has_entry entry q ≡ false = sym iff ∙ ap is_some e in
            let (sl', run, rep) =
              sl_insert-insert_entry stack seed (proc n).vdeadline (proc n).pid chance t.represents
                (length-lt-nproc proc n q lt t.owned t.once missing) in
            record {
              list = sl';
              seed = (sl_up_level chance seed).1;
              queue = insert_entry entry q;
              returned = rw (search, e) (rw run refl);
              tracks = record {
                represents = rep;
                owned =
                    All-insert_entry (Owner proc) entry q
                      (record { index = n; index_lt = lt; used = used; is_entry = refl }) t.owned;
                once = NoDuplicates-insert_entry entry q missing t.once;
              };
              effect = λ d. ground (arith, has_entry-insert_entry d entry q);
            }
      ]

  pub dequeue-Turn : Turn proc (proc n) (dequeue sl seed (proc n)) (λ b. false) q
  unfolding dequeue
  dequeue-Turn =
      let (found, search, iff, holds) =
        sl_search-has_entry (proc n).vdeadline (proc n).pid t.represents in
      elim (Option-cases found) [
        | inl e ↦ record {
          list = sl;
          seed = seed;
          queue = q;
          returned = rw (search, e) refl;
          tracks = t;
          effect = λ d. ground (arith, has_match d, e, iff);
        }
        | inr (b, e) ↦
            let (deleted, sl', run, rep, gone, fields) =
              sl_delete-delete_entry (proc n).vdeadline (proc n).pid t.represents in
            record {
              list = sl';
              seed = seed;
              queue = delete_entry entry q;
              returned = rw (search, e) (rw run refl);
              tracks = record {
                represents = rep;
                owned = All-delete_entry (Owner proc) entry q t.owned;
                once = NoDuplicates-delete_entry entry q t.once;
              };
              effect = λ d. ground (arith, has_entry-delete_entry d entry q t.once);
            }
      ]

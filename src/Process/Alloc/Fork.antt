-- ===== src/Process/Alloc/Fork.antt =====
-- What `nicefork` does on every branch.
use bf_scheduler.Common.{
  ℕ, ◌<◌, ◌≡◌, refl, true, false, none, some, ◌||◌, done, Option, ◌==◌, ◌⊎◌, Bool,
}
use bf_scheduler.Common.Int.{ℤ, pos, ltb_ℤ, ◌+ℤ◌}
use bf_scheduler.SkipList.{nproc, minus_one}
use bf_scheduler.Process.{unused, embryo, runnable, same_state, Proc, Kernel, set_proc}
use bf_scheduler.Process.Deadline.{virtual_deadline, IsNice, nice_first_level, nice_last_level}
use bf_scheduler.Process.Section.{
  IsIdle, entered, settle, acquire_ptable-entered, release_ptable-settle,
}
use bf_scheduler.Process.Scan.{first_from, IsFirst}
use bf_scheduler.Process.Alloc.{claim, prepare, allocproc, fill_child, nicefork}

-- The test of `allocproc`.
abbrev pub free_slot : (ℕ → Proc) → ℕ → Bool
free_slot p i = same_state (p i).state unused

-- The outcomes of `nicefork`: the table before and after, the pid counter before and after, and
-- the result.
pub data Forked (page pgdir : Option ℕ) (cur ticks : ℕ) (nice : ℤ) (p p' : ℕ → Proc)
    (next next' r : ℤ) : Type 0 where
  rejected :
      (IsNice nice → ⊥)
      → r ≡ minus_one
      → p' ≡ p
      → next' ≡ next
      → Forked page pgdir cur ticks nice p p' next next' r
  no_slot :
      IsNice nice
      → ((i : ℕ) → i < nproc → free_slot p i ≡ false)
      → r ≡ minus_one
      → p' ≡ p
      → next' ≡ next
      → Forked page pgdir cur ticks nice p p' next next' r
  no_memory :
      (i : ℕ)
      → IsNice nice
      → IsFirst (free_slot p) 0 nproc i
      → (page ≡ none) ⊎ (pgdir ≡ none)
      → r ≡ minus_one
      → (p' i).state ≡ unused
      → ((j : ℕ) → (j == i) ≡ false → p' j ≡ p j)
      → next' ≡ next +ℤ pos 1
      → Forked page pgdir cur ticks nice p p' next next' r
  child :
      (i : ℕ)
      → IsNice nice
      → IsFirst (free_slot p) 0 nproc i
      → r ≡ next
      → (p' i).state ≡ runnable
      → (p' i).pid ≡ next
      → (p' i).parent ≡ some cur
      → (p' i).niceness ≡ nice
      → (p' i).vdeadline ≡ virtual_deadline ticks nice
      → ((p' i).kstack ≡ page) × ((p' i).pgdir ≡ pgdir)
      → ((j : ℕ) → (j == i) ≡ false → p' j ≡ p j)
      → next' ≡ next +ℤ pos 1
      → Forked page pgdir cur ticks nice p p' next next' r

-- `allocproc` under the lock, with a free slot `i`.
abbrev pub claimed : ℕ → Kernel → Kernel
claimed i k = record (set_proc k i (record (k.proc i) { state = embryo; pid = k.nextpid })) {
  nextpid = k.nextpid +ℤ pos 1;
}

claim-none : (k : Kernel) → first_from (free_slot k.proc) nproc 0 ≡ none → claim k ≡ (none, k)
unfolding claim
claim-none k e = rw (e, claim) refl

claim-some :
    (k : Kernel) (i : ℕ)
    → first_from (free_slot k.proc) nproc 0 ≡ some i
    → claim k ≡ (some i, claimed i k)
unfolding claim
claim-some k i e = rw (e, claim) refl

-- The child before and after it is made RUNNABLE.
abbrev pub filled_in : ℕ → ℤ → ℕ → ℕ → Proc → Proc → Proc
filled_in ticks nice cur d parent np = record np {
  pgdir = some d;
  sz = parent.sz;
  parent = some cur;
  niceness = nice;
  vdeadline = virtual_deadline ticks nice;
}

module _ (ticks ticks' : ℕ) (page : Option ℕ) (cur : ℕ) (nice : ℤ) (k : Kernel)
    (idle : IsIdle k) where
  pub allocproc-none :
      first_from (free_slot k.proc) nproc 0 ≡ none
      → allocproc ticks page k ≡ done (none, settle k (entered k))
  unfolding allocproc
  allocproc-none e =
      rw (acquire_ptable-entered k idle)
        (rw (claim-none (entered k) e) (rw (release_ptable-settle k (entered k) idle refl refl)))

  pub allocproc-some :
      (i : ℕ)
      → first_from (free_slot k.proc) nproc 0 ≡ some i
      → allocproc ticks page k ≡ done (prepare ticks page i (settle k (claimed i (entered k))))
  unfolding allocproc set_proc
  allocproc-some i e = rw (acquire_ptable-entered k idle) (
      rw (claim-some (entered k) i e)
        (rw (release_ptable-settle k (claimed i (entered k)) idle refl refl)))

  abbrev pub child_at : ℕ → ℕ → Kernel
  child_at i d = set_proc k i (filled_in ticks' nice cur d (k.proc cur) (k.proc i))

  abbrev pub started : ℕ → ℕ → Kernel
  started i d =
      set_proc (entered (child_at i d)) i
        (record ((entered (child_at i d)).proc i) { state = runnable })

  pub fill_run :
      (i d : ℕ)
      → fill_child ticks' nice cur (some d) i k
        ≡ done (((child_at i d).proc i).pid, settle (child_at i d) (started i d))
  unfolding fill_child set_proc
  fill_run i d =
      rw (acquire_ptable-entered (child_at i d) (record { free = idle.free; masked = idle.masked }))
        (rw (
          release_ptable-settle (child_at i d) (started i d)
            (record { free = idle.free; masked = idle.masked }) refl refl))

  pub fill_none :
      (i : ℕ)
      → fill_child ticks' nice cur none i k
        ≡ done (
          minus_one,
          set_proc k i (record (k.proc i) { pgdir = none; kstack = none; state = unused }),
        )
  unfolding fill_child
  fill_none i = refl

  pub nicefork_rejected :
      (pgdir : Option ℕ)
      → (ltb_ℤ nice nice_first_level || ltb_ℤ nice_last_level nice) ≡ true
      → nicefork ticks ticks' page pgdir cur nice k ≡ done (minus_one, k)
  unfolding nicefork
  nicefork_rejected pgdir e = rw e

  pub nicefork_accepted :
      (pgdir : Option ℕ) (slot : Option ℕ) (k' : Kernel)
      → (ltb_ℤ nice nice_first_level || ltb_ℤ nice_last_level nice) ≡ false
      → allocproc ticks page k ≡ done (slot, k')
      → nicefork ticks ticks' page pgdir cur nice k ≡ (elim slot [
        | none ↦ done (minus_one, k')
        | some i ↦ fill_child ticks' nice cur pgdir i k'
      ])
  unfolding nicefork
  nicefork_accepted pgdir slot k' e f = rw (e, f) refl

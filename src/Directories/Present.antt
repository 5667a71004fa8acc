-- ===== src/Directories/Present.antt =====
-- What `dirlink` does if the name is present: `iget` of its inode, and `iput` of it.
use bf_scheduler.Common.{
  ℕ, ◌+◌, ◌-◌, ◌<◌, ◌≡◌, arith, false, ◌==◌, ltb, inl, inr, Bool-cases, ap, ◌∙◌, sym, Outcome, done,
  panicked, out_of_bounds, out_of_fuel, ◌>>=◌,
}
use bf_scheduler.Inodes.{Inode, Cache, ninode, is_copy, iget, iput}
use bf_scheduler.Inodes.Sharing.{IsShared, Got, cache_full, got, iget-Got}
use bf_scheduler.Directories.{DirState, Linked, present}

-- A panic if the cache has no room for the inode. Otherwise the result that stands for -1, with nothing
-- to truncate, the directory and the disk as in `s`, and every inode of the cache with as many references
-- as before; one that is in use is the same in all fields.
pub data Refused (c : Cache) (dev inum : ℕ) (s : DirState)
    : Outcome (Linked × Cache × DirState) → Type 0 where
  no_inode :
      ((j : ℕ) → j < ninode → (0 < (c j).ref) × (is_copy dev inum (c j) ≡ false))
      → Refused c dev inum s panicked
  refused :
      (c' : Cache)
      → ((j : ℕ) → (c' j).ref ≡ (c j).ref)
      → ((j : ℕ) → 0 < (c j).ref → c' j ≡ c j)
      → Refused c dev inum s (done (present false, c', s))

abbrev put_back : DirState → ℕ × Cache → Outcome (Linked × Cache × DirState)
put_back s r = done (present (iput r.1 r.0).0, (iput r.1 r.0).1, s)

module _ (c c' : Cache) (i : ℕ) (one_more : (c' i).ref ≡ (c i).ref + 1)
    (used : 0 < (c i).ref → c' i ≡ record (c i) { ref = (c i).ref + 1 })
    (fresh : (c i).ref ≡ 0 → (c' i).valid ≡ false)
    (others : (j : ℕ) → (j == i) ≡ false → c' j ≡ c j) where
  iput-keeps : (iput c' i).0 ≡ false
  unfolding iput
  iput-keeps = elim (Bool-cases (ltb 0 (c i).ref)) [
    | inl busy ↦ ground (arith, one_more)
    | inr free ↦ ground (arith, fresh)
  ]

  abbrev one_less : Inode
  one_less = record (c' i) { ref = (c' i).ref - 1 }

  iput-at : (iput c' i).1 i ≡ one_less
  unfolding iput
  iput-at = let e = iput-keeps in ground (arith, e)

  iput-other : (j : ℕ) → (j == i) ≡ false → (iput c' i).1 j ≡ c j
  unfolding iput
  iput-other j ne = ground (arith, others j ne)

  iput-ref : (j : ℕ) → ((iput c' i).1 j).ref ≡ (c j).ref
  iput-ref j = elim (Bool-cases (j == i)) [
    | inl here ↦ ground (arith, iput-at, one_more)
    | inr other ↦ ap (λ (ip : Inode). ip.ref) (iput-other j other)
  ]

  iput-same : (j : ℕ) → 0 < (c j).ref → (iput c' i).1 j ≡ c j
  iput-same j busy = elim (Bool-cases (j == i)) [
    | inl here ↦
        let n : (c i).ref + 1 - 1 ≡ (c i).ref = omega arith in
        let e : j ≡ i = ground arith in
        rw e (
          iput-at
          ∙ ap (λ (ip : Inode). record ip { ref = ip.ref - 1 }) (used (rw (sym e) busy))
          ∙ ap (λ (k : ℕ). record (c i) { ref = k }) n)
    | inr other ↦ iput-other j other
  ]

Refused-Got :
    (c : Cache) (dev inum : ℕ) (s : DirState) (r : Outcome (ℕ × Cache))
    → Got c dev inum r
    → Refused c dev inum s (r >>= put_back s)
Refused-Got c dev inum s panicked (cache_full all) = no_inode all
Refused-Got c dev inum s out_of_bounds g = elim g [ ]
Refused-Got c dev inum s out_of_fuel g = elim g [ ]
Refused-Got c dev inum s (done r) (got i c' lt copy more used fresh others shared) =
    let e = iput-keeps c c' i more used fresh others in
    rw e (
      refused (iput c' i).1 (iput-ref c c' i more used fresh others)
        (iput-same c c' i more used fresh others))

pub iget-iput :
    (c : Cache) (dev inum : ℕ) (s : DirState)
    → IsShared c
    → Refused c dev inum s
        (iget c dev inum >>= λ (i, c'). done (present (iput c' i).0, (iput c' i).1, s))
iget-iput c dev inum s shared =
    Refused-Got c dev inum s (iget c dev inum) (iget-Got c dev inum shared)

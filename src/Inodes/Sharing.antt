-- ===== src/Inodes/Sharing.antt =====
-- One copy in memory of each inode in use.
use bf_scheduler.Common.{
  ℕ, zero, suc, ◌+◌, ◌≤◌, ◌<◌, ◌≡◌, ◌↔◌, refl, arith, true, false, Option, none, some, ◌==◌, ◌⊎◌,
  inl, inr, Bool-cases, Outcome, done, panicked,
}
use bf_scheduler.Inodes.{Cache, ninode, is_copy, next_empty, iget_scan, iget, iput}

-- No two inodes in use are copies of the same inode on the disk.
abbrev pub IsShared : Cache → Type 0
IsShared c =
    (i j : ℕ)
    → i < ninode
    → j < ninode
    → (i == j) ≡ false
    → 0 < (c j).ref
    → is_copy (c j).dev (c j).inum (c i) ≡ false

-- What `iget_scan` up to `stop` finds.
data Scanned (c : Cache) (dev inum i stop : ℕ) (before : Option ℕ) (r : Option ℕ × Option ℕ)
    : Type 0 where
  copy_at :
      (j : ℕ)
      → r.0 ≡ some j
      → j < stop
      → is_copy dev inum (c j) ≡ true
      → Scanned c dev inum i stop before r
  all_used :
      r.0 ≡ none
      → r.1 ≡ none
      → before ≡ none
      → ((j : ℕ) → i ≤ j → j < stop → (0 < (c j).ref) × (is_copy dev inum (c j) ≡ false))
      → Scanned c dev inum i stop before r
  empty_at :
      (e : ℕ)
      → r.0 ≡ none
      → r.1 ≡ some e
      → (before ≡ some e) ⊎ ((e < stop) × ((c e).ref ≡ 0))
      → ((j : ℕ) → i ≤ j → j < stop → is_copy dev inum (c j) ≡ false)
      → Scanned c dev inum i stop before r

next_empty_from :
    (c : Cache) (i e : ℕ) (before : Option ℕ)
    → next_empty c i before ≡ some e
    → (before ≡ some e) ⊎ ((e ≡ i) × ((c i).ref ≡ 0))
next_empty_from c i e none h = inr (ground arith)
next_empty_from c i e (some b) h = inl h

next_empty-none :
    (c : Cache) (i : ℕ) (before : Option ℕ)
    → next_empty c i before ≡ none
    → (before ≡ none) × (0 < (c i).ref)
next_empty-none c i none h = ground arith
next_empty-none c i (some b) h = ground arith

iget_scan-Scanned :
    (c : Cache) (dev inum n i : ℕ) (before : Option ℕ)
    → Scanned c dev inum i (i + n) before (iget_scan c dev inum n i before)
unfolding iget_scan
iget_scan-Scanned c dev inum zero i none = all_used refl refl refl (λ j lo hi. ground arith)
iget_scan-Scanned c dev inum zero i (some e) =
    empty_at e refl refl (inl refl) (λ j lo hi. ground arith)
iget_scan-Scanned c dev inum (suc n) i before = elim (Bool-cases (is_copy dev inum (c i))) [
  | inl here ↦ copy_at i (ground (arith, here)) (omega arith) here
  | inr other ↦ elim (iget_scan-Scanned c dev inum n (suc i) (next_empty c i before)) [
    | copy_at j e lt m ↦ copy_at j (ground (arith, e)) (omega arith) m
    | all_used e0 e1 b all ↦
        all_used (ground (arith, e0)) (ground (arith, e1)) (next_empty-none c i before b).0
          (λ j lo hi. elim (Bool-cases (j == i)) [
            | inl at ↦ ground (arith, (next_empty-none c i before b).1)
            | inr ne ↦ all j (ground arith) (omega arith)
          ])
    | empty_at e e0 e1 from none_copy ↦
        empty_at e (ground (arith, e0)) (ground (arith, e1))
          (elim from [
            | inl b ↦ elim (next_empty_from c i e before b) [
              | inl b' ↦ inl b'
              | inr (at, free) ↦ inr (ground arith)
            ]
            | inr (lt, free) ↦ inr (omega arith, free)
          ])
          (λ j lo hi. elim (Bool-cases (j == i)) [
            | inl at ↦ ground arith
            | inr ne ↦ none_copy j (ground arith) (omega arith)
          ])
  ]
]

-- What `iget` returns: a panic if all inodes are in use, none for this number; or a copy.
pub data Got (c : Cache) (dev inum : ℕ) : Outcome (ℕ × Cache) → Type 0 where
  cache_full :
      ((j : ℕ) → j < ninode → (0 < (c j).ref) × (is_copy dev inum (c j) ≡ false))
      → Got c dev inum panicked
  got :
      (i : ℕ) (c' : Cache)
      → i < ninode
      → is_copy dev inum (c' i) ≡ true
      → (c' i).ref ≡ (c i).ref + 1
      → (0 < (c i).ref → c' i ≡ record (c i) { ref = (c i).ref + 1 })
      → ((c i).ref ≡ 0 → (c' i).valid ≡ false)
      → ((j : ℕ) → (j == i) ≡ false → c' j ≡ c j)
      → IsShared c'
      → Got c dev inum (done (i, c'))

-- If no two inodes in use are copies of the same inode, `iget` panics only if all are in use and none
-- is a copy of the inode asked for. Otherwise it returns a copy of it with one reference more: the one
-- in use, with its contents, or a free one, which is then not valid. No other inode changes, and still
-- no two in use are copies of the same inode.
pub iget-Got : (c : Cache) (dev inum : ℕ) → IsShared c → Got c dev inum (iget c dev inum)
unfolding iget
iget-Got c dev inum shared = elim (iget_scan-Scanned c dev inum ninode 0 none) [
  | copy_at j e lt m ↦
      rw (iget, e)
        (got j _ lt (ground arith) (ground arith) (λ h. ground arith) (λ h. ground arith)
          (λ a ne. ground arith) (λ a b al bl ne used. ground (arith, shared a b al bl ne)))
  | all_used e0 e1 b all ↦ rw (iget, e0, e1) (cache_full (λ j lt. all j (omega arith) lt))
  | empty_at e e0 e1 from none_copy ↦
      rw (iget, e0, e1)
        (got e _ (ground arith) (ground arith) (ground arith) (λ h. ground arith)
          (λ h. ground arith) (λ a ne. ground arith)
          (λ a b al bl ne used. ground (
            arith,
            shared a b al bl ne,
            none_copy a (omega arith) al,
            none_copy b (omega arith) bl,
          )))
]

-- If no two inodes in use are copies of the same inode, this stays so when `iput` drops a reference
-- to one in use. The inode is freed on the disk exactly if that was the last reference to a valid
-- copy without links, and the copy is then no longer valid.
pub iput-IsShared :
    (c : Cache) (i : ℕ)
    → IsShared c
    → i < ninode
    → 0 < (c i).ref
    → (((iput c i).0 ≡ true) ↔ (((c i).valid ≡ true) × ((c i).nlink ≡ 0) × ((c i).ref ≡ 1)))
      × (((iput c i).1 i).ref + 1 ≡ (c i).ref)
      × ((iput c i).0 ≡ true → ((iput c i).1 i).valid ≡ false)
      × IsShared (iput c i).1
unfolding iput
iput-IsShared c i shared lt used = (
  (λ h. ground arith, λ h. ground arith),
  ground arith,
  λ h. ground arith,
  λ a b al bl ne busy. ground (arith, shared a b al bl ne),
)

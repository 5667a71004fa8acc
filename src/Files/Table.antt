-- ===== src/Files/Table.antt =====
-- The reference counts of the file table: `refs` lists the files that the open descriptors refer to.
use bf_scheduler.Common.{
  ℕ, zero, suc, ◌+◌, ◌-◌, ◌<◌, ◌≤◌, ◌≡◌, refl, arith, true, false, Option, none, some, ◌==◌,
  if◌then◌else◌, update, update_self, List, [], ◌∷◌, has, ◌∈◌, ◌⊎◌, inl, inr, Bool-cases, done,
}
use bf_scheduler.Files.{
  nfile, FileType, fd_none, fd_pipe, fd_inode, Table, alloc_from, filealloc, filedup, Closing,
  keeps, closing, fileclose,
}

abbrev pub count : ℕ → List ℕ → ℕ
count i [] = 0
count i (x ∷ xs) = if i == x then suc (count i xs) else count i xs

-- The list without one of its descriptors of file `i`.
abbrev pub remove : ℕ → List ℕ → List ℕ
remove i [] = []
remove i (x ∷ xs) = if i == x then xs else x ∷ remove i xs

abbrev pub IsCounted : Table → List ℕ → Type 0
IsCounted t refs = (i : ℕ) → i < nfile → (t i).ref ≡ count i refs

count-has : (i : ℕ) (xs : List ℕ) → has i xs ≡ true → 0 < count i xs
count-has i [] h = ground arith
count-has i (x ∷ xs) h = ground (arith, count-has i xs)

has-count : (i : ℕ) (xs : List ℕ) → has i xs ≡ false → count i xs ≡ 0
has-count i [] h = refl
has-count i (x ∷ xs) h = ground (arith, has-count i xs)

count-remove_same : (i : ℕ) (xs : List ℕ) → count i (remove i xs) ≡ count i xs - 1
count-remove_same i [] = refl
count-remove_same i (x ∷ xs) = ground (arith, count-remove_same i xs)

count-remove_other : (i j : ℕ) (xs : List ℕ) → (j == i) ≡ false → count j (remove i xs) ≡ count j xs
count-remove_other i j [] ne = refl
count-remove_other i j (x ∷ xs) ne = ground (arith, count-remove_other i j xs ne)

-- What `alloc_from` finds: a file without references, or that all have some.
alloc_from-cases :
    (t : Table) (n i : ℕ)
    → ((alloc_from t n i ≡ none) × ((j : ℕ) → i ≤ j → j < i + n → 0 < (t j).ref))
      ⊎ ((j : ℕ) × (alloc_from t n i ≡ some j) × (j < i + n) × ((t j).ref ≡ 0))
unfolding alloc_from
alloc_from-cases t zero i = inl (refl, λ j lo hi. omega arith)
alloc_from-cases t (suc n) i = elim (Bool-cases ((t i).ref == 0)) [
  | inl free ↦ inr (i, ground arith, omega arith, ground arith)
  | inr busy ↦ elim (alloc_from-cases t n (suc i)) [
    | inl (e, all) ↦ inl (ground (arith, e), λ j lo hi. ground (arith, all j))
    | inr (j, e, lt, free) ↦ inr (j, ground (arith, e), omega arith, free)
  ]
]

-- The results of `filealloc`.
pub data Allocated (t : Table) (refs : List ℕ) : Option ℕ × Table → Type 0 where
  table_full : ((i : ℕ) → i < nfile → i ∈ refs) → Allocated t refs (none, t)
  allocated :
      (i : ℕ) (t' : Table)
      → i < nfile
      → has i refs ≡ false
      → IsCounted t' (i ∷ refs)
      → ((j : ℕ) → (j == i) ≡ false → t' j ≡ t j)
      → Allocated t refs (some i, t')

-- If the counts are those of the open descriptors, `filealloc` fails only when descriptors refer to all
-- files. Otherwise it returns a file that no descriptor refers to, the counts stay right with the new
-- reference, and no other file changes.
pub filealloc-Allocated :
    (t : Table) (refs : List ℕ) → IsCounted t refs → Allocated t refs (filealloc t)
unfolding filealloc
filealloc-Allocated t refs c = elim (alloc_from-cases t nfile 0) [
  | inl (e, all) ↦
      rw (filealloc, e)
        (table_full (λ i lt. elim (Bool-cases (has i refs)) [
          | inl h ↦ h
          | inr out ↦ ground (arith, all i, c i lt, has-count i refs out)
        ]))
  | inr (i, e, lt, free) ↦
      rw (filealloc, e)
        (allocated i _ lt
          (elim (Bool-cases (has i refs)) [
            | inl h ↦ ground (arith, count-has i refs h, c i lt)
            | inr out ↦ out
          ])
          (λ j jlt. ground (arith, c j jlt)) (λ j ne. ground arith))
]

-- What `fileclose` leaves: one reference less, and the object of the file closed if it was the last.
pub record Closed (t : Table) (refs : List ℕ) (i : ℕ) (did : Closing) (t' : Table) : Type 0 where
  pub counted : IsCounted t' (remove i refs)
  pub still_open : has i (remove i refs) ≡ true → did ≡ keeps
  pub closes_pipe :
      has i (remove i refs) ≡ false
      → (t i).type ≡ fd_pipe
      → did ≡ Closing.closes_pipe (t i).pipe (t i).writable
  pub puts_inode :
      has i (remove i refs) ≡ false → (t i).type ≡ fd_inode → did ≡ Closing.puts_inode (t i).ip
  pub closes_nothing : has i (remove i refs) ≡ false → (t i).type ≡ fd_none → did ≡ keeps
  pub free : has i (remove i refs) ≡ false → t' i ≡ record (t i) { ref = 0; type = fd_none }
  pub keeps_open : has i (remove i refs) ≡ true → t' i ≡ record (t i) { ref = (t i).ref - 1 }
  pub others : (j : ℕ) → (j == i) ≡ false → t' j ≡ t j

-- If the counts are those of the open descriptors and one of them refers to file `i`, `fileclose` does
-- not panic; the counts stay right without that reference, if no other descriptor refers to the
-- file, its pipe end or inode is closed and the file is free, otherwise nothing is closed, and no other
-- file changes.
pub fileclose-Closed :
    (t : Table) (refs : List ℕ) (i : ℕ)
    → IsCounted t refs
    → i < nfile
    → i ∈ refs
    → (did : Closing) × (t' : Table) × (fileclose t i ≡ done (did, t')) × Closed t refs i did t'
unfolding fileclose
fileclose-Closed t refs i c lt mem =
    let positive : 0 < (t i).ref = ground (arith, count-has i refs mem, c i lt) in
    let left : count i (remove i refs) ≡ (t i).ref - 1 =
      ground (arith, count-remove_same i refs, c i lt) in
    elim (Bool-cases (has i (remove i refs))) [
      | inl more ↦ (
        keeps,
        update t i (record (t i) { ref = (t i).ref - 1 }),
        ground (arith, count-has i (remove i refs) more),
        record {
          counted = λ j jlt. ground (arith, left, c j jlt, count-remove_other i j refs);
          still_open = λ h. refl;
          closes_pipe = λ h e. ground arith;
          puts_inode = λ h e. ground arith;
          closes_nothing = λ h e. refl;
          free = λ h. ground arith;
          keeps_open = λ h. update_self t i _;
          others = λ j ne. ground arith;
        },
      )
      | inr last ↦ (
        closing (t i),
        update t i (record (t i) { ref = 0; type = FileType.fd_none }),
        ground (arith, has-count i (remove i refs) last),
        record {
          counted = λ j jlt.
              ground (
                arith,
                left,
                has-count i (remove i refs) last,
                c j jlt,
                count-remove_other i j refs,
              );
          still_open = λ h. ground arith;
          closes_pipe = λ h e. rw e refl;
          puts_inode = λ h e. rw e refl;
          closes_nothing = λ h e. rw e refl;
          free = λ h. update_self t i _;
          keeps_open = λ h. ground arith;
          others = λ j ne. ground arith;
        },
      )
    ]

-- If the counts are those of the open descriptors and one of them refers to file `i`, `filedup` does
-- not panic, and the counts stay right with one more reference.
pub filedup-IsCounted :
    (t : Table) (refs : List ℕ) (i : ℕ)
    → IsCounted t refs
    → i < nfile
    → i ∈ refs
    → (t' : Table) × (filedup t i ≡ done t') × IsCounted t' (i ∷ refs)
unfolding filedup
filedup-IsCounted t refs i c lt mem = (
  update t i (record (t i) { ref = (t i).ref + 1 }),
  ground (arith, count-has i refs mem, c i lt),
  λ j jlt. ground (arith, c j jlt),
)

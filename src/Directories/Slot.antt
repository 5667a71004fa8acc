-- ===== src/Directories/Slot.antt =====
-- The place for a new entry, and the entries beside it.
use bf_scheduler.Common.{
  ℕ, zero, suc, ◌+◌, ◌*◌, ◌%◌, ◌^◌, ◌≤◌, ◌<◌, ◌≡◌, refl, arith, Bool, true, false, none, some, ◌==◌,
  ltb, if◌then◌else◌, inl, inr, Bool-cases, sym, ap, ◌∙◌, done,
}
use bf_scheduler.Strings.{Memory}
use bf_scheduler.Paths.{dir_size}
use bf_scheduler.Blocks.{Superblock}
use bf_scheduler.Contents.{load_short}
use bf_scheduler.Contents.Layout.{contents}
use bf_scheduler.Directories.{dirent_size, DirState, find_empty}
use bf_scheduler.Directories.Entry.{
  is_match, first_match, IsDirectory, same_name_cong, with_dirent, with_dirent-outside,
  with_dirent-inum, read_entry-with_dirent,
}
use bf_scheduler.Directories.Lookup.{SameBut}

-- The first entry that is free, of `n` entries from `off` on, or the end.
unfoldable pub first_free : Memory → ℕ → ℕ → ℕ
first_free g zero off = off
first_free g (suc n) off =
    let rest = first_free g n (off + dirent_size) in if load_short g off == 0 then off else rest

pub find_empty-first_free :
    (sb : Superblock) (has_read : ℕ → Bool) (de fuel n off : ℕ) (s : DirState)
    → IsDirectory s.disk s.dir
    → off + dirent_size * n ≡ s.dir.size
    → n ≤ fuel
    → (m' : Memory) × (find_empty sb has_read de fuel off s
        ≡ done (first_free (contents s.disk s.dir) n off, record s { memory = m' }))
      × SameBut de s.memory m'
unfolding find_empty first_free
find_empty-first_free sb has_read de zero zero off s dir at enough =
    (s.memory, ground (arith, at), λ a out. refl)
find_empty-first_free sb has_read de (suc fuel) zero off s dir at enough =
    let end : ltb off s.dir.size ≡ false = ground arith in
    (s.memory, rw (find_empty, end) refl, λ a out. refl)
find_empty-first_free sb has_read de zero (suc n) off s dir at enough = ground arith
find_empty-first_free sb has_read de (suc fuel) (suc n) off s dir at enough =
    let g : Memory = contents s.disk s.dir in
    let m1 : Memory = with_dirent s.memory de g off in
    let more : ltb off s.dir.size ≡ true = ground arith in
    let next : (off + dirent_size) % 2 ^ 32 ≡ off + dirent_size = omega (arith, dir.small) in
    let read = read_entry-with_dirent sb has_read de off s dir (omega arith) in
    let same = with_dirent-outside s.memory g de off in
    let inum = with_dirent-inum s.memory g de off in
    elim (Bool-cases (load_short g off == 0)) [
      | inl free ↦ (m1, rw (find_empty, more, read, inum, free) refl, same)
      | inr taken ↦
          let (m', run, same') =
            find_empty-first_free sb has_read de fuel n (off + dirent_size)
              (record s { memory = m1 }) dir (omega arith) (omega arith) in
          let step : find_empty sb has_read de (suc fuel) off s
              ≡ find_empty sb has_read de fuel (off + dirent_size) (record s { memory = m1 }) =
            rw (find_empty, more, read, inum, taken, next) refl in
          let later : first_free g (suc n) off ≡ first_free g n (off + dirent_size) =
            rw taken refl in
          (
            m',
            step ∙ run ∙ ap (λ (o : ℕ). done (o, record s { memory = m' })) (sym later),
            λ a out. same' a out ∙ same a out,
          )
    ]

pub first_free_index :
    (g : Memory) (n off : ℕ)
    → (j : ℕ) × (first_free g n off ≡ off + dirent_size * j)
      × (j ≤ n)
      × (j < n → load_short g (off + dirent_size * j) ≡ 0)
unfolding first_free
first_free_index g zero off = (0, omega arith, omega arith, λ lt. ground arith)
first_free_index g (suc n) off = elim (Bool-cases (load_short g off == 0)) [
  | inl free ↦
      let e : off + dirent_size * 0 ≡ off = omega arith in
      (0, rw free (omega arith), omega arith, λ lt. rw e (ground arith))
  | inr taken ↦
      let (j, at, le, free) = first_free_index g n (off + dirent_size) in
      let e : off + dirent_size + dirent_size * j ≡ off + dirent_size * suc j = omega arith in
      (suc j, rw taken (at ∙ e), omega arith, λ lt. rw (sym e) (free (omega arith)))
]

-- No entry matches.
pub first_match-none :
    (m g : Memory) (name n off : ℕ)
    → first_match m name g n off ≡ none
    → (i : ℕ) → i < n
    → is_match m name g (off + dirent_size * i) ≡ false
unfolding first_match
first_match-none m g name zero off h i lt = ground arith
first_match-none m g name (suc n) off h zero lt =
    let e : off + dirent_size * 0 ≡ off = omega arith in rw e (ground (arith, h))
first_match-none m g name (suc n) off h (suc i) lt =
    let e : off + dirent_size * suc i ≡ off + dirent_size + dirent_size * i = omega arith in
    rw e (first_match-none m g name n (off + dirent_size) (ground (arith, h)) i (omega arith))

-- The entry `j` is the first one that matches.
pub first_match-some :
    (m g : Memory) (name n off j : ℕ)
    → j < n
    → ((i : ℕ) → i < j → is_match m name g (off + dirent_size * i) ≡ false)
    → is_match m name g (off + dirent_size * j) ≡ true
    → first_match m name g n off ≡ some (off + dirent_size * j)
unfolding first_match
first_match-some m g name zero off j lt before here = ground arith
first_match-some m g name (suc n) off zero lt before here =
    let e : off + dirent_size * 0 ≡ off = omega arith in
    let first : is_match m name g off ≡ true = rw e at here in rw e (rw first refl)
first_match-some m g name (suc n) off (suc j) lt before here =
    let e : off + dirent_size * suc j ≡ off + dirent_size + dirent_size * j = omega arith in
    let e0 : off + dirent_size * 0 ≡ off = omega arith in
    let first : is_match m name g off ≡ false = rw e0 at (before 0 (omega arith)) in
    let rest =
      first_match-some m g name n (off + dirent_size) j (omega arith)
        (λ i il.
          let e' : off + dirent_size + dirent_size * i ≡ off + dirent_size * suc i = omega arith in
          rw e' (before (suc i) (omega arith)))
        (rw (sym e) here) in
    rw (first, rest) (ap (λ (o : ℕ). some o) (sym e))

pub is_match_cong :
    (m m' g g' : Memory) (name off : ℕ)
    → ((k : ℕ) → k < dir_size → m (name + k) ≡ m' (name + k))
    → ((k : ℕ) → k < dirent_size → g (off + k) ≡ g' (off + k))
    → is_match m name g off ≡ is_match m' name g' off
is_match_cong m m' g g' name off h h' =
    let e : g off ≡ g' off = ap g (omega arith) ∙ h' 0 (omega arith) ∙ ap g' (omega arith) in
    ground (
      arith,
      e,
      h' 1 (omega arith),
      same_name_cong m m' g g' name (off + 2) (off + 2) dir_size h
          (λ k lt. ap g (omega arith) ∙ h' (2 + k) (omega arith) ∙ ap g' (omega arith)),
    )

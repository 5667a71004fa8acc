-- ===== src/Directories/Lookup.antt =====
-- `dirlookup` finds the first entry of the name.
use bf_scheduler.Common.{
  ℕ, zero, suc, ◌+◌, ◌*◌, ◌/◌, ◌%◌, ◌^◌, ◌≤◌, ◌<◌, ◌≡◌, refl, arith, Bool, true, false, Option,
  none, some, ◌==◌, ltb, ◌⊎◌, inl, inr, Bool-cases, sym, ap, ◌∙◌, Outcome, done, ◌>>=◌,
}
use bf_scheduler.Strings.{Memory}
use bf_scheduler.Strings.Copy.{Apart}
use bf_scheduler.Paths.{dir_size}
use bf_scheduler.Inodes.{Cache, iget}
use bf_scheduler.Blocks.{Superblock}
use bf_scheduler.Contents.{load_short}
use bf_scheduler.Contents.Layout.{contents}
use bf_scheduler.Directories.{dirent_size, t_dir, DirState, dir_scan, dirlookup}
use bf_scheduler.Directories.Entry.{
  same_name, first_match, IsDirectory, same_name_cong, with_dirent, with_dirent-outside,
  with_dirent-inum, with_dirent-names_entry, read_entry-with_dirent,
}

-- The same memory but for the variable `de`.
abbrev pub SameBut : ℕ → Memory → Memory → Type 0
SameBut de m m' = (a : ℕ) → (a < de) ⊎ (de + dirent_size ≤ a) → m' a ≡ m a

pub name_kept :
    (name de : ℕ) (m m' : Memory)
    → Apart name de dirent_size
    → SameBut de m m'
    → (k : ℕ) → k < dir_size
    → m' (name + k) ≡ m (name + k)
name_kept name de m m' apart same k lt =
    same (name + k) (elim apart [ inl before ↦ inl (omega arith) | inr behind ↦ inr (omega arith) ])

pub first_match_cong :
    (m m' g : Memory) (name n off : ℕ)
    → ((k : ℕ) → k < dir_size → m' (name + k) ≡ m (name + k))
    → first_match m' name g n off ≡ first_match m name g n off
unfolding first_match
first_match_cong m m' g name zero off h = refl
first_match_cong m m' g name (suc n) off h = ground (
  arith,
  same_name_cong m' m g g name (off + 2) (off + 2) dir_size h (λ k lt. refl),
  first_match_cong m m' g name n (off + dirent_size) h,
)

abbrev pub with_inum : Memory → Option ℕ → Option (ℕ × ℕ)
with_inum g none = none
with_inum g (some off) = some (off, load_short g off)

module _ (sb : Superblock) (has_read : ℕ → Bool) (name de : ℕ) where
  dir_scan-first_match :
      (fuel n off : ℕ) (s : DirState)
      → Apart name de dirent_size
      → IsDirectory s.disk s.dir
      → off + dirent_size * n ≡ s.dir.size
      → n ≤ fuel
      → (m' : Memory) × (dir_scan sb has_read name de fuel off s
          ≡ done (
            with_inum
                (contents s.disk s.dir)
                (first_match s.memory name (contents s.disk s.dir) n off),
            record s { memory = m' },
          ))
        × SameBut de s.memory m'
  unfolding dir_scan first_match
  dir_scan-first_match zero zero off s apart dir at enough =
      (s.memory, ground (arith, at), λ a out. refl)
  dir_scan-first_match (suc fuel) zero off s apart dir at enough =
      let end : ltb off s.dir.size ≡ false = ground arith in
      (s.memory, rw (dir_scan, end) refl, λ a out. refl)
  dir_scan-first_match zero (suc n) off s apart dir at enough = ground arith
  dir_scan-first_match (suc fuel) (suc n) off s apart dir at enough =
      let g : Memory = contents s.disk s.dir in
      let m1 : Memory = with_dirent s.memory de g off in
      let more : ltb off s.dir.size ≡ true = ground arith in
      let next : (off + dirent_size) % 2 ^ 32 ≡ off + dirent_size = omega (arith, dir.small) in
      let read = read_entry-with_dirent sb has_read de off s dir (omega arith) in
      let same = with_dirent-outside s.memory g de off in
      let inum = with_dirent-inum s.memory g de off in
      let named = with_dirent-names_entry s.memory g de off name apart in
      let (m', run, same') =
        dir_scan-first_match fuel n (off + dirent_size) (record s { memory = m1 }) apart dir
          (omega arith) (omega arith) in
      let found =
        first_match_cong s.memory m1 g name n (off + dirent_size)
          (name_kept name de s.memory m1 apart same) in
      let skipped : dir_scan sb has_read name de (suc fuel) off s
            ≡ dir_scan sb has_read name de fuel (off + dirent_size) (record s { memory = m1 })
          → first_match s.memory name g (suc n) off
            ≡ first_match s.memory name g n (off + dirent_size)
          → dir_scan sb has_read name de (suc fuel) off s
            ≡ done
                (with_inum g (first_match s.memory name g (suc n) off), record s { memory = m' }) =
        λ step same_first.
          step
          ∙ run
          ∙ ap (λ (r : Option ℕ). done (with_inum g r, record s { memory = m' }))
              (found ∙ sym same_first) in
      elim (Bool-cases (load_short g off == 0)) [
        | inl free ↦ (
          m',
          skipped (rw (dir_scan, more, read, inum, free, next) refl) (rw free refl),
          λ a out. same' a out ∙ same a out,
        )
        | inr taken ↦ elim (Bool-cases (same_name s.memory name g (off + 2) dir_size)) [
          | inl here ↦ (m1, rw (dir_scan, more, read, inum, taken, named, here) refl, same)
          | inr other ↦ (
            m',
            skipped (rw (dir_scan, more, read, inum, taken, named, other, next) refl)
                (rw (taken, other) refl),
            λ a out. same' a out ∙ same a out,
          )
        ]
      ]

-- What `dirlookup` returns for an entry.
abbrev pub looked_up :
    ℕ → Cache → Memory → DirState → Option ℕ → Outcome (Option (ℕ × ℕ) × Cache × DirState)
looked_up dev c g s none = done (none, c, s)
looked_up dev c g s (some off) =
    iget c dev (load_short g off) >>= λ (i, c'). done (some (off, i), c', s)

dirlookup-scanned :
    (sb : Superblock) (has_read : ℕ → Bool) (dev name de : ℕ) (c : Cache) (s s' : DirState)
    (g : Memory) (r : Option ℕ)
    → (s.dir.type == t_dir) ≡ true
    → dir_scan sb has_read name de s.dir.size 0 s ≡ done (with_inum g r, s')
    → dirlookup sb has_read dev name de c s ≡ looked_up dev c g s' r
unfolding dirlookup
dirlookup-scanned sb has_read dev name de c s s' g none dir run = rw (dirlookup, dir, run) refl
dirlookup-scanned sb has_read dev name de c s s' g (some off) dir run =
    rw (dirlookup, dir, run) refl

-- In a directory whose blocks are all there, whose size is a multiple of 16, and with the name apart
-- from the variable `de`, `dirlookup` ends. It finds the first entry that is in use and has the name,
-- and returns its offset and the inode that `iget` returns for its number; without such an entry it
-- returns none. The directory and the disk do not change, and of memory only `de`.
pub dirlookup-looked_up :
    (sb : Superblock) (has_read : ℕ → Bool) (dev name de : ℕ) (c : Cache) (s : DirState)
    → Apart name de dirent_size
    → IsDirectory s.disk s.dir
    → (m' : Memory) × (dirlookup sb has_read dev name de c s
        ≡ looked_up dev c
            (contents s.disk s.dir)
            (record s { memory = m' })
            (first_match s.memory name (contents s.disk s.dir) (s.dir.size / dirent_size) 0))
      × SameBut de s.memory m'
dirlookup-looked_up sb has_read dev name de c s apart dir =
    let (m', run, same) =
      dir_scan-first_match sb has_read name de s.dir.size (s.dir.size / dirent_size) 0 s apart dir
        (omega (arith, dir.entries)) (omega arith) in
    (
      m',
      dirlookup-scanned sb has_read dev name de c s (record s { memory = m' })
          (contents s.disk s.dir)
          (first_match s.memory name (contents s.disk s.dir) (s.dir.size / dirent_size) 0) dir.type
          run,
      same,
    )

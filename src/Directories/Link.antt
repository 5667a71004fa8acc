-- ===== src/Directories/Link.antt =====
-- `dirlink` adds an entry that `dirlookup` then finds.
use bf_scheduler.Common.{
  ℕ, suc, ◌+◌, ◌*◌, ◌/◌, ◌^◌, ◌≤◌, ◌<◌, ◌≡◌, refl, arith, Bool, false, none, some, ◌==◌, ltb,
  if◌then◌else◌, ◌⊎◌, inl, inr, Bool-cases, ap, ◌∙◌, List, length, Outcome, done, panicked,
  out_of_bounds, out_of_fuel, ◌>>=◌,
}
use bf_scheduler.Strings.{Memory}
use bf_scheduler.Strings.Copy.{Apart}
use bf_scheduler.Paths.{dir_size}
use bf_scheduler.Inodes.{Cache, iget, iput}
use bf_scheduler.Blocks.{Superblock, Disk, block_size}
use bf_scheduler.Blocks.Count.{free_count}
use bf_scheduler.Contents.{FileInode, max_file, load_short, bytes_at, writei, moved, t_dev}
use bf_scheduler.Contents.Layout.{contents, IsFile}
use bf_scheduler.Contents.Bytes.{written_after}
use bf_scheduler.Contents.Read.{touched}
use bf_scheduler.Contents.Write.{writei_lem}
use bf_scheduler.Files.Write.{written, written_before}
use bf_scheduler.Directories.{
  dirent_size, DirState, fill_entry, entry_written, put_entry, present, linked, dirlink,
}
use bf_scheduler.Directories.Entry.{first_match, IsDirectory, length-bytes_at}
use bf_scheduler.Directories.Filled.{slot_inum, slot_found}
use bf_scheduler.Inodes.Sharing.{IsShared}
use bf_scheduler.Directories.Present.{Refused, iget-iput}
use bf_scheduler.Directories.Lookup.{name_kept, first_match_cong, looked_up, dirlookup-looked_up}
use bf_scheduler.Directories.Slot.{first_free, find_empty-first_free, first_free_index}

-- The directory with a new entry for the name.
pub record Entered (sb : Superblock) (name inum : ℕ) (d : Disk) (dp : FileInode) (s' : DirState)
    : Type 0 where
  pub slot : ℕ
  pub found :
      first_match s'.memory name (contents s'.disk s'.dir) (s'.dir.size / dirent_size) 0 ≡ some slot
  pub number : load_short (contents s'.disk s'.dir) slot ≡ inum
  pub was_free : (slot ≡ dp.size) ⊎ (load_short (contents d dp) slot ≡ 0)
  pub others :
      (a : ℕ)
      → a < max_file * block_size
      → (a < slot) ⊎ (slot + dirent_size ≤ a)
      → contents s'.disk s'.dir a ≡ contents d dp a
  pub file : IsFile sb s'.disk s'.dir

put_entry-writei :
    (sb : Superblock) (has_write : ℕ → Bool) (name de inum off : ℕ) (s : DirState) (dp : FileInode)
    (d : Disk)
    → writei sb has_write s.dir off
        (bytes_at (fill_entry name de inum s.memory) de dirent_size)
        s.disk
      ≡ done (moved (length (bytes_at (fill_entry name de inum s.memory) de dirent_size)) dp d)
    → put_entry sb has_write name de inum off s
      ≡ done (record { memory = fill_entry name de inum s.memory; dir = dp; disk = d })
unfolding put_entry entry_written
put_entry-writei sb has_write name de inum off s dp d run = rw (put_entry, run) refl

bind_assoc {ℓ} :
    {A B C : Type ℓ} (r : Outcome A) (f : A → Outcome B) (h : B → Outcome C)
    → ((r >>= f) >>= h) ≡ (r >>= λ x. f x >>= h)
bind_assoc (done x) f h = refl
bind_assoc panicked f h = refl
bind_assoc out_of_bounds f h = refl
bind_assoc out_of_fuel f h = refl

-- The entry written to its place.
put_entry-Entered :
    (sb : Superblock) (has_write : ℕ → Bool) (name de inum j : ℕ) (s : DirState)
    → IsDirectory s.disk s.dir
    → IsFile sb s.disk s.dir
    → Apart name de dirent_size
    → inum < 2 ^ 16
    → 0 < inum
    → s.dir.size + dirent_size ≤ max_file * block_size
    → 2 ≤ free_count sb s.disk
    → length s.disk.logged + 7 ≤ s.disk.room
    → j ≤ s.dir.size / dirent_size
    → (j < s.dir.size / dirent_size → load_short (contents s.disk s.dir) (dirent_size * j) ≡ 0)
    → first_match s.memory name (contents s.disk s.dir) (s.dir.size / dirent_size) 0 ≡ none
    → (s' : DirState) × (put_entry sb has_write name de inum (dirent_size * j) s ≡ done s')
      × Entered sb name inum s.disk s.dir s'
put_entry-Entered sb has_write name de inum j s dir f away small positive room free logs le hole
      absent =
    let m : Memory = fill_entry name de inum s.memory in
    let src : List ℕ = bytes_at m de dirent_size in
    let len : length src ≡ dirent_size = length-bytes_at m de dirent_size in
    let one : touched (dirent_size * j) (length src) ≤ 1 = ground (arith, len) in
    let no_device : (s.dir.type == t_dev) ≡ false = ground (arith, dir.type) in
    let (past, long, go) =
      writei_lem sb has_write s.dir (dirent_size * j) src s.disk f no_device (omega (arith, len))
        (omega (arith, one)) (omega (arith, one, logs)) in
    let (dp, d, run, w) = go (omega arith) (omega (arith, len)) in
    let size : dp.size ≡ (
        if ltb s.dir.size (dirent_size * j + length src)
        then dirent_size * j + length src
        else s.dir.size) =
      ap (λ (h : FileInode). h.size) w.fields in
    let within : j < dp.size / dirent_size = ground (arith, size, len, dir.entries) in
    let fits : (a : ℕ)
        → a < dirent_size * suc j
        → contents d dp a ≡ written (contents s.disk s.dir) (dirent_size * j) src a =
      λ a lt. w.bytes a (omega arith) in
    (
      record { memory = m; dir = dp; disk = d },
      put_entry-writei sb has_write name de inum (dirent_size * j) s dp d run,
      record {
        slot = dirent_size * j;
        found =
            slot_found s.memory s name de inum (s.dir.size / dirent_size) (dp.size / dirent_size) j
              (contents d dp) away small positive within le fits absent;
        number =
            slot_inum s.memory s name de inum (s.dir.size / dirent_size) (dp.size / dirent_size) j
              (contents d dp) away small positive within le fits absent;
        was_free = elim (Bool-cases (ltb j (s.dir.size / dirent_size))) [
          | inl inside ↦ inr (hole (ground arith))
          | inr behind ↦ inl (ground (arith, dir.entries))
        ];
        others = λ a lt out. w.bytes a lt ∙ elim out [
          | inl below ↦ written_before (contents s.disk s.dir) (dirent_size * j) src a below
          | inr above ↦
              written_after (contents s.disk s.dir) (dirent_size * j) src a (omega (arith, len))
        ];
        file = w.file;
      },
    )

pub dirlink_lem :
    (sb : Superblock) (has_read has_write : ℕ → Bool) (dev name inum de inner : ℕ) (c : Cache)
    (s : DirState)
    → IsDirectory s.disk s.dir
    → IsFile sb s.disk s.dir
    → Apart name de dirent_size
    → Apart name inner dirent_size
    → inum < 2 ^ 16
    → 0 < inum
    → s.dir.size + dirent_size ≤ max_file * block_size
    → 2 ≤ free_count sb s.disk
    → length s.disk.logged + 7 ≤ s.disk.room
    → IsShared c
    → ((off : ℕ)
        → first_match s.memory name (contents s.disk s.dir) (s.dir.size / dirent_size) 0 ≡ some off
        → (m' : Memory) × Refused c dev
            (load_short (contents s.disk s.dir) off)
            (record s { memory = m' })
            (dirlink sb has_read has_write dev name inum de inner c s))
      × (first_match s.memory name (contents s.disk s.dir) (s.dir.size / dirent_size) 0 ≡ none
          → (s' : DirState) × (dirlink sb has_read has_write dev name inum de inner c s
              ≡ done (linked, c, s'))
            × Entered sb name inum s.disk s.dir s')
unfolding dirlink
dirlink_lem sb has_read has_write dev name inum de inner c s dir f away away' small positive room
      free logs shared =
    let g : Memory = contents s.disk s.dir in
    let n : ℕ = s.dir.size / dirent_size in
    let (m1, run, same) = dirlookup-looked_up sb has_read dev name inner c s away' dir in
    (
      λ off here. (
        m1,
        let found = run ∙ ap (looked_up dev c g (record s { memory = m1 })) here in
            let back : dirlink sb has_read has_write dev name inum de inner c s ≡ (
                iget c dev (load_short g off) >>= λ (i, c').
                done (present (iput c' i).0, (iput c' i).1, record s { memory = m1 })) =
              rw (dirlink, found) (bind_assoc (iget c dev (load_short g off)) _ _) in
            rw back (iget-iput c dev (load_short g off) (record s { memory = m1 }) shared),
      ),
      λ absent.
          let s1 : DirState = record s { memory = m1 } in
          let not_found = run ∙ ap (looked_up dev c g s1) absent in
          let (m2, run2, same2) =
            find_empty-first_free sb has_read de s.dir.size n 0 s1 dir (omega (arith, dir.entries))
              (omega arith) in
          let (j, at, le, hole) = first_free_index g n 0 in
          let slot : first_free g n 0 ≡ dirent_size * j = omega (arith, at) in
          let run2' = run2 ∙ ap (λ (o : ℕ). done (o, record s { memory = m2 })) slot in
          let kept : (k : ℕ) → k < dir_size → m2 (name + k) ≡ s.memory (name + k) = λ k lt.
            name_kept name de m1 m2 away same2 k lt
            ∙ name_kept name inner s.memory m1 away' same k lt in
          let e : 0 + dirent_size * j ≡ dirent_size * j = omega arith in
          let (s', run3, entered) =
            put_entry-Entered sb has_write name de inum j (record s { memory = m2 }) dir f away
              small positive room free logs le (λ lt. rw e at (hole lt))
              (first_match_cong s.memory m2 g name n 0 kept ∙ absent) in
          (s', rw (dirlink, not_found, run2', run3) refl, entered),
    )

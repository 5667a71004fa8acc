-- ===== src/Directories.antt =====
-- fs.c: directories. A directory is a file whose contents are entries of 16 bytes: an inode number and a
-- name of 14 bytes. The caller's `name` and the local variable `de` stand in memory at the addresses of
-- these names.
pub mod Whole
pub mod Entry
pub mod Lookup
pub mod Slot
pub mod Filled
pub mod Present
pub mod Link
use bf_scheduler.Common.{
  ℕ, zero, suc, ◌+◌, ◌%◌, ◌^◌, Bool, Option, none, some, not, ◌==◌, ltb, if◌then◌else◌, List,
  length, Outcome, done, panicked, out_of_fuel, ◌>>=◌,
}
use bf_scheduler.Common.Int.{ℤ, pos, negsuc, eqb_ℤ}
use bf_scheduler.Strings.{Memory, strncmp, strncpy}
use bf_scheduler.Inodes.{Cache, iget, iput}
use bf_scheduler.Paths.{dir_size}
use bf_scheduler.Blocks.{Superblock, Disk}
use bf_scheduler.Contents.{
  FileInode, load_short, store_short, bytes_at, put_bytes, Moved, failed, to_device, moved, readi,
  writei,
}

-- `sizeof(struct dirent)` and `T_DIR`
abbrev pub dirent_size : ℕ
dirent_size = 16

abbrev pub t_dir : ℕ
t_dir = 1

-- What the functions on directories work on: memory, the inode of the directory, and the disk.
pub record DirState : Type 0 where
  pub memory : Memory
  pub dir : FileInode
  pub disk : Disk

-- The call of `readi` for an entry, with the panic on another number of bytes.
unfoldable pub entry_read : ℕ → Memory → Moved (List ℕ) → Outcome DirState
entry_read de m failed = panicked
entry_read de m (to_device major) = panicked
entry_read de m (moved bs dp d) =
    if length bs == dirent_size
    then done (record { memory = put_bytes m de bs; dir = dp; disk = d })
    else panicked

unfoldable pub read_entry : Superblock → (ℕ → Bool) → ℕ → ℕ → DirState → Outcome DirState
read_entry sb has_read de off s =
    readi sb has_read s.dir off dirent_size s.disk >>= λ r. entry_read de s.memory r

-- `namecmp(name, de.name) == 0`
abbrev pub names_entry : ℕ → ℕ → Memory → Bool
names_entry name de m = eqb_ℤ (strncmp name (de + 2) dir_size m) (pos 0)

-- The loop of `dirlookup`: the offset of the entry and its inode number.
unfoldable pub dir_scan :
    Superblock → (ℕ → Bool) → ℕ → ℕ → ℕ → ℕ → DirState → Outcome (Option (ℕ × ℕ) × DirState)
dir_scan sb has_read name de zero off s = if ltb off s.dir.size then out_of_fuel else done (none, s)
dir_scan sb has_read name de (suc fuel) off s =
    let more = read_entry sb has_read de off s >>= λ s'.
    let rest = dir_scan sb has_read name de fuel ((off + dirent_size) % 2 ^ 32) s' in
    if load_short s'.memory de == 0
    then rest
    else if names_entry name de s'.memory
    then done (some (off, load_short s'.memory de), s')
    else rest in
    if ltb off s.dir.size then more else done (none, s)

-- `dirlookup`, with `iget` of the inode found: the offset of the entry and the inode.
unfoldable pub dirlookup :
    Superblock
    → (ℕ → Bool)
    → ℕ
    → ℕ
    → ℕ
    → Cache
    → DirState
    → Outcome (Option (ℕ × ℕ) × Cache × DirState)
dirlookup sb has_read dev name de c s =
    if not (s.dir.type == t_dir)
    then panicked
    else (dir_scan sb has_read name de s.dir.size 0 s >>= λ (r, s'). elim r [
      | none ↦ done (none, c, s')
      | some (off, inum) ↦ iget c dev inum >>= λ (i, c'). done (some (off, i), c', s')
    ])

-- The loop of `dirlink`: the offset of the first entry that is free, or the end.
unfoldable pub find_empty : Superblock → (ℕ → Bool) → ℕ → ℕ → ℕ → DirState → Outcome (ℕ × DirState)
find_empty sb has_read de zero off s = if ltb off s.dir.size then out_of_fuel else done (off, s)
find_empty sb has_read de (suc fuel) off s =
    let more = read_entry sb has_read de off s >>= λ s'.
    let rest = find_empty sb has_read de fuel ((off + dirent_size) % 2 ^ 32) s' in
    if load_short s'.memory de == 0 then done (off, s') else rest in
    if ltb off s.dir.size then more else done (off, s)

-- The call of `writei` for an entry, with its panic.
unfoldable pub entry_written : Memory → Moved ℕ → Outcome DirState
entry_written m failed = panicked
entry_written m (to_device major) = panicked
entry_written m (moved n dp d) =
    if n == dirent_size then done (record { memory = m; dir = dp; disk = d }) else panicked

-- `strncpy(de.name, name, DIRSIZ)`, `de.inum = inum`, and the call of `writei`.
unfoldable pub fill_entry : ℕ → ℕ → ℕ → Memory → Memory
fill_entry name de inum m = store_short (strncpy (de + 2) name dir_size m) de (inum % 2 ^ 16)

unfoldable pub put_entry : Superblock → (ℕ → Bool) → ℕ → ℕ → ℕ → ℕ → DirState → Outcome DirState
put_entry sb has_write name de inum off s =
    let m = fill_entry name de inum s.memory in
    writei sb has_write s.dir off (bytes_at m de dirent_size) s.disk >>= λ r. entry_written m r

-- What `dirlink` returns; if the name is present, whether `iput` has to truncate its inode.
pub data Linked : Type 0 where
  present : Bool → Linked
  linked : Linked

-- `dirlink`; the variable `de` of `dirlookup` stands at `inner`.
unfoldable pub dirlink :
    Superblock
    → (ℕ → Bool)
    → (ℕ → Bool)
    → ℕ
    → ℕ
    → ℕ
    → ℕ
    → ℕ
    → Cache
    → DirState
    → Outcome (Linked × Cache × DirState)
dirlink sb has_read has_write dev name inum de inner c s =
    dirlookup sb has_read dev name inner c s >>= λ (r, c', s'). elim r [
      | some (off, i) ↦ done (present (iput c' i).0, (iput c' i).1, s')
      | none ↦ find_empty sb has_read de s'.dir.size 0 s' >>= λ (off, s'').
          put_entry sb has_write name de inum off s'' >>= λ s3. done (linked, c', s3)
    ]

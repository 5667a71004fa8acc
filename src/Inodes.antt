-- ===== src/Inodes.antt =====
-- fs.c: the cache of inodes in memory. A pointer to an inode is its index in the cache, and each
-- section under `icache.lock` runs as one step. The fields copied from the disk are left out, except
-- for those that the reference counts depend on.
pub mod Sharing
use bf_scheduler.Common.{
  ℕ, zero, suc, ◌+◌, ◌-◌, Bool, true, false, Option, none, some, ◌&&◌, ◌==◌, ltb, if◌then◌else◌,
  update, Outcome, done, panicked,
}

-- `NINODE`
abbrev pub ninode : ℕ
ninode = 50

-- `struct inode`
pub record Inode : Type 0 where
  pub dev : ℕ
  pub inum : ℕ
  pub ref : ℕ
  pub valid : Bool
  pub type : ℕ
  pub nlink : ℕ

abbrev pub Cache : Type 0
Cache = ℕ → Inode

-- `ip->ref > 0 && ip->dev == dev && ip->inum == inum`
abbrev pub is_copy : ℕ → ℕ → Inode → Bool
is_copy dev inum ip = ltb 0 ip.ref && (ip.dev == dev) && (ip.inum == inum)

-- `empty` after its update for the inode `i`.
abbrev pub next_empty : Cache → ℕ → Option ℕ → Option ℕ
next_empty c i (some e) = some e
next_empty c i none = if (c i).ref == 0 then some i else none

-- The loop of `iget`, over the `n` inodes from `i` on: the copy found, and `empty`.
unfoldable pub iget_scan : Cache → ℕ → ℕ → ℕ → ℕ → Option ℕ → Option ℕ × Option ℕ
iget_scan c dev inum zero i empty = (none, empty)
iget_scan c dev inum (suc n) i empty =
    let rest = iget_scan c dev inum n (suc i) (next_empty c i empty) in
    if is_copy dev inum (c i) then (some i, empty) else rest

-- `iget`
unfoldable pub iget : Cache → ℕ → ℕ → Outcome (ℕ × Cache)
iget c dev inum = elim (iget_scan c dev inum ninode 0 none).0 [
  | some i ↦ done (i, update c i (record (c i) { ref = (c i).ref + 1 }))
  | none ↦ elim (iget_scan c dev inum ninode 0 none).1 [
    | none ↦ panicked
    | some e ↦
        done (e, update c e (record (c e) { dev = dev; inum = inum; ref = 1; valid = false }))
  ]
]

-- `idup`
unfoldable pub idup : Cache → ℕ → Cache
idup c i = update c i (record (c i) { ref = (c i).ref + 1 })

-- `iput`: whether it truncates the inode and writes it to the disk as free, and the cache after it.
unfoldable pub iput : Cache → ℕ → Bool × Cache
iput c i =
    let last = (c i).valid && ((c i).nlink == 0) && ((c i).ref == 1) in
    (
      last,
      update c i (
          if last
          then record (c i) { type = 0; valid = false; ref = (c i).ref - 1 }
          else record (c i) { ref = (c i).ref - 1 }),
    )

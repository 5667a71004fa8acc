-- ===== src/Tests/Entries.antt =====
-- A directory of two entries, one of them free, on the disk of Tests/Disks.
use bf_scheduler.Common.{
  ℕ, ◌/◌, ◌≡◌, refl, arith, Bool, false, none, some, ◌==◌, if◌then◌else◌, inl,
}
use bf_scheduler.Strings.{Memory}
use bf_scheduler.Inodes.{Cache}
use bf_scheduler.Blocks.{block_size}
use bf_scheduler.Contents.{FileInode, load_short}
use bf_scheduler.Contents.Layout.{addr_of, contents, IsFile}
use bf_scheduler.Directories.{dirent_size, DirState, dirlookup, dirlink}
use bf_scheduler.Directories.Entry.{same_name, first_match, IsDirectory}
use bf_scheduler.Directories.Lookup.{SameBut, looked_up, dirlookup-looked_up}
use bf_scheduler.Directories.Present.{Refused}
use bf_scheduler.Directories.Link.{dirlink_lem}
use bf_scheduler.Tests.Disks.{sb, disk, file, file-IsFile, eight_free}

abbrev dir : FileInode
dir = record file { type = 1; size = 32 }

-- The name `b` at 1000.
abbrev state : DirState
state = record { memory = λ a. if a == 1000 then 98 else 0; dir = dir; disk = disk }

abbrev no_reads : ℕ → Bool
no_reads i = false

abbrev cache : Cache
cache i = record { dev = 0; inum = 0; ref = 0; valid = false; type = 0; nlink = 0 }

dir-IsFile : IsFile sb disk dir
unfolding addr_of
dir-IsFile = record {
  formatted = file-IsFile.formatted;
  indirect = file-IsFile.indirect;
  owned = file-IsFile.owned;
  apart = file-IsFile.apart;
  apart_indirect = file-IsFile.apart_indirect;
}

dir-IsDirectory : IsDirectory disk dir
unfolding addr_of
dir-IsDirectory = record {
  whole = λ a lt. let e : a / block_size ≡ 0 = omega arith in rw e refl;
  type = refl;
  small = omega arith;
  entries = refl;
}

dirlookup-looked_up_example :
    (m' : Memory) × (dirlookup sb no_reads 1 1000 2000 cache state
      ≡ looked_up 1 cache
          (contents disk dir)
          (record state { memory = m' })
          (first_match state.memory 1000 (contents disk dir) (32 / dirent_size) 0))
    × SameBut 2000 state.memory m'
dirlookup-looked_up_example =
    dirlookup-looked_up sb no_reads 1 1000 2000 cache state (inl (omega arith)) dir-IsDirectory

-- The name is not there.
absent : first_match state.memory 1000 (contents disk dir) (32 / dirent_size) 0 ≡ none
unfolding first_match same_name contents addr_of
absent = refl

-- The name `a` is there.
abbrev named : DirState
named = record state { memory = λ a. if a == 1000 then 97 else 0 }

there : first_match named.memory 1000 (contents disk dir) (32 / dirent_size) 0 ≡ some 0
unfolding first_match same_name contents addr_of
there = refl

present_name :
    (m' : Memory) × Refused cache 1
      (load_short (contents disk dir) 0)
      (record named { memory = m' })
      (dirlink sb no_reads no_reads 1 1000 9 2000 3000 cache named)
present_name =
    (dirlink_lem sb no_reads no_reads 1 1000 9 2000 3000 cache named dir-IsDirectory dir-IsFile
        (inl (omega arith)) (inl (omega arith)) (omega arith) (omega arith) (omega arith)
        (omega (arith, eight_free)) (omega arith)
        (λ i j lt lt' ne used. absurd (omega (arith, used)))).0
      0 there

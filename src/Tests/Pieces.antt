-- ===== src/Tests/Pieces.antt =====
-- Writing to an open file on the disk of Tests/Disks.
use bf_scheduler.Common.{ℕ, ◌*◌, ◌<◌, ◌≡◌, refl, true, false, arith, [], ◌∷◌, done}
use bf_scheduler.Common.Int.{pos}
use bf_scheduler.Files.{File, FileType, filewrite}
use bf_scheduler.Files.Write.{written}
use bf_scheduler.Blocks.{block_size}
use bf_scheduler.Contents.{max_file}
use bf_scheduler.Contents.Transact.{FileState, transact, IsWritable}
use bf_scheduler.Contents.Pieces.{bytes_of, filewrite_lem}
use bf_scheduler.Tests.Disks.{sb, disk, file, file-IsFile, eight_free}

-- A descriptor one byte before the end of the first block.
abbrev open_file : File
open_file = record {
  type = FileType.fd_inode;
  ref = 1;
  readable = true;
  writable = true;
  pipe = 0;
  ip = 1;
  off = 511;
}

abbrev state : FileState
state = record { inode = file; disk = disk }

state-IsWritable : IsWritable sb 511 3 state
state-IsWritable = record {
  file = file-IsFile;
  no_device = refl;
  within = omega arith;
  fits = omega arith;
  room = omega (arith, eight_free);
}

filewrite_lem_example :
    (s' : FileState) × (filewrite
        (λ s p bs. (pos 0, s))
        (transact sb (λ i. false))
        open_file
        (7 ∷ 8 ∷ 9 ∷ [])
        state
      ≡ done (pos 3, record open_file { off = 514 }, s'))
    × ((a : ℕ)
        → a < max_file * block_size
        → bytes_of s' a ≡ written (bytes_of state) 511 (7 ∷ 8 ∷ 9 ∷ []) a)
filewrite_lem_example =
    filewrite_lem sb (λ i. false) (λ s p bs. (pos 0, s)) open_file (7 ∷ 8 ∷ 9 ∷ []) state refl refl
      state-IsWritable

-- ===== src/Tests/Disks.antt =====
-- The blocks of files on a small disk.
use bf_scheduler.Common.{
  ◌/◌, ℕ, zero, suc, ◌+◌, ◌*◌, ◌≤◌, ◌<◌, ◌≡◌, refl, arith, true, false, ◌==◌, if◌then◌else◌, [],
  ◌∷◌, done,
}
use bf_scheduler.Blocks.{Superblock, Disk, block_size, bitmap_block, bit_of, balloc}
use bf_scheduler.Blocks.Alloc.{used, IsReserved, Allocation, balloc-Allocation}
use bf_scheduler.Blocks.Count.{free_count}
use bf_scheduler.Contents.{
  FileInode, max_file, bytes_at, bmap, failed, moved, readi, writei, iupdate, read_inode, itrunc,
}
use bf_scheduler.Contents.Dinode.{IsDinode, SameInode, read_inode-iupdate}
use bf_scheduler.Contents.Layout.{addr_of, contents, IsOwned, IsFormatted, IsFile}
use bf_scheduler.Contents.Locate.{IsScarce, Located, bmap-Located}
use bf_scheduler.Contents.Read.{IsWhole, in_file, readi_lem}
use bf_scheduler.Contents.Write.{Written, writei_lem}
use bf_scheduler.Contents.Truncate.{Truncated, itrunc-Truncated}

-- Block 0, the inodes in block 1, the bitmap in block 2, a file in block 3, and eight free blocks.
abbrev pub sb : Superblock
sb = record { size = 12; bmapstart = 2; inodestart = 1 }

abbrev pub disk : Disk
disk = record {
  data_of = λ b i.
      if b == 2
      then (if i == 0 then 15 else 0)
      else if b == 3
      then (if i == 0 then 5 else if i == 2 then 97 else 0)
      else 0;
  logged = [];
  room = 29;
}

abbrev pub file : FileInode
file = record {
  inum = 1;
  type = 2;
  major = 0;
  minor = 0;
  nlink = 1;
  size = 600;
  addrs = λ i. if i == 0 then 3 else 0;
}

in_use : (c : ℕ) → c < 4 → used sb disk c ≡ true
unfolding used bit_of
in_use zero lt = refl
in_use (suc zero) lt = refl
in_use (suc (suc zero)) lt = refl
in_use (suc (suc (suc zero))) lt = refl
in_use (suc (suc (suc (suc c)))) lt = ground arith

disk-IsReserved : IsReserved sb disk
disk-IsReserved b lt = let e : bitmap_block sb b ≡ 2 = omega arith in rw e (in_use 2 (omega arith))

disk-IsFormatted : IsFormatted sb disk 1
disk-IsFormatted = record {
  words = omega arith;
  in_range = λ c lt. omega arith;
  bitmap = disk-IsReserved;
  inode_range = omega arith;
  inode = in_use 1 (omega arith);
  no_bitmap = λ c lt. ground arith;
  boot = in_use 0 (omega arith);
}

block-IsOwned : IsOwned sb disk 1 3
block-IsOwned = record {
  in_range = omega arith;
  in_use = in_use 3 (omega arith);
  no_inode = refl;
  no_bitmap = λ c lt. ground arith;
}

file-addr_of : (i : ℕ) → addr_of disk file i ≡ (if i == 0 then 3 else 0)
unfolding addr_of
file-addr_of i = ground arith

pub file-IsFile : IsFile sb disk file
file-IsFile = record {
  formatted = disk-IsFormatted;
  indirect = λ ne. ground arith;
  owned = λ i lt ne.
      let e : addr_of disk file i ≡ 3 = ground (arith, file-addr_of i) in rw e block-IsOwned;
  apart = λ i j il jl ij ne. ground (arith, file-addr_of i, file-addr_of j);
  apart_indirect = λ i lt ne. ground (arith, file-addr_of i);
}

pub eight_free : free_count sb disk ≡ 8
unfolding used bit_of
eight_free = refl

balloc-Allocation_example : Allocation sb disk (balloc sb disk)
balloc-Allocation_example = balloc-Allocation sb disk disk-IsReserved

bmap-Located_example : Located (IsScarce sb disk) 2 sb disk file 20 (bmap sb file 20 disk)
bmap-Located_example = bmap-Located sb disk file 20 file-IsFile (omega arith)

-- From 500 to the end of the file, 10 bytes of block 3.
abbrev short_file : FileInode
short_file = record file { size = 510 }

short_file-IsWhole : IsWhole disk short_file
unfolding addr_of
short_file-IsWhole a lt = let e : a / block_size ≡ 0 = omega arith in rw e refl

readi_lem_example :
    (short_file.size < 500 → readi sb (λ i. false) short_file 500 200 disk ≡ done failed)
    × (500 ≤ short_file.size
        → readi sb (λ i. false) short_file 500 200 disk
          ≡ done (
              moved
                (bytes_at (contents disk short_file) 500 (in_file short_file 500 200))
                short_file
                disk))
readi_lem_example =
    readi_lem sb (λ i. false) short_file 500 200 disk short_file-IsWhole refl (omega arith)
      (omega arith)

writei_lem_example :
    (file.size < 511 → writei sb (λ i. false) file 511 (7 ∷ 8 ∷ 9 ∷ []) disk ≡ done failed)
    × (max_file * block_size < 511 + 3
        → writei sb (λ i. false) file 511 (7 ∷ 8 ∷ 9 ∷ []) disk ≡ done failed)
    × (511 ≤ file.size
        → 511 + 3 ≤ max_file * block_size
        → (ip' : FileInode) × (d' : Disk) × (writei sb (λ i. false) file 511 (7 ∷ 8 ∷ 9 ∷ []) disk
            ≡ done (moved 3 ip' d'))
          × Written sb disk file 511 (7 ∷ 8 ∷ 9 ∷ []) d' ip')
writei_lem_example =
    writei_lem sb (λ i. false) file 511 (7 ∷ 8 ∷ 9 ∷ []) disk file-IsFile refl (omega arith)
      (omega (arith, eight_free)) (omega arith)

itrunc-Truncated_example :
    (ip' : FileInode) × (d' : Disk) × (itrunc sb file disk ≡ done (ip', d'))
    × Truncated sb disk file d' ip'
itrunc-Truncated_example = itrunc-Truncated sb file disk file-IsFile

file-IsDinode : IsDinode file
file-IsDinode = record {
  type = omega arith;
  major = omega arith;
  minor = omega arith;
  nlink = omega arith;
  size = omega arith;
  addrs = λ i le. ground arith;
}

read_inode-iupdate_example :
    (ip' : FileInode) × (read_inode sb 1 (iupdate sb file disk) ≡ done ip') × SameInode file ip'
read_inode-iupdate_example = read_inode-iupdate sb file disk file-IsDinode refl

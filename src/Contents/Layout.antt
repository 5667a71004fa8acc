-- ===== src/Contents/Layout.antt =====
-- The blocks and the bytes of a file, and when they are laid out right on the disk.
use bf_scheduler.Common.{
  ℕ, ◌+◌, ◌-◌, ◌*◌, ◌/◌, ◌%◌, ◌^◌, ◌≤◌, ◌<◌, ◌≡◌, arith, true, false, ◌==◌, ltb, if◌then◌else◌, ◌⊎◌,
}
use bf_scheduler.Strings.{Memory, store_word}
use bf_scheduler.Pages.{load_word}
use bf_scheduler.Blocks.{Superblock, Disk, block_size, bitmap_block}
use bf_scheduler.Blocks.Alloc.{used, IsReserved}
use bf_scheduler.Contents.{FileInode, ndirect, max_file, inode_block}

-- Words at addresses four apart do not overlap.
pub load_word-store_word_other :
    (m : Memory) (a b w : ℕ)
    → (a + 4 ≤ b) ⊎ (b + 4 ≤ a)
    → load_word (store_word m a w) b ≡ load_word m b
unfolding load_word store_word
load_word-store_word_other m a b w apart = ground arith

-- The block that holds the block `bn` of the file; 0 if there is none.
unfoldable pub addr_of : Disk → FileInode → ℕ → ℕ
addr_of d ip bn =
    if ltb bn ndirect
    then ip.addrs bn
    else if ip.addrs ndirect == 0
    then 0
    else load_word (d.data_of (ip.addrs ndirect)) (4 * (bn - ndirect))

-- The byte of the file at offset `a`; a block that is not there reads as zeros.
unfoldable pub contents : Disk → FileInode → ℕ → ℕ
contents d ip a =
    let b = addr_of d ip (a / block_size) in if b == 0 then 0 else d.data_of b (a % block_size)

-- A block for contents: in use, and neither the inode's own block nor one of the bitmap.
pub record IsOwned (sb : Superblock) (d : Disk) (inum : ℕ) (b : ℕ) : Type 0 where
  pub in_range : b < sb.size
  pub in_use : used sb d b ≡ true
  pub no_inode : (b == inode_block sb inum) ≡ false
  pub no_bitmap : (c : ℕ) → c < sb.size → (b == bitmap_block sb c) ≡ false

-- The blocks of metadata are in use.
pub record IsFormatted (sb : Superblock) (d : Disk) (inum : ℕ) : Type 0 where
  pub words : sb.size ≤ 2 ^ 32
  pub in_range : (c : ℕ) → c < sb.size → bitmap_block sb c < sb.size
  pub bitmap : IsReserved sb d
  pub inode_range : inode_block sb inum < sb.size
  pub inode : used sb d (inode_block sb inum) ≡ true
  pub no_bitmap : (c : ℕ) → c < sb.size → (inode_block sb inum == bitmap_block sb c) ≡ false
  pub boot : used sb d 0 ≡ true

-- No two blocks of the file share a block of the disk.
pub record IsFile (sb : Superblock) (d : Disk) (ip : FileInode) : Type 0 where
  pub formatted : IsFormatted sb d ip.inum
  pub indirect : (ip.addrs ndirect == 0) ≡ false → IsOwned sb d ip.inum (ip.addrs ndirect)
  pub owned :
      (i : ℕ) → i < max_file → (addr_of d ip i == 0) ≡ false → IsOwned sb d ip.inum (addr_of d ip i)
  pub apart :
      (i j : ℕ)
      → i < max_file
      → j < max_file
      → (i == j) ≡ false
      → (addr_of d ip i == 0) ≡ false
      → (addr_of d ip i == addr_of d ip j) ≡ false
  pub apart_indirect :
      (i : ℕ)
      → i < max_file
      → (addr_of d ip i == 0) ≡ false
      → (addr_of d ip i == ip.addrs ndirect) ≡ false

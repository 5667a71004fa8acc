-- ===== src/Contents/Dinode.antt =====
-- An inode written to the disk and read back.
use bf_scheduler.Common.{
  ℕ, zero, suc, ◌+◌, ◌*◌, ◌^◌, ◌≤◌, ◌<◌, ◌≡◌, refl, arith, false, ◌==◌, inl, inr, ◌∙◌, done,
  Bool-cases, update_self,
}
use bf_scheduler.Strings.{Memory, store_word}
use bf_scheduler.Pages.{load_word}
use bf_scheduler.Pages.FreeList.{load_word-store_word}
use bf_scheduler.Blocks.{Superblock, Disk, put_block}
use bf_scheduler.Contents.{
  FileInode, ndirect, inode_block, inode_offset, store_short, store_addrs, store_dinode,
  load_dinode, iupdate, read_inode,
}
use bf_scheduler.Contents.Layout.{load_word-store_word_other}

-- The fields fit in their places on the disk.
pub record IsDinode (ip : FileInode) : Type 0 where
  pub type : ip.type < 2 ^ 16
  pub major : ip.major < 2 ^ 16
  pub minor : ip.minor < 2 ^ 16
  pub nlink : ip.nlink < 2 ^ 16
  pub size : ip.size < 2 ^ 32
  pub addrs : (i : ℕ) → i ≤ ndirect → ip.addrs i < 2 ^ 32

-- The same inode, with its 13 addresses.
pub record SameInode (ip ip' : FileInode) : Type 0 where
  pub inum : ip'.inum ≡ ip.inum
  pub type : ip'.type ≡ ip.type
  pub major : ip'.major ≡ ip.major
  pub minor : ip'.minor ≡ ip.minor
  pub nlink : ip'.nlink ≡ ip.nlink
  pub size : ip'.size ≡ ip.size
  pub addrs : (i : ℕ) → i ≤ ndirect → ip'.addrs i ≡ ip.addrs i

-- `store_addrs` writes nothing below its range.
store_addrs_before :
    (n : ℕ) (addrs : ℕ → ℕ) (m : Memory) (a x : ℕ) → x < a → store_addrs n addrs m a x ≡ m x
unfolding store_addrs store_word
store_addrs_before zero addrs m a x lt = refl
store_addrs_before (suc n) addrs m a x lt = ground (arith, store_addrs_before n addrs m a x lt)

load_word-store_addrs :
    (n : ℕ) (addrs : ℕ → ℕ) (m : Memory) (a i : ℕ)
    → i < n
    → addrs i < 2 ^ 32
    → load_word (store_addrs n addrs m a) (a + 4 * i) ≡ addrs i
unfolding store_addrs
load_word-store_addrs zero addrs m a i lt small = ground arith
load_word-store_addrs (suc n) addrs m a i lt small = elim (Bool-cases (i == n)) [
  | inl at ↦
      let e : i ≡ n = ground arith in
      rw e (load_word-store_word (store_addrs n addrs m a) (a + 4 * n) (addrs n) (rw e at small))
  | inr ne ↦
      load_word-store_word_other (store_addrs n addrs m a) (a + 4 * n) (a + 4 * i) (addrs n)
        (inr (ground arith))
      ∙ load_word-store_addrs n addrs m a i (ground arith) small
]

-- The part before the addresses.
abbrev head_of : FileInode → Memory → ℕ → Memory
head_of ip m a =
    store_word
      (store_short
        (store_short (store_short (store_short m a ip.type) (a + 2) ip.major) (a + 4) ip.minor)
        (a + 6) ip.nlink)
      (a + 8) ip.size

load_dinode-store_dinode :
    (ip : FileInode) (m : Memory) (a : ℕ)
    → IsDinode ip
    → SameInode ip (load_dinode ip.inum (store_dinode ip m a) a)
unfolding load_dinode store_dinode load_word store_word
load_dinode-store_dinode ip m a fit =
    let before = λ (x : ℕ) (lt : x < a + 12).
      store_addrs_before (suc ndirect) ip.addrs (head_of ip m a) (a + 12) x lt in
    record {
      inum = refl;
      type = ground (arith, before a (omega arith), before (a + 1) (omega arith), fit.type);
      major =
          ground (arith, before (a + 2) (omega arith), before (a + 2 + 1) (omega arith), fit.major);
      minor =
          ground (arith, before (a + 4) (omega arith), before (a + 4 + 1) (omega arith), fit.minor);
      nlink =
          ground (arith, before (a + 6) (omega arith), before (a + 6 + 1) (omega arith), fit.nlink);
      size = ground (
        arith,
        before (a + 8) (omega arith),
        before (a + 8 + 1) (omega arith),
        before (a + 8 + 2) (omega arith),
        before (a + 8 + 3) (omega arith),
        fit.size,
      );
      addrs = λ i le.
          load_word-store_addrs (suc ndirect) ip.addrs (head_of ip m a) (a + 12) i (omega arith)
            (fit.addrs i le);
    }

-- What `ilock` reads of an inode in use after `iupdate` is the inode that was written, if its fields
-- fit in 16 and 32 bits.
pub read_inode-iupdate :
    (sb : Superblock) (ip : FileInode) (d : Disk)
    → IsDinode ip
    → (ip.type == 0) ≡ false
    → (ip' : FileInode) × (read_inode sb ip.inum (iupdate sb ip d) ≡ done ip') × SameInode ip ip'
unfolding read_inode iupdate
read_inode-iupdate sb ip d fit in_use =
    let blk : ℕ = inode_block sb ip.inum in
    let off : ℕ = inode_offset ip.inum in
    let m : Memory = store_dinode ip (d.data_of blk) off in
    let same = load_dinode-store_dinode ip (d.data_of blk) off fit in
    let e : (put_block d blk m).data_of blk ≡ m = update_self d.data_of blk m in
    (load_dinode ip.inum m off, rw e (ground (arith, same.type)), same)

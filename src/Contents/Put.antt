-- ===== src/Contents/Put.antt =====
-- A write to a block that is neither of the bitmap nor the indirect block leaves the layout.
use bf_scheduler.Common.{
  ℕ, ◌/◌, ◌%◌, ◌<◌, ◌≡◌, refl, arith, false, ◌==◌, inl, inr, Bool-cases, ap, ◌∙◌,
}
use bf_scheduler.Strings.{Memory}
use bf_scheduler.Blocks.{Superblock, Disk, block_size, bitmap_block, put_block}
use bf_scheduler.Blocks.Alloc.{used}
use bf_scheduler.Blocks.Count.{free_count, free_below_cong}
use bf_scheduler.Contents.{FileInode, ndirect, inode_block}
use bf_scheduler.Contents.Layout.{addr_of, contents, IsOwned, IsFormatted, IsFile}

module _ (sb : Superblock) (d : Disk) (x : ℕ) (m : Memory)
    (no_bitmap : (c : ℕ) → c < sb.size → (x == bitmap_block sb c) ≡ false) where
  pub put_block-used : (c : ℕ) → c < sb.size → used sb (put_block d x m) c ≡ used sb d c
  unfolding used
  put_block-used c lt = ground (arith, no_bitmap c lt)

  pub put_block-IsOwned :
      {inum : ℕ} (b : ℕ) → IsOwned sb d inum b → IsOwned sb (put_block d x m) inum b
  put_block-IsOwned b o = record {
    in_range = o.in_range;
    in_use = put_block-used b o.in_range ∙ o.in_use;
    no_inode = o.no_inode;
    no_bitmap = o.no_bitmap;
  }

  pub put_block-IsFormatted :
      {inum : ℕ} → IsFormatted sb d inum → IsFormatted sb (put_block d x m) inum
  put_block-IsFormatted {inum} g = record {
    words = g.words;
    in_range = g.in_range;
    bitmap = λ c lt. put_block-used (bitmap_block sb c) (g.in_range c lt) ∙ g.bitmap c lt;
    inode_range = g.inode_range;
    inode = put_block-used (inode_block sb inum) g.inode_range ∙ g.inode;
    no_bitmap = g.no_bitmap;
    boot = put_block-used 0 (omega (arith, g.inode_range)) ∙ g.boot;
  }

  pub put_block-free_count : free_count sb (put_block d x m) ≡ free_count sb d
  put_block-free_count =
      free_below_cong sb d (put_block d x m) sb.size (λ c lt. put_block-used c lt)

pub put_block-other :
    (d : Disk) (x : ℕ) (m : Memory) (b : ℕ)
    → (b == x) ≡ false
    → (put_block d x m).data_of b ≡ d.data_of b
put_block-other d x m b ne = ground arith

module _ {sb : Superblock} {d : Disk} {ip : FileInode} (x : ℕ) (m : Memory) (f : IsFile sb d ip)
    (no_bitmap : (c : ℕ) → c < sb.size → (x == bitmap_block sb c) ≡ false)
    (no_indirect : (ip.addrs ndirect == 0) ≡ false → (ip.addrs ndirect == x) ≡ false) where
  pub put_block-addr_of : (i : ℕ) → addr_of (put_block d x m) ip i ≡ addr_of d ip i
  unfolding addr_of
  put_block-addr_of i = elim (Bool-cases (ip.addrs ndirect == 0)) [
    | inl null ↦ rw null refl
    | inr there ↦ rw (there, put_block-other d x m (ip.addrs ndirect) (no_indirect there)) refl
  ]

  pub put_block-IsFile : IsFile sb (put_block d x m) ip
  put_block-IsFile = record {
    formatted = put_block-IsFormatted sb d x m no_bitmap f.formatted;
    indirect = λ ne. put_block-IsOwned sb d x m no_bitmap (ip.addrs ndirect) (f.indirect ne);
    owned = λ i lt ne.
        let e = put_block-addr_of i in
        rw e (put_block-IsOwned sb d x m no_bitmap (addr_of d ip i) (f.owned i lt (rw e at ne)));
    apart = λ i j il jl ij ne.
        let e = put_block-addr_of i in
        rw (e, put_block-addr_of j) (f.apart i j il jl ij (rw e at ne));
    apart_indirect =
        λ i lt ne. let e = put_block-addr_of i in rw e (f.apart_indirect i lt (rw e at ne));
  }

  -- A byte of a block that is not written.
  pub put_block-contents :
      (a : ℕ)
      → ((addr_of d ip (a / block_size) == 0) ≡ false
          → (addr_of d ip (a / block_size) == x) ≡ false)
      → contents (put_block d x m) ip a ≡ contents d ip a
  unfolding contents
  put_block-contents a ne =
      rw (put_block-addr_of (a / block_size))
        (elim (Bool-cases (addr_of d ip (a / block_size) == 0)) [
          | inl null ↦ rw null refl
          | inr there ↦ rw there (
              ap (λ (g : Memory). g (a % block_size))
                (put_block-other d x m (addr_of d ip (a / block_size)) (ne there)))
        ])

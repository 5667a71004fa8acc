-- ===== src/Contents/Truncate.antt =====
-- `itrunc` frees the blocks of the file, and no other.
use bf_scheduler.Common.{
  ℕ, ◌+◌, ◌*◌, ◌≤◌, ◌<◌, ◌≡◌, refl, arith, true, false, ◌==◌, ◌||◌, if◌then◌else◌, inl, inr,
  Bool-cases, sym, ap, ◌∙◌, done,
}
use bf_scheduler.Strings.{Memory}
use bf_scheduler.Pages.{load_word}
use bf_scheduler.Blocks.{Superblock, Disk, bitmap_block}
use bf_scheduler.Blocks.Alloc.{used, bfree-Released}
use bf_scheduler.Contents.{
  FileInode, ndirect, nindirect, max_file, inode_block, set_addr, free_indirect, iupdate, itrunc,
}
use bf_scheduler.Contents.Free.{
  held, Freed, IsApart, IsApart-cong, Freed-none, Freed-Released, Freed-trans, held_cong,
  free_direct-Freed, entry, free_entries-Freed,
}
use bf_scheduler.Contents.Put.{put_block-used, put_block-IsFormatted}
use bf_scheduler.Contents.Layout.{addr_of, IsOwned, IsFormatted, IsFile}
use bf_scheduler.Contents.Members.{
  is_block_of, held_none, addr_direct, addr_entry, direct-IsApart, is_block_of-cases,
  is_block_of-direct,
}

-- The file after `itrunc`.
pub record Truncated (sb : Superblock) (d : Disk) (ip : FileInode) (d' : Disk) (ip' : FileInode)
    : Type 0 where
  pub cleared :
      (c : ℕ) → c < sb.size → used sb d' c ≡ (if is_block_of d ip c then false else used sb d c)
  pub empty : (i : ℕ) → i ≤ ndirect → ip'.addrs i ≡ 0
  pub formatted : IsFormatted sb d' ip'.inum
  pub fields : ip' ≡ record ip { addrs = ip'.addrs; size = 0 }
  pub stored : (d'' : Disk) × (d' ≡ iupdate sb ip' d'')

module _ {sb : Superblock} {d d1 : Disk} {ip : FileInode} (f : IsFile sb d ip)
    (freed : Freed sb d (held ip.addrs ndirect 0) d1)
    (there : (ip.addrs ndirect == 0) ≡ false) where
  entry_kept : (j : ℕ) → entry d1 (ip.addrs ndirect) j ≡ entry d (ip.addrs ndirect) j
  entry_kept j =
      ap (λ (m : Memory). load_word m (4 * j))
        (freed.others (ip.addrs ndirect) (f.indirect there).no_bitmap)

  entry_at : (j : ℕ) → entry d1 (ip.addrs ndirect) j ≡ addr_of d ip (ndirect + j)
  entry_at j = entry_kept j ∙ sym (addr_entry f j there)

  -- What a block apart from the direct ones is after they are freed.
  still_used :
      (c : ℕ)
      → used sb d c ≡ true
      → ((k : ℕ) → k < ndirect → (addr_of d ip k == 0) ≡ false → (addr_of d ip k == c) ≡ false)
      → used sb d1 c ≡ true
  still_used c u away = ground (
    arith,
    freed.cleared c,
    u,
    held_none ip.addrs ndirect 0 c (λ k lo hi nz.
        rw (sym (addr_direct f k (omega arith)))
          (away k (omega arith) (rw (addr_direct f k (omega arith)) nz))),
  )

  entries-IsApart : IsApart sb d1 (entry d1 (ip.addrs ndirect)) nindirect 0
  entries-IsApart =
      IsApart-cong {f = λ j. addr_of d ip (ndirect + j)} (λ j lo hi. entry_at j)
        (record {
          in_range = λ j lo hi nz. (f.owned (ndirect + j) (omega arith) nz).in_range;
          in_use = λ j lo hi nz.
              still_used (addr_of d ip (ndirect + j))
                (f.owned (ndirect + j) (omega arith) nz).in_use
                (λ k lt nz'.
                  f.apart k (ndirect + j) (omega arith) (omega arith) (ground arith) nz');
          apart = λ j l jlo jhi llo lhi ne nz.
              f.apart (ndirect + j) (ndirect + l) (omega arith) (omega arith) (ground arith) nz;
        })

-- The indirect block and its entries.
free_indirect-Freed :
    {sb : Superblock} {d d1 : Disk} {ip : FileInode} (ip1 : FileInode)
    → IsFile sb d ip
    → Freed sb d (held ip.addrs ndirect 0) d1
    → ip1.addrs ndirect ≡ ip.addrs ndirect
    → (ip' : FileInode) × (d' : Disk) × (free_indirect sb ip1 d1 ≡ done (ip', d'))
      × Freed sb d (is_block_of d ip) d'
      × ((k : ℕ) → ip'.addrs k ≡ (if k == ndirect then 0 else ip1.addrs k))
      × (ip' ≡ record ip1 { addrs = ip'.addrs })
unfolding free_indirect
free_indirect-Freed {sb} {d} {d1} {ip} ip1 f freed same =
    elim (Bool-cases (ip.addrs ndirect == 0)) [
      | inl null ↦ (
        ip1,
        d1,
        rw (free_indirect, same, null) refl,
        Freed-trans (is_block_of d ip) freed (Freed-none sb d1 (λ c. false) (λ c. refl))
            (λ c. is_block_of-direct f c null),
        λ k. ground (arith, same),
        refl,
      )
      | inr there ↦
          let ind : ℕ = ip.addrs ndirect in
          let o = f.indirect there in
          let (d2, run, freed') =
            free_entries-Freed sb ind nindirect 0 d1 o.no_bitmap (entries-IsApart f freed there) in
          let unheld = held_none (entry d1 ind) nindirect 0 ind (λ j lo hi nz.
            rw (entry_at f freed there j) (
              f.apart_indirect (ndirect + j) (omega arith)
                (rw (sym (entry_at f freed there j)) nz))) in
          let in_use : used sb d2 ind ≡ true =
            freed'.cleared ind
            ∙ ground (
              arith,
              unheld,
              still_used f freed there ind o.in_use
                  (λ k lt nz. f.apart_indirect k (omega arith) nz),
            ) in
          let (d3, free, r) = bfree-Released sb d2 ind in_use in
          (
            set_addr ip1 ndirect 0,
            d3,
            rw (free_indirect, same, there, run, free) refl,
            Freed-trans (is_block_of d ip) freed
                (Freed-trans (λ c. held (entry d1 ind) nindirect 0 c || (c == ind)) freed'
                  (Freed-Released sb d2 d3 ind o.in_range r) (λ c. refl))
                (λ c.
                  is_block_of-cases f c there
                  ∙ ground (
                    arith,
                    held_cong (entry d ind) (entry d1 ind) nindirect 0 c
                        (λ j lo hi. entry_kept f freed there j),
                  )),
            λ k. ground arith,
            refl,
          )
    ]

-- A block that the file cannot own.
foreign :
    {sb : Superblock} {d : Disk} {ip : FileInode} (c : ℕ)
    → IsFile sb d ip
    → ((b : ℕ) → IsOwned sb d ip.inum b → (b == 0) ≡ false → (b == c) ≡ false)
    → is_block_of d ip c ≡ false
foreign {d} {ip} c f ne = elim (Bool-cases (ip.addrs ndirect == 0)) [
  | inl null ↦ ground (
    arith,
    null,
    held_none (addr_of d ip) max_file 0 c
        (λ k lo hi nz. ne (addr_of d ip k) (f.owned k (omega arith) nz) nz),
  )
  | inr there ↦ ground (
    arith,
    ne (ip.addrs ndirect) (f.indirect there) there,
    held_none (addr_of d ip) max_file 0 c
        (λ k lo hi nz. ne (addr_of d ip k) (f.owned k (omega arith) nz) nz),
  )
]

Freed-IsFormatted :
    {sb : Superblock} {d d' : Disk} {ip : FileInode}
    → IsFile sb d ip
    → Freed sb d (is_block_of d ip) d'
    → IsFormatted sb d' ip.inum
Freed-IsFormatted {sb} {d} {d'} {ip} f freed =
    let g = f.formatted in
    let still : (c : ℕ)
        → used sb d c ≡ true
        → ((b : ℕ) → IsOwned sb d ip.inum b → (b == 0) ≡ false → (b == c) ≡ false)
        → used sb d' c ≡ true =
      λ c u ne. freed.cleared c ∙ ground (arith, foreign c f ne, u) in
    record {
      words = g.words;
      in_range = g.in_range;
      bitmap = λ c lt. still (bitmap_block sb c) (g.bitmap c lt) (λ b o nz. o.no_bitmap c lt);
      inode_range = g.inode_range;
      inode = still (inode_block sb ip.inum) g.inode (λ b o nz. o.no_inode);
      no_bitmap = g.no_bitmap;
      boot = still 0 g.boot (λ b o nz. nz);
    }

-- `itrunc` of a file laid out right ends. The blocks of the file, its indirect block included, are free
-- and no other block is; the file has no blocks and size 0, and is on the disk; the blocks of metadata
-- are still in use.
pub itrunc-Truncated :
    (sb : Superblock) (ip : FileInode) (d : Disk)
    → IsFile sb d ip
    → (ip' : FileInode) × (d' : Disk) × (itrunc sb ip d ≡ done (ip', d')) × Truncated sb d ip d' ip'
unfolding itrunc iupdate
itrunc-Truncated sb ip d f =
    let (ip1, d1, run1, freed1, addrs1, fields1) =
      free_direct-Freed sb ndirect 0 ip d (direct-IsApart f) in
    let (ip2, d2, run2, freed2, addrs2, fields2) =
      free_indirect-Freed ip1 f freed1 (ground (arith, addrs1 ndirect)) in
    let g = Freed-IsFormatted f freed2 in
    let ip' : FileInode = record ip2 { size = 0 } in
    let inum : ip2.inum ≡ ip.inum =
      ap (λ (h : FileInode). h.inum) fields2 ∙ ap (λ (h : FileInode). h.inum) fields1 in
    let away : (c : ℕ) → c < sb.size → (inode_block sb ip2.inum == bitmap_block sb c) ≡ false =
      rw inum f.formatted.no_bitmap in
    (
      ip',
      iupdate sb ip' d2,
      rw (itrunc, run1, run2) refl,
      record {
        cleared = λ c lt. put_block-used sb d2 _ _ away c lt ∙ freed2.cleared c;
        empty = λ i le. addrs2 i ∙ ground (arith, addrs1 i);
        formatted = put_block-IsFormatted sb d2 _ _ away (rw inum g);
        fields =
            ap (λ (h : FileInode). record h { size = 0 })
              (fields2 ∙ ap (λ (h : FileInode). record h { addrs = ip2.addrs }) fields1);
        stored = (d2, refl);
      },
    )

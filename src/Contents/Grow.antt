-- ===== src/Contents/Grow.antt =====
-- One more block for a file.
use bf_scheduler.Common.{
  ℕ, ◌*◌, ◌/◌, ◌%◌, ◌<◌, ◌≡◌, refl, arith, true, false, ◌==◌, if◌then◌else◌, ◌⊎◌, inl, inr,
  Bool-cases, ap, ◌∙◌,
}
use bf_scheduler.Blocks.{Superblock, Disk, block_size, bitmap_block}
use bf_scheduler.Blocks.Alloc.{used, Taken, free_ne}
use bf_scheduler.Contents.{FileInode, ndirect, max_file, inode_block}
use bf_scheduler.Contents.Layout.{addr_of, contents, IsOwned, IsFormatted, IsFile}

pub used_kept :
    {sb : Superblock} {d d' : Disk} {b : ℕ}
    → Taken sb d b d'
    → (c : ℕ) → c < sb.size
    → used sb d c ≡ true
    → used sb d' c ≡ true
used_kept t c lt u = t.marked c lt ∙ ground (arith, u)

-- What a new block leaves of the rest.
module _ {sb : Superblock} {d d' : Disk} {inum : ℕ} {b : ℕ} (t : Taken sb d b d') where
  pub IsFormatted-Taken : IsFormatted sb d inum → IsFormatted sb d' inum
  IsFormatted-Taken f = record {
    words = f.words;
    in_range = f.in_range;
    bitmap = λ c lt. used_kept t (bitmap_block sb c) (f.in_range c lt) (f.bitmap c lt);
    inode_range = f.inode_range;
    inode = used_kept t (inode_block sb inum) f.inode_range f.inode;
    no_bitmap = f.no_bitmap;
    boot = used_kept t 0 (omega (arith, f.inode_range)) f.boot;
  }

  pub IsOwned-Taken : (x : ℕ) → IsOwned sb d inum x → IsOwned sb d' inum x
  IsOwned-Taken x o = record {
    in_range = o.in_range;
    in_use = used_kept t x o.in_range o.in_use;
    no_inode = o.no_inode;
    no_bitmap = o.no_bitmap;
  }

  pub fresh : (x : ℕ) → IsOwned sb d inum x → (x == b) ≡ false
  fresh x o = ground (arith, free_ne sb d b x t.was_free o.in_use)

  pub data_kept : (x : ℕ) → IsOwned sb d inum x → d'.data_of x ≡ d.data_of x
  data_kept x o = t.others x (fresh x o) (o.no_bitmap b t.in_range)

  pub Taken-ne_zero : IsFormatted sb d inum → (b == 0) ≡ false
  Taken-ne_zero f = free_ne sb d b 0 t.was_free f.boot

  pub Taken-IsOwned : IsFormatted sb d inum → IsOwned sb d' inum b
  Taken-IsOwned f = record {
    in_range = t.in_range;
    in_use = t.marked b t.in_range ∙ ground arith;
    no_inode = free_ne sb d b (inode_block sb inum) t.was_free f.inode;
    no_bitmap = λ c lt. free_ne sb d b (bitmap_block sb c) t.was_free (f.bitmap c lt);
  }

-- The block `b`, new and zeroed, as the block `bn` of the file.
pub record Grown (sb : Superblock) (d : Disk) (ip : FileInode) (bn b : ℕ) (d' : Disk)
    (ip' : FileInode) : Type 0 where
  pub formatted : IsFormatted sb d' ip'.inum
  pub kept : (x : ℕ) → IsOwned sb d ip.inum x → IsOwned sb d' ip'.inum x
  pub data_kept :
      (i : ℕ)
      → i < max_file
      → (addr_of d ip i == 0) ≡ false
      → d'.data_of (addr_of d ip i) ≡ d.data_of (addr_of d ip i)
  pub owned : IsOwned sb d' ip'.inum b
  pub fresh : (x : ℕ) → IsOwned sb d ip.inum x → (x == b) ≡ false
  pub not_null : (b == 0) ≡ false
  pub zeros : (i : ℕ) → i < block_size → d'.data_of b i ≡ 0
  pub was_hole : addr_of d ip bn ≡ 0
  pub addrs : (i : ℕ) → i < max_file → addr_of d' ip' i ≡ (if i == bn then b else addr_of d ip i)
  pub same_indirect : ip'.addrs ndirect ≡ ip.addrs ndirect

-- What a step does that leaves the contents.
pub record Mapped (sb : Superblock) (d : Disk) (ip : FileInode) (d' : Disk) (ip' : FileInode)
    : Type 0 where
  pub file : IsFile sb d' ip'
  pub same : (a : ℕ) → a < max_file * block_size → contents d' ip' a ≡ contents d ip a
  pub fields : ip' ≡ record ip { addrs = ip'.addrs }

module _ {sb : Superblock} {d d' : Disk} {ip ip' : FileInode} {bn b : ℕ} (f : IsFile sb d ip)
    (g : Grown sb d ip bn b d' ip') where
  addr_old : (i : ℕ) → i < max_file → (i == bn) ≡ false → addr_of d' ip' i ≡ addr_of d ip i
  addr_old i lt ne = g.addrs i lt ∙ rw ne refl

  addr_new : (i : ℕ) → i < max_file → (i == bn) ≡ true → addr_of d' ip' i ≡ b
  addr_new i lt at = g.addrs i lt ∙ rw at refl

  -- A block that stands in the file and is not null was there before, or is the new one.
  Grown-cases :
      (i : ℕ)
      → i < max_file
      → (addr_of d' ip' i == 0) ≡ false
      → ((addr_of d' ip' i ≡ b) × ((i == bn) ≡ true))
        ⊎ ((addr_of d' ip' i ≡ addr_of d ip i)
            × ((i == bn) ≡ false)
            × ((addr_of d ip i == 0) ≡ false))
  Grown-cases i lt ne = elim (Bool-cases (i == bn)) [
    | inl at ↦ inl (addr_new i lt at, at)
    | inr old ↦ inr (addr_old i lt old, old, rw (addr_old i lt old) at ne)
  ]

  Grown-contents : (a : ℕ) → a < max_file * block_size → contents d' ip' a ≡ contents d ip a
  unfolding contents
  Grown-contents a lt = elim (Bool-cases (a / block_size == bn)) [
    | inl at ↦
        let e : a / block_size ≡ bn = ground arith in
        let hole : addr_of d ip (a / block_size) ≡ 0 = ap (addr_of d ip) e ∙ g.was_hole in
        rw (addr_new (a / block_size) (omega arith) at, hole, g.not_null)
          (g.zeros (a % block_size) (omega arith))
    | inr old ↦
        rw (addr_old (a / block_size) (omega arith) old)
          (elim (Bool-cases (addr_of d ip (a / block_size) == 0)) [
            | inl hole ↦ rw hole refl
            | inr ne ↦ rw ne (
                ap (λ (m : ℕ → ℕ). m (a % block_size))
                  (g.data_kept (a / block_size) (omega arith) ne))
          ])
  ]

  Grown-IsOwned :
      (i : ℕ)
      → i < max_file
      → (addr_of d' ip' i == 0) ≡ false
      → IsOwned sb d' ip'.inum (addr_of d' ip' i)
  Grown-IsOwned i lt ne = elim (Grown-cases i lt ne) [
    | inl (new, here) ↦ rw new g.owned
    | inr (e, old, was) ↦ rw e (g.kept (addr_of d ip i) (f.owned i lt was))
  ]

  Grown-apart :
      (i j : ℕ)
      → i < max_file
      → j < max_file
      → (i == j) ≡ false
      → (addr_of d' ip' i == 0) ≡ false
      → (addr_of d' ip' i == addr_of d' ip' j) ≡ false
  Grown-apart i j il jl ij ne = elim (Bool-cases (addr_of d' ip' j == 0)) [
    | inl null ↦ ground arith
    | inr ne' ↦ elim (Grown-cases i il ne) [
      | inl (new, here) ↦ elim (Bool-cases (j == bn)) [
        | inl at ↦ ground arith
        | inr old ↦ ground (
          arith,
          new,
          addr_old j jl old,
          g.fresh (addr_of d ip j) (f.owned j jl (rw (addr_old j jl old) at ne')),
        )
      ]
      | inr (e, old, was) ↦ elim (Grown-cases j jl ne') [
        | inl (new, here) ↦ ground (arith, e, new, g.fresh (addr_of d ip i) (f.owned i il was))
        | inr (e', old', was') ↦ ground (arith, e, e', f.apart i j il jl ij was)
      ]
    ]
  ]

  Grown-IsFile : IsFile sb d' ip'
  Grown-IsFile = record {
    formatted = g.formatted;
    indirect = λ ne.
        let was : (ip.addrs ndirect == 0) ≡ false = rw g.same_indirect at ne in
        rw g.same_indirect (g.kept (ip.addrs ndirect) (f.indirect was));
    owned = Grown-IsOwned;
    apart = Grown-apart;
    apart_indirect = λ i lt ne. elim (Bool-cases (ip.addrs ndirect == 0)) [
      | inl null ↦ ground (arith, g.same_indirect)
      | inr there ↦ elim (Grown-cases i lt ne) [
        | inl (new, here) ↦
            ground (arith, new, g.same_indirect, g.fresh (ip.addrs ndirect) (f.indirect there))
        | inr (e, old, was) ↦ ground (arith, e, g.same_indirect, f.apart_indirect i lt was)
      ]
    ];
  }

  pub Grown-Mapped : ip' ≡ record ip { addrs = ip'.addrs } → Mapped sb d ip d' ip'
  Grown-Mapped fields = record { file = Grown-IsFile; same = Grown-contents; fields = fields }

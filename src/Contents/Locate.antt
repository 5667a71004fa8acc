-- ===== src/Contents/Locate.antt =====
-- `bmap` finds or adds a block, and leaves the contents of the file.
use bf_scheduler.Common.{
  ℕ, ◌+◌, ◌-◌, ◌*◌, ◌≤◌, ◌<◌, ◌≡◌, refl, arith, true, false, ◌==◌, ltb, inl, inr, Bool-cases, sym,
  ap, ◌∙◌, Outcome, done, panicked, out_of_bounds, out_of_fuel, ◌>>=◌,
}
use mathlib.Core.Path.{subst}
use bf_scheduler.Pages.{load_word}
use bf_scheduler.Blocks.{Superblock, Disk, balloc}
use bf_scheduler.Blocks.Alloc.{used, Allocation, disk_full, allocated, balloc-Allocation}
use bf_scheduler.Blocks.Count.{free_count, free_below_cong, Taken-free_count}
use bf_scheduler.Contents.{
  FileInode, ndirect, nindirect, max_file, set_addr, map_addr, map_entry, bmap,
}
use bf_scheduler.Contents.Layout.{addr_of, IsFile}
use bf_scheduler.Contents.Grow.{Taken-ne_zero, Mapped, Grown-Mapped}
use bf_scheduler.Contents.Map.{
  Mapped-refl, direct-Grown, new_indirect-Mapped, with_entry, with_entry-used, entry-Grown,
}

-- At most one block is free.
abbrev pub IsScarce : Superblock → Disk → Type 0
IsScarce sb d = (b : ℕ) × ((c : ℕ) → c < sb.size → (c == b) ≡ false → used sb d c ≡ true)

abbrev IsFull : Superblock → Disk → Type 0
IsFull sb d = (c : ℕ) → c < sb.size → used sb d c ≡ true

-- The results of `bmap`; a panic comes of a `Shortage`, and `cost` blocks at most are taken.
pub data Located (Shortage : Type 0) (cost : ℕ) (sb : Superblock) (d : Disk) (ip : FileInode)
    (bn : ℕ) : Outcome (ℕ × FileInode × Disk) → Type 0 where
  no_room : Shortage → Located Shortage cost sb d ip bn panicked
  located :
      (b : ℕ) (ip' : FileInode) (d' : Disk)
      → Mapped sb d ip d' ip'
      → addr_of d' ip' bn ≡ b
      → (b == 0) ≡ false
      → free_count sb d ≤ free_count sb d' + cost
      → Located Shortage cost sb d ip bn (done (b, ip', d'))

pub Mapped-trans :
    {sb : Superblock} {d d' d'' : Disk} {ip ip' ip'' : FileInode}
    → Mapped sb d ip d' ip'
    → Mapped sb d' ip' d'' ip''
    → Mapped sb d ip d'' ip''
Mapped-trans {ip''} m m' = record {
  file = m'.file;
  same = λ a lt. m'.same a lt ∙ m.same a lt;
  fields = m'.fields ∙ ap (λ (g : FileInode). record g { addrs = ip''.addrs }) m.fields;
}

module _ {sb : Superblock} {d : Disk} {ip : FileInode} (f : IsFile sb d ip) where
  new_direct :
      (bn : ℕ) (r : Outcome (ℕ × Disk))
      → bn < ndirect
      → ip.addrs bn ≡ 0
      → balloc sb d ≡ r
      → Allocation sb d r
      → Located (IsFull sb d) 1 sb d ip bn (map_addr sb ip bn d)
  unfolding map_addr addr_of
  new_direct bn out_of_bounds lt hole e x = elim x [ ]
  new_direct bn out_of_fuel lt hole e x = elim x [ ]
  new_direct bn panicked lt hole e (disk_full all) = rw (map_addr, hole, e) (no_room all)
  new_direct bn (done r) lt hole e (allocated b d' t) =
      rw (map_addr, hole, e)
        (located b (set_addr ip bn b) d' (Grown-Mapped f (direct-Grown f t bn lt hole) refl)
          (ground (arith, hole)) (Taken-ne_zero t f.formatted)
          (omega (arith, Taken-free_count sb d d' b t)))

  direct-Located :
      (bn : ℕ) → bn < ndirect → Located (IsFull sb d) 1 sb d ip bn (map_addr sb ip bn d)
  unfolding map_addr addr_of
  direct-Located bn lt = elim (Bool-cases (ip.addrs bn == 0)) [
    | inl hole ↦
        new_direct bn (balloc sb d) lt (ground arith) refl
          (balloc-Allocation sb d f.formatted.bitmap)
    | inr there ↦
        rw (map_addr, there)
          (located (ip.addrs bn) ip d (Mapped-refl f) (ground arith) there (omega arith))
  ]

-- The results of finding the indirect block.
data Pointed (sb : Superblock) (d : Disk) (ip : FileInode)
    : Outcome (ℕ × FileInode × Disk) → Type 0 where
  no_room : IsFull sb d → Pointed sb d ip panicked
  pointed :
      (ind : ℕ) (ip' : FileInode) (d' : Disk)
      → Mapped sb d ip d' ip'
      → ip'.addrs ndirect ≡ ind
      → (ind == 0) ≡ false
      → ((c : ℕ) → c < sb.size → (c == ind) ≡ false → used sb d' c ≡ true → used sb d c ≡ true)
      → free_count sb d ≤ free_count sb d' + 1
      → Pointed sb d ip (done (ind, ip', d'))

module _ {sb : Superblock} {d : Disk} {ip : FileInode} (f : IsFile sb d ip) where
  new_indirect :
      (r : Outcome (ℕ × Disk))
      → ip.addrs ndirect ≡ 0
      → balloc sb d ≡ r
      → Allocation sb d r
      → Pointed sb d ip (map_addr sb ip ndirect d)
  unfolding map_addr
  new_indirect out_of_bounds hole e x = elim x [ ]
  new_indirect out_of_fuel hole e x = elim x [ ]
  new_indirect panicked hole e (disk_full all) = rw (map_addr, hole, e) (no_room all)
  new_indirect (done r) hole e (allocated b d' t) =
      rw (map_addr, hole, e)
        (pointed b (set_addr ip ndirect b) d' (new_indirect-Mapped f t hole) (ground arith)
          (Taken-ne_zero t f.formatted) (λ c lt ne u. ground (arith, t.marked c lt, u))
          (omega (arith, Taken-free_count sb d d' b t)))

  indirect-Pointed : Pointed sb d ip (map_addr sb ip ndirect d)
  unfolding map_addr
  indirect-Pointed = elim (Bool-cases (ip.addrs ndirect == 0)) [
    | inl hole ↦
        new_indirect (balloc sb d) (ground arith) refl (balloc-Allocation sb d f.formatted.bitmap)
    | inr there ↦
        rw (map_addr, there)
          (pointed (ip.addrs ndirect) ip d (Mapped-refl f) refl there (λ c lt ne u. u)
            (omega arith))
  ]

  new_entry :
      (j : ℕ) (r : Outcome (ℕ × Disk))
      → j < nindirect
      → (ip.addrs ndirect == 0) ≡ false
      → addr_of d ip (ndirect + j) ≡ 0
      → load_word (d.data_of (ip.addrs ndirect)) (4 * j) ≡ 0
      → balloc sb d ≡ r
      → Allocation sb d r
      → Located (IsFull sb d) 1 sb d ip (ndirect + j) (map_entry sb ip (ip.addrs ndirect) j d)
  unfolding map_entry
  new_entry j out_of_bounds lt there hole word e x = elim x [ ]
  new_entry j out_of_fuel lt there hole word e x = elim x [ ]
  new_entry j panicked lt there hole word e (disk_full all) = rw (map_entry, word, e) (no_room all)
  new_entry j (done r) lt there hole word e (allocated b d' t) =
      let g = entry-Grown f t j lt there hole in
      rw (map_entry, word, e)
        (located b ip (with_entry f t j) (Grown-Mapped f g refl)
          (g.addrs (ndirect + j) (omega arith) ∙ ground arith) g.not_null
          (omega (
            arith,
            Taken-free_count sb d d' b t,
            free_below_cong sb d' (with_entry f t j) sb.size
                (λ c cl. with_entry-used f t j c there cl),
          )))

  entry-Located :
      (j : ℕ)
      → j < nindirect
      → (ip.addrs ndirect == 0) ≡ false
      → Located (IsFull sb d) 1 sb d ip (ndirect + j) (map_entry sb ip (ip.addrs ndirect) j d)
  unfolding map_entry addr_of
  entry-Located j lt there =
      let at : addr_of d ip (ndirect + j) ≡ load_word (d.data_of (ip.addrs ndirect)) (4 * j) =
        let e : ndirect + j - ndirect ≡ j = omega arith in ground (arith, there, e) in
      elim (Bool-cases (load_word (d.data_of (ip.addrs ndirect)) (4 * j) == 0)) [
        | inl hole ↦
            let word : load_word (d.data_of (ip.addrs ndirect)) (4 * j) ≡ 0 = ground arith in
            new_entry j (balloc sb d) lt there (at ∙ word) word refl
              (balloc-Allocation sb d f.formatted.bitmap)
        | inr here ↦ rw (map_entry, here) (located _ ip d (Mapped-refl f) at here (omega arith))
      ]

-- A step before the block is located.
after_step :
    {P Q : Type 0} {cost cost' : ℕ} {sb : Superblock} {d d' : Disk} {ip ip' : FileInode} {bn : ℕ}
    {r : Outcome (ℕ × FileInode × Disk)}
    → Mapped sb d ip d' ip'
    → (P → Q)
    → free_count sb d + cost ≤ free_count sb d' + cost'
    → Located P cost sb d' ip' bn r
    → Located Q cost' sb d ip bn r
after_step m weaken le (no_room p) = no_room (weaken p)
after_step m weaken le (located b ip'' d'' m' at ne few) =
    located b ip'' d'' (Mapped-trans m m') at ne (omega arith)

-- The two steps for a block behind the direct ones.
entry_after :
    {sb : Superblock} {d : Disk} {ip : FileInode} (j : ℕ) (r : Outcome (ℕ × FileInode × Disk))
    → j < nindirect
    → Pointed sb d ip r
    → Located
        (IsScarce sb d)
        2
        sb
        d
        ip
        (ndirect + j)
        (r >>= λ (ind, ip', d'). map_entry sb ip' ind j d')
entry_after j out_of_bounds lt x = elim x [ ]
entry_after j out_of_fuel lt x = elim x [ ]
entry_after j panicked lt (no_room all) = no_room (0, λ c cl ne. all c cl)
entry_after {sb} {d} {ip} j (done r) lt (pointed ind ip' d' m e ne back few) = rw (sym e) (
    after_step m (λ all. (ind, λ c lt' ne'. back c lt' ne' (all c lt'))) (omega arith)
      (entry-Located m.file j lt (ground (arith, e))))

-- On a file laid out right, and for a block below `MAXFILE`, `bmap` panics only if at most one block of
-- the disk is free. Otherwise it returns the block of the disk, not null, that then stands for the block
-- of the file, and takes two free blocks at most; the file is still laid out right, and its contents are
-- as before: a block that was missing read as zeros, and is zeroed when it is added.
pub bmap-Located :
    (sb : Superblock) (d : Disk) (ip : FileInode) (bn : ℕ)
    → IsFile sb d ip
    → bn < max_file
    → Located (IsScarce sb d) 2 sb d ip bn (bmap sb ip bn d)
unfolding bmap
bmap-Located sb d ip bn f lt = elim (Bool-cases (ltb bn ndirect)) [
  | inl near ↦
      rw (bmap, near)
        (after_step (Mapped-refl f) (λ all. (0, λ c lt' ne. all c lt')) (omega arith)
          (direct-Located f bn (ground arith)))
  | inr far ↦
      let within : ltb (bn - ndirect) nindirect ≡ true = ground arith in
      let e : ndirect + (bn - ndirect) ≡ bn = ground arith in
      rw (bmap, far, within)
        (subst
          (λ (i : ℕ).
            Located (IsScarce sb d) 2 sb d ip i (
              map_addr sb ip ndirect d >>= λ (ind, ip', d').
              map_entry sb ip' ind (bn - ndirect) d'))
          e (entry_after (bn - ndirect) _ (ground arith) (indirect-Pointed f)))
]

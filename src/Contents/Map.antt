-- ===== src/Contents/Map.antt =====
-- `bmap` finds or adds a block, and leaves the contents of the file.
use bf_scheduler.Common.{
  ℕ, ◌+◌, ◌-◌, ◌*◌, ◌/◌, ◌%◌, ◌≤◌, ◌<◌, ◌≡◌, refl, arith, false, ◌==◌, ltb, if◌then◌else◌,
  update_self, inl, inr, Bool-cases, ap, ◌∙◌,
}
use bf_scheduler.Strings.{Memory, store_word}
use bf_scheduler.Pages.{load_word}
use bf_scheduler.Pages.FreeList.{load_word-store_word}
use bf_scheduler.Blocks.{Superblock, Disk, block_size, put_block}
use bf_scheduler.Blocks.Alloc.{used, Taken}
use bf_scheduler.Contents.{FileInode, ndirect, nindirect, max_file, set_addr}
use bf_scheduler.Contents.Layout.{
  load_word-store_word_other, addr_of, contents, IsOwned, IsFormatted, IsFile,
}
use bf_scheduler.Contents.Put.{put_block-used, put_block-IsOwned, put_block-IsFormatted}
use bf_scheduler.Contents.Grow.{
  IsFormatted-Taken, IsOwned-Taken, Taken-ne_zero, Taken-IsOwned, fresh, data_kept, Grown, Mapped,
}

-- The same inode and disk.
pub Mapped-refl :
    {sb : Superblock} {d : Disk} {ip : FileInode} → IsFile sb d ip → Mapped sb d ip d ip
Mapped-refl f = record { file = f; same = λ a lt. refl; fields = refl }

module _ {sb : Superblock} {d d' : Disk} {ip : FileInode} {b : ℕ} (f : IsFile sb d ip)
    (t : Taken sb d b d') where
  indirect_kept :
      (a : ℕ)
      → (if ip.addrs ndirect == 0 then 0 else load_word (d'.data_of (ip.addrs ndirect)) a)
        ≡ (if ip.addrs ndirect == 0 then 0 else load_word (d.data_of (ip.addrs ndirect)) a)
  indirect_kept a = elim (Bool-cases (ip.addrs ndirect == 0)) [
    | inl null ↦ rw null refl
    | inr there ↦ rw (there, data_kept t (ip.addrs ndirect) (f.indirect there)) refl
  ]

  -- A new direct block.
  pub direct-Grown :
      (bn : ℕ) → bn < ndirect → ip.addrs bn ≡ 0 → Grown sb d ip bn b d' (set_addr ip bn b)
  unfolding addr_of
  direct-Grown bn lt hole = record {
    formatted = IsFormatted-Taken t f.formatted;
    kept = IsOwned-Taken t;
    data_kept = λ i il ne. data_kept t (addr_of d ip i) (f.owned i il ne);
    owned = Taken-IsOwned t f.formatted;
    fresh = fresh t;
    not_null = Taken-ne_zero t f.formatted;
    zeros = t.zeroed;
    was_hole = ground (arith, hole);
    addrs = λ i il. ground (arith, indirect_kept (4 * (i - ndirect)));
    same_indirect = ground arith;
  }

  -- A new, empty indirect block.
  new_indirect-addr_of :
      (i : ℕ)
      → i < max_file
      → ip.addrs ndirect ≡ 0
      → addr_of d' (set_addr ip ndirect b) i ≡ addr_of d ip i
  unfolding addr_of load_word
  new_indirect-addr_of i lt hole =
      let z = λ (k : ℕ) (kl : k < 4) (far : ndirect ≤ i).
        t.zeroed (4 * (i - ndirect) + k) (omega arith) in
      elim (Bool-cases (ltb i ndirect)) [
        | inl near ↦ ground (arith, near)
        | inr far ↦ ground (
          arith,
          hole,
          t.zeroed (4 * (i - ndirect)) (ground arith),
          t.zeroed (4 * (i - ndirect) + 1) (ground arith),
          t.zeroed (4 * (i - ndirect) + 2) (ground arith),
          t.zeroed (4 * (i - ndirect) + 3) (ground arith),
        )
      ]

  new_indirect-IsFile : ip.addrs ndirect ≡ 0 → IsFile sb d' (set_addr ip ndirect b)
  new_indirect-IsFile hole = record {
    formatted = IsFormatted-Taken t f.formatted;
    indirect = λ ne. Taken-IsOwned t f.formatted;
    owned = λ i lt ne.
        let e = new_indirect-addr_of i lt hole in
        rw e (IsOwned-Taken t (addr_of d ip i) (f.owned i lt (rw e at ne)));
    apart = λ i j il jl ij ne.
        let e = new_indirect-addr_of i il hole in
        rw (e, new_indirect-addr_of j jl hole) (f.apart i j il jl ij (rw e at ne));
    apart_indirect = λ i lt ne.
        let e = new_indirect-addr_of i lt hole in
        ground (arith, e, fresh t (addr_of d ip i) (f.owned i lt (rw e at ne)));
  }

  pub new_indirect-Mapped : ip.addrs ndirect ≡ 0 → Mapped sb d ip d' (set_addr ip ndirect b)
  unfolding contents
  new_indirect-Mapped hole = record {
    file = new_indirect-IsFile hole;
    same = λ a lt.
        rw (new_indirect-addr_of (a / block_size) (omega arith) hole)
          (elim (Bool-cases (addr_of d ip (a / block_size) == 0)) [
            | inl null ↦ rw null refl
            | inr there ↦ rw there (
                ap (λ (m : ℕ → ℕ). m (a % block_size))
                  (data_kept t (addr_of d ip (a / block_size))
                    (f.owned (a / block_size) (omega arith) there)))
          ]);
    fields = refl;
  }

  -- A new entry of the indirect block.
  abbrev pub with_entry : ℕ → Disk
  with_entry j =
      put_block d' (ip.addrs ndirect) (store_word (d'.data_of (ip.addrs ndirect)) (4 * j) b)

  pub with_entry-used :
      (j c : ℕ)
      → (ip.addrs ndirect == 0) ≡ false
      → c < sb.size
      → used sb (with_entry j) c ≡ used sb d' c
  with_entry-used j c there lt =
      put_block-used sb d' (ip.addrs ndirect) _ (f.indirect there).no_bitmap c lt

  with_entry-IsOwned :
      (j x : ℕ)
      → (ip.addrs ndirect == 0) ≡ false
      → IsOwned sb d' ip.inum x
      → IsOwned sb (with_entry j) ip.inum x
  with_entry-IsOwned j x there o =
      put_block-IsOwned sb d' (ip.addrs ndirect) _ (f.indirect there).no_bitmap x o

  with_entry-IsFormatted :
      (j : ℕ) → (ip.addrs ndirect == 0) ≡ false → IsFormatted sb (with_entry j) ip.inum
  with_entry-IsFormatted j there =
      put_block-IsFormatted sb d' (ip.addrs ndirect) _ (f.indirect there).no_bitmap
        (IsFormatted-Taken t f.formatted)

  with_entry-other :
      (j x : ℕ) → (x == ip.addrs ndirect) ≡ false → (with_entry j).data_of x ≡ d'.data_of x
  with_entry-other j x ne = ground arith

  entry_word :
      (j k : ℕ)
      → (ip.addrs ndirect == 0) ≡ false
      → load_word ((with_entry j).data_of (ip.addrs ndirect)) (4 * k)
        ≡ (if k == j then b else load_word (d.data_of (ip.addrs ndirect)) (4 * k))
  entry_word j k there =
      let m : Memory = d'.data_of (ip.addrs ndirect) in
      let e = data_kept t (ip.addrs ndirect) (f.indirect there) in
      ap (λ (m' : Memory). load_word m' (4 * k))
        (update_self d'.data_of (ip.addrs ndirect) (store_word m (4 * j) b))
      ∙ elim (Bool-cases (k == j)) [
        | inl at ↦
            let same : k ≡ j = ground arith in
            rw (at, same)
              (load_word-store_word m (4 * j) b (omega (arith, t.in_range, f.formatted.words)))
        | inr ne ↦ rw ne (
            load_word-store_word_other m (4 * j) (4 * k) b (elim (Bool-cases (ltb j k)) [
              | inl below ↦ inl (ground arith)
              | inr above ↦ inr (ground arith)
            ])
            ∙ ap (λ (m' : Memory). load_word m' (4 * k)) e)
      ]

  with_entry-addr_of :
      (j i : ℕ)
      → (ip.addrs ndirect == 0) ≡ false
      → i < max_file
      → addr_of (with_entry j) ip i ≡ (if i == ndirect + j then b else addr_of d ip i)
  unfolding addr_of
  with_entry-addr_of j i there lt = elim (Bool-cases (ltb i ndirect)) [
    | inl near ↦ ground (arith, near)
    | inr far ↦ ground (arith, there, far, entry_word j (i - ndirect) there)
  ]

  pub entry-Grown :
      (j : ℕ)
      → j < nindirect
      → (ip.addrs ndirect == 0) ≡ false
      → addr_of d ip (ndirect + j) ≡ 0
      → Grown sb d ip (ndirect + j) b (with_entry j) ip
  entry-Grown j lt there hole = record {
    formatted = with_entry-IsFormatted j there;
    kept = λ x o. with_entry-IsOwned j x there (IsOwned-Taken t x o);
    data_kept = λ i il ne.
        with_entry-other j (addr_of d ip i) (f.apart_indirect i il ne)
        ∙ data_kept t (addr_of d ip i) (f.owned i il ne);
    owned = with_entry-IsOwned j b there (Taken-IsOwned t f.formatted);
    fresh = fresh t;
    not_null = Taken-ne_zero t f.formatted;
    zeros = λ i il.
        ap (λ (m : Memory). m i)
          (with_entry-other j b (ground (arith, fresh t (ip.addrs ndirect) (f.indirect there))))
        ∙ t.zeroed i il;
    was_hole = hole;
    addrs = λ i il. with_entry-addr_of j i there il;
    same_indirect = refl;
  }

-- ===== src/Contents/Transact.antt =====
-- `filewrite` of file.c over `writei`, one transaction for each piece.
use bf_scheduler.Common.{
  ℕ, ◌+◌, ◌*◌, ◌/◌, ◌≤◌, ◌<◌, ◌≡◌, refl, arith, Bool, false, ◌==◌, ltb, if◌then◌else◌, List, [],
  length, ap, ◌∙◌, done, ◌>>=◌,
}
use bf_scheduler.Common.Int.{ℤ, pos}
use bf_scheduler.SkipList.{minus_one}
use bf_scheduler.Files.{Writer, write_max, piece_size}
use bf_scheduler.Files.Write.{written, written_cong}
use bf_scheduler.Blocks.{Superblock, Disk, block_size}
use bf_scheduler.Blocks.Alloc.{used}
use bf_scheduler.Blocks.Count.{free_count, free_below_cong}
use bf_scheduler.Contents.{
  FileInode, ndirect, max_file, t_dev, Moved, failed, to_device, moved, writei,
}
use bf_scheduler.Contents.Layout.{addr_of, contents, IsOwned, IsFile}
use bf_scheduler.Contents.Read.{touched}
use bf_scheduler.Contents.Write.{writei_lem}

-- The inode of the file, and the disk.
pub record FileState : Type 0 where
  pub inode : FileInode
  pub disk : Disk

-- The disk at `begin_op` in a log without other operations, on which `mkfs` has put `LOGSIZE` = 30
-- blocks, and at `end_op`, which commits.
abbrev pub opened : Disk → Disk
opened d = record { data_of = d.data_of; logged = []; room = 29 }

abbrev pub closed : Disk → Disk
closed d = record { data_of = d.data_of; logged = []; room = 0 }

-- What a transaction leaves. (The console, the only device, writes all bytes.)
abbrev pub ended : FileState → ℕ → Moved ℕ → ℤ × FileState
ended s n failed = (minus_one, s)
ended s n (to_device major) = (pos n, s)
ended s n (moved k ip d) = (pos k, record { inode = ip; disk = closed d })

-- `begin_op`, `writei` and `end_op` for a piece.
unfoldable pub transact : Superblock → (ℕ → Bool) → Writer FileState
transact sb has_write s off bs =
    writei sb has_write s.inode off bs (opened s.disk) >>= λ r. done (ended s (length bs) r)

-- What `filewrite` of `n` bytes at `off` needs: the file laid out right, no device, the offset not behind
-- its end, the end of the bytes not beyond `MAXFILE` blocks, and enough free blocks.
pub record IsWritable (sb : Superblock) (off n : ℕ) (s : FileState) : Type 0 where
  pub file : IsFile sb s.disk s.inode
  pub no_device : (s.inode.type == t_dev) ≡ false
  pub within : off ≤ s.inode.size
  pub fits : off + n ≤ max_file * block_size
  pub room : 2 * (touched off n + n / write_max + 1) ≤ free_count sb s.disk

module _ (sb : Superblock) (d d' : Disk) (same : d'.data_of ≡ d.data_of) where
  same_used : (c : ℕ) → used sb d' c ≡ used sb d c
  unfolding used
  same_used c = rw same refl

  same_free_count : free_count sb d' ≡ free_count sb d
  same_free_count = free_below_cong sb d d' sb.size (λ c lt. same_used c)

  same_contents : (ip : FileInode) (a : ℕ) → contents d' ip a ≡ contents d ip a
  unfolding contents addr_of
  same_contents ip a = rw same refl

  same_addr_of : (ip : FileInode) (i : ℕ) → addr_of d' ip i ≡ addr_of d ip i
  unfolding addr_of
  same_addr_of ip i = rw same refl

  same_IsOwned : (inum b : ℕ) → IsOwned sb d inum b → IsOwned sb d' inum b
  same_IsOwned inum b o = record {
    in_range = o.in_range;
    in_use = same_used b ∙ o.in_use;
    no_inode = o.no_inode;
    no_bitmap = o.no_bitmap;
  }

  same_IsFile : (ip : FileInode) → IsFile sb d ip → IsFile sb d' ip
  same_IsFile ip f = record {
    formatted = record {
      words = f.formatted.words;
      in_range = f.formatted.in_range;
      bitmap = λ c lt. same_used _ ∙ f.formatted.bitmap c lt;
      inode_range = f.formatted.inode_range;
      inode = same_used _ ∙ f.formatted.inode;
      no_bitmap = f.formatted.no_bitmap;
      boot = same_used 0 ∙ f.formatted.boot;
    };
    indirect = λ ne. same_IsOwned ip.inum (ip.addrs ndirect) (f.indirect ne);
    owned = λ i lt.
        rw (same_addr_of ip i) (λ ne. same_IsOwned ip.inum (addr_of d ip i) (f.owned i lt ne));
    apart = λ i j lt lt'. rw (same_addr_of ip i, same_addr_of ip j) (f.apart i j lt lt');
    apart_indirect = λ i lt. rw (same_addr_of ip i) (f.apart_indirect i lt);
  }

-- The blocks of a piece and of those behind it.
piece_blocks :
    (off k m : ℕ)
    → piece_size (k + m) ≡ k
    → touched off k + touched (off + k) m + m / write_max
      ≤ touched off (k + m) + (k + m) / write_max
unfolding piece_size
piece_blocks off k m e = ground arith

small_piece : (off k : ℕ) → k ≤ write_max → touched off k ≤ 4
small_piece off k le = ground arith

piece_within : (off k m : ℕ) → touched off k ≤ touched off (k + m)
piece_within off k m = ground arith

pub transact-Written :
    (sb : Superblock) (has_write : ℕ → Bool) (off m : ℕ) (bs : List ℕ) (s : FileState)
    → piece_size (length bs + m) ≡ length bs
    → length bs ≤ write_max
    → IsWritable sb off (length bs + m) s
    → (s' : FileState) × (transact sb has_write s off bs ≡ done (pos (length bs), s'))
      × ((a : ℕ)
          → a < max_file * block_size
          → contents s'.disk s'.inode a ≡ written (contents s.disk s.inode) off bs a)
      × IsWritable sb (off + length bs) m s'
unfolding transact
transact-Written sb has_write off m bs s size small w =
    let f = same_IsFile sb s.disk (opened s.disk) refl s.inode w.file in
    let free : free_count sb (opened s.disk) ≡ free_count sb s.disk =
      same_free_count sb s.disk (opened s.disk) refl in
    let four : touched off (length bs) ≤ 4 = small_piece off (length bs) small in
    let (past, long, go) =
      writei_lem sb has_write s.inode off bs (opened s.disk) f w.no_device (omega (arith, w.fits))
        (omega (arith, w.room, free, piece_within off (length bs) m)) (omega (arith, four)) in
    let (ip', d', run, h) = go w.within (omega (arith, w.fits)) in
    let size' : ip'.size
        ≡ (if ltb s.inode.size (off + length bs) then off + length bs else s.inode.size) =
      ap (λ (g : FileInode). g.size) h.fields in
    let type : ip'.type ≡ s.inode.type = ap (λ (g : FileInode). g.type) h.fields in
    (
      record { inode = ip'; disk = closed d' },
      rw (transact, run) refl,
      λ a lt.
          same_contents sb d' (closed d') refl ip' a
          ∙ h.bytes a lt
          ∙ written_cong (contents (opened s.disk) s.inode) (contents s.disk s.inode) off bs a
              (same_contents sb s.disk (opened s.disk) refl s.inode a),
      record {
        file = same_IsFile sb d' (closed d') refl ip' h.file;
        no_device = rw type w.no_device;
        within = ground (arith, size');
        fits = omega (arith, w.fits);
        room =
            let free' : free_count sb (closed d') ≡ free_count sb d' =
              same_free_count sb d' (closed d') refl in
            omega (arith, w.room, free, free', h.few, piece_blocks off (length bs) m size);
      },
    )

-- ===== src/Contents/Write.antt =====
-- `writei` writes the contents of the file.
use bf_scheduler.Common.{
  ℕ, ◌+◌, ◌*◌, ◌/◌, ◌%◌, ◌^◌, ◌≤◌, ◌<◌, ◌≡◌, refl, arith, Bool, true, false, ◌==◌, ltb, ◌&&◌,
  if◌then◌else◌, inl, inr, Bool-cases, ap, ◌∙◌, List, length, Outcome, done, panicked,
  out_of_bounds, out_of_fuel, ◌>>=◌,
}
use bf_scheduler.Files.Write.{written}
use bf_scheduler.Blocks.{Superblock, Disk, block_size}
use bf_scheduler.Blocks.Count.{free_count}
use bf_scheduler.Contents.{
  FileInode, max_file, inode_block, write_blocks, t_dev, failed, moved, iupdate, grow_size, writei,
  log_checked,
}
use bf_scheduler.Contents.Layout.{addr_of, contents, IsFile}
use bf_scheduler.Contents.Put.{put_block-free_count, put_block-IsFile, put_block-contents}
use bf_scheduler.Contents.Bytes.{Wrote}
use bf_scheduler.Contents.Read.{touched}
use bf_scheduler.Contents.Calls.{
  Calls, Within, ends, in_triple, Calls-refl, Calls-trans, write_blocks-Within, log_checked-room,
}
use bf_scheduler.Contents.Round.{WriteOut, write_out, write_blocks-WriteOut}

-- `iupdate` leaves the layout and the contents.
module _ {sb : Superblock} {d : Disk} {ip : FileInode} (f : IsFile sb d ip) where
  iupdate-IsFile : IsFile sb (iupdate sb ip d) ip
  unfolding iupdate
  iupdate-IsFile =
      put_block-IsFile (inode_block sb ip.inum) _ f f.formatted.no_bitmap
        (λ ne. (f.indirect ne).no_inode)

  iupdate-contents :
      (a : ℕ) → a < max_file * block_size → contents (iupdate sb ip d) ip a ≡ contents d ip a
  unfolding iupdate
  iupdate-contents a lt =
      put_block-contents (inode_block sb ip.inum) _ f f.formatted.no_bitmap
        (λ ne. (f.indirect ne).no_inode) a
        (λ ne. (f.owned (a / block_size) (omega arith) ne).no_inode)

  iupdate-free_count : free_count sb (iupdate sb ip d) ≡ free_count sb d
  unfolding iupdate
  iupdate-free_count = put_block-free_count sb d (inode_block sb ip.inum) _ f.formatted.no_bitmap

abbrev with_size : FileInode → ℕ → FileInode
with_size ip n = record ip { size = n }

with_size-IsFile :
    (sb : Superblock) (d : Disk) (ip : FileInode) (n : ℕ)
    → IsFile sb d ip
    → IsFile sb d (with_size ip n)
unfolding addr_of
with_size-IsFile sb d ip n f = record {
  formatted = f.formatted;
  indirect = f.indirect;
  owned = f.owned;
  apart = f.apart;
  apart_indirect = f.apart_indirect;
}

with_size-contents :
    (d : Disk) (ip : FileInode) (n a : ℕ) → contents d (with_size ip n) a ≡ contents d ip a
unfolding contents addr_of
with_size-contents d ip n a = refl

-- The file after `writei` of the bytes `src`.
pub record Written (sb : Superblock) (d : Disk) (ip : FileInode) (off : ℕ) (src : List ℕ)
    (d' : Disk) (ip' : FileInode) : Type 0 where
  pub file : IsFile sb d' ip'
  pub bytes :
      (a : ℕ) → a < max_file * block_size → contents d' ip' a ≡ written (contents d ip) off src a
  pub fields : ip' ≡ record ip {
    addrs = ip'.addrs;
    size = if ltb ip.size (off + length src) then off + length src else ip.size;
  }
  pub few : free_count sb d ≤ free_count sb d' + 2 * touched off (length src)
  pub stored : ip.size < off + length src → (d'' : Disk) × (d' ≡ iupdate sb ip' d'')

grow_size-Written :
    (sb : Superblock) (d d' : Disk) (ip ip' : FileInode) (off : ℕ) (src : List ℕ)
    → off ≤ ip.size
    → free_count sb d ≤ free_count sb d' + 2 * touched off (length src)
    → Wrote sb d ip off src d' ip'
    → (ip'' : FileInode) × (d'' : Disk) × (grow_size sb (length src) ip' (off + length src) d'
        ≡ moved (length src) ip'' d'')
      × Written sb d ip off src d'' ip''
      × Calls 1 d' d''
unfolding iupdate
grow_size-Written sb d d' ip ip' off src le few w =
    let size : ip'.size ≡ ip.size = ap (λ (g : FileInode). g.size) w.fields in
    elim (Bool-cases (ltb ip.size (off + length src))) [
      | inl longer ↦
          let g : FileInode = with_size ip' (off + length src) in
          let more : (ltb 0 (length src) && ltb ip'.size (off + length src)) ≡ true =
            ground (arith, size) in
          let f = with_size-IsFile sb d' ip' (off + length src) w.file in
          (
            g,
            iupdate sb g d',
            rw more refl,
            record {
              file = iupdate-IsFile f;
              bytes = λ a lt.
                  iupdate-contents f a lt
                  ∙ with_size-contents d' ip' (off + length src) a
                  ∙ w.bytes a lt;
              fields = rw longer (ap (λ (h : FileInode). with_size h (off + length src)) w.fields);
              few = omega (arith, few, iupdate-free_count f);
              stored = λ lt. (d', refl);
            },
            record { room = refl; few = omega arith },
          )
      | inr within ↦
          let less : (ltb 0 (length src) && ltb ip'.size (off + length src)) ≡ false =
            ground (arith, size) in
          (
            ip',
            d',
            rw less refl,
            record {
              file = w.file;
              bytes = w.bytes;
              fields = rw within w.fields;
              few = few;
              stored = λ lt. ground arith;
            },
            Calls-refl 1 d',
          )
    ]

Written-WriteOut :
    {sb : Superblock} {d : Disk} {ip : FileInode} {off n : ℕ} {src : List ℕ}
    (r : Outcome (ℕ × FileInode × Disk))
    → off ≤ ip.size
    → length d.logged + (n + 1) ≤ d.room
    → Within in_triple n d r
    → WriteOut sb d ip off src r
    → (ip' : FileInode) × (d' : Disk) × ((r >>= λ (off', ip'', d'').
          log_checked d (grow_size sb (length src) ip'' off' d''))
        ≡ done (moved (length src) ip' d'))
      × Written sb d ip off src d' ip'
Written-WriteOut panicked le room c w = elim w [ ]
Written-WriteOut out_of_bounds le room c w = elim w [ ]
Written-WriteOut out_of_fuel le room c w = elim w [ ]
Written-WriteOut {sb} {d} {ip} {off} {n} {src} (done r) le room (ends x c)
      (write_out ip' d' w few) =
    let (ip'', d'', e, h, c') = grow_size-Written sb d d' ip ip' off src le few w in
    (
      ip'',
      d'',
      ap (log_checked d) e ∙ log_checked-room (length src) ip'' d'' (Calls-trans c c') room,
      h,
    )

-- `writei` to an inode that is no device and is laid out right, of bytes whose end is below 2^32: from
-- behind the end of the file, and beyond `MAXFILE` blocks, it fails. Otherwise, with two free blocks on
-- the disk for each block that the bytes touch, and room in the log of the open transaction for six
-- calls of `log_write` for each of them and one more, it ends, no `log_write` panics, and it returns the
-- number of bytes. They stand in
-- the file in order from the offset on and all else is as before, the layout is still right, and the
-- size is the larger of the old size and the end of the bytes; a file that grew is on the disk.
pub writei_lem :
    (sb : Superblock) (has_write : ℕ → Bool) (ip : FileInode) (off : ℕ) (src : List ℕ) (d : Disk)
    → IsFile sb d ip
    → (ip.type == t_dev) ≡ false
    → off + length src < 2 ^ 32
    → 2 * touched off (length src) ≤ free_count sb d
    → length d.logged + (6 * touched off (length src) + 1) ≤ d.room
    → (ip.size < off → writei sb has_write ip off src d ≡ done failed)
      × (max_file * block_size < off + length src → writei sb has_write ip off src d ≡ done failed)
      × (off ≤ ip.size
          → off + length src ≤ max_file * block_size
          → (ip' : FileInode) × (d' : Disk) × (writei sb has_write ip off src d
              ≡ done (moved (length src) ip' d'))
            × Written sb d ip off src d' ip')
unfolding writei
writei_lem sb has_write ip off src d f file room free logs =
    let e : (off + length src) % 2 ^ 32 ≡ off + length src = omega arith in
    let no_wrap : ltb (off + length src) off ≡ false = ground arith in
    (
      λ past. ground (arith, file, e),
      λ long. ground (arith, file, e, no_wrap),
      λ inside fits.
          let start : ltb ip.size off ≡ false = ground arith in
          let short : ltb (max_file * block_size) (off + length src) ≡ false = ground arith in
          let (ip', d', run, h) =
            Written-WriteOut (write_blocks sb (length src) ip off src d) inside logs
              (write_blocks-Within sb (length src) ip off src d)
              (write_blocks-WriteOut sb (length src) ip off src d f fits free (omega arith)) in
          let open_up : writei sb has_write ip off src d ≡ (
              write_blocks sb (length src) ip off src d >>= λ (off', ip'', d'').
              log_checked d (grow_size sb (length src) ip'' off' d'')) =
            rw (writei, e, file, start, no_wrap, short) refl in
          (ip', d', open_up ∙ run, h),
    )

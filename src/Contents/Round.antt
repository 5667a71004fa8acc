-- ===== src/Contents/Round.antt =====
-- The loop of `writei`.
use bf_scheduler.Common.{
  ℕ, zero, suc, ◌+◌, ◌-◌, ◌*◌, ◌/◌, ◌%◌, ◌≤◌, ◌<◌, ◌≡◌, refl, arith, ap, ◌∙◌, List, [], ◌∷◌, length,
  Outcome, done, panicked, out_of_bounds, out_of_fuel, ◌>>=◌,
}
use mathlib.Core.Path.{subst}
use bf_scheduler.Files.{take, drop}
use bf_scheduler.Files.Write.{written, length-take, length-drop, written_cong, written_pieces}
use bf_scheduler.Blocks.{Superblock, Disk, block_size, put_block}
use bf_scheduler.Blocks.Count.{free_count, scarce_count}
use bf_scheduler.Contents.{FileInode, max_file, bmap, put_bytes, chunk, write_blocks}
use bf_scheduler.Contents.Layout.{contents, IsFile}
use bf_scheduler.Contents.Bytes.{Wrote, with_bytes-Wrote, with_bytes-free_count}
use bf_scheduler.Contents.Grow.{Mapped}
use bf_scheduler.Contents.Locate.{IsScarce, Located, no_room, located, bmap-Located}
use bf_scheduler.Contents.Read.{touched, chunk_bounds}

-- Finding the block, writing it, and the bytes behind it.
Wrote-trans :
    {sb : Superblock} {d d' d'' d3 : Disk} {ip ip' ip'' : FileInode} (off k : ℕ) (bs : List ℕ)
    → k ≤ length bs
    → Mapped sb d ip d' ip'
    → Wrote sb d' ip' off (take k bs) d'' ip'
    → Wrote sb d'' ip' (off + k) (drop k bs) d3 ip''
    → Wrote sb d ip off bs d3 ip''
Wrote-trans {d} {d'} {d''} {ip} {ip'} {ip''} off k bs le m w w' = record {
  file = w'.file;
  bytes = λ a lt.
      w'.bytes a lt
      ∙ written_cong (contents d'' ip') (written (contents d ip) off (take k bs)) (off + k)
          (drop k bs) a
          (w.bytes a lt
            ∙ written_cong (contents d' ip') (contents d ip) off (take k bs) a (m.same a lt))
      ∙ written_pieces (contents d ip) k off bs a le;
  fields = w'.fields ∙ ap (λ (g : FileInode). record g { addrs = ip''.addrs }) m.fields;
}

-- What writing the bytes `src` at `off` returns.
pub data WriteOut (sb : Superblock) (d : Disk) (ip : FileInode) (off : ℕ) (src : List ℕ)
    : Outcome (ℕ × FileInode × Disk) → Type 0 where
  write_out :
      (ip' : FileInode) (d' : Disk)
      → Wrote sb d ip off src d' ip'
      → free_count sb d ≤ free_count sb d' + 2 * touched off (length src)
      → WriteOut sb d ip off src (done (off + length src, ip', d'))

after_bytes :
    {sb : Superblock} {d d' d'' : Disk} {ip ip' : FileInode} (off k : ℕ) (src : List ℕ)
    (r : Outcome (ℕ × FileInode × Disk))
    → k ≤ length src
    → touched off (length src) ≡ suc (touched (off + k) (length src - k))
    → free_count sb d ≤ free_count sb d'' + 2
    → Mapped sb d ip d' ip'
    → Wrote sb d' ip' off (take k src) d'' ip'
    → WriteOut sb d'' ip' (off + k) (drop k src) r
    → WriteOut sb d ip off src r
after_bytes off k src panicked le one few m w x = elim x [ ]
after_bytes off k src out_of_bounds le one few m w x = elim x [ ]
after_bytes off k src out_of_fuel le one few m w x = elim x [ ]
after_bytes {sb} {d} {ip} off k src (done r) le one few m w (write_out ip'' d3 w' few') =
    let left = length-drop k src in
    let same : touched (off + k) (length (drop k src)) ≡ touched (off + k) (length src - k) =
      ap (touched (off + k)) left in
    let e : off + k + length (drop k src) ≡ off + length src = omega (arith, length-drop k src) in
    rw e (write_out ip'' d3 (Wrote-trans off k src le m w w') (omega (arith, one, few, few', same)))

-- A round of the loop, by what `bmap` returns.
write_piece :
    {sb : Superblock} {d : Disk} {ip : FileInode} (fuel off k : ℕ) (src : List ℕ)
    (r : Outcome (ℕ × FileInode × Disk))
    → off / block_size < max_file
    → k ≤ length src
    → off % block_size + k ≤ block_size
    → touched off (length src) ≡ suc (touched (off + k) (length src - k))
    → 2 ≤ free_count sb d
    → ((d' : Disk) (ip' : FileInode)
        → IsFile sb d' ip'
        → free_count sb d ≤ free_count sb d' + 2
        → WriteOut sb d' ip'
            (off + k)
            (drop k src)
            (write_blocks sb fuel ip' (off + k) (drop k src) d'))
    → Located (IsScarce sb d) 2 sb d ip (off / block_size) r
    → WriteOut sb d ip off src (
        r >>= λ (a, ip', d').
        write_blocks sb fuel ip'
          (off + k)
          (drop k src)
          (put_block d' a (put_bytes (d'.data_of a) (off % block_size) (take k src))))
write_piece {sb} {d} fuel off k src panicked lt le inside one room ih (no_room (b, all)) =
    ground (arith, scarce_count sb d b all)
write_piece fuel off k src out_of_bounds lt le inside one room ih l = elim l [ ]
write_piece fuel off k src out_of_fuel lt le inside one room ih l = elim l [ ]
write_piece fuel off k src (done r) lt le inside one room ih (located b ip' d' m at ne few) =
    let len : length (take k src) ≡ k = length-take k src le in
    let fits : off % block_size + length (take k src) ≤ block_size = omega (arith, len) in
    let w = with_bytes-Wrote m.file off b (take k src) lt at ne fits in
    let same = with_bytes-free_count m.file off b (take k src) lt at ne fits in
    after_bytes off k src _ le one (omega (arith, same, few)) m w
      (ih _ ip' w.file (omega (arith, same)))

pub write_blocks-WriteOut :
    (sb : Superblock) (fuel : ℕ) (ip : FileInode) (off : ℕ) (src : List ℕ) (d : Disk)
    → IsFile sb d ip
    → off + length src ≤ max_file * block_size
    → 2 * touched off (length src) ≤ free_count sb d
    → length src ≤ fuel
    → WriteOut sb d ip off src (write_blocks sb fuel ip off src d)
unfolding write_blocks
write_blocks-WriteOut sb fuel ip off [] d f fits room enough =
    let e : off + 0 ≡ off = omega arith in
    subst (λ (o : ℕ). WriteOut sb d ip off [] (done (o, ip, d))) e
      (write_out ip d (record { file = f; bytes = λ a lt. refl; fields = refl }) (omega arith))
write_blocks-WriteOut sb zero ip off (x ∷ src) d f fits room enough = ground arith
write_blocks-WriteOut sb (suc fuel) ip off (x ∷ src) d f fits room enough =
    let n : ℕ = length (x ∷ src) in
    let k : ℕ = chunk off n in
    let (positive, le, inside, one) = chunk_bounds off n (omega arith) in
    let left = length-drop k (x ∷ src) in
    write_piece fuel off k (x ∷ src) (bmap sb ip (off / block_size) d) (omega arith) le inside one
      (omega (arith, one))
      (λ d' ip' f' few.
        write_blocks-WriteOut sb fuel ip' (off + k) (drop k (x ∷ src)) d' f' (omega (arith, left))
          (ground (arith, left, one)) (omega (arith, left)))
      (bmap-Located sb d ip (off / block_size) f (omega arith))

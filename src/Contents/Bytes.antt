-- ===== src/Contents/Bytes.antt =====
-- Bytes written to a block of the file are written to its contents.
use bf_scheduler.Common.{
  ℕ, ◌+◌, ◌*◌, ◌/◌, ◌%◌, ◌≤◌, ◌<◌, ◌≡◌, refl, arith, false, ◌==◌, ltb, inl, inr, Bool-cases, sym,
  ap, ◌∙◌, update, update_self, List, [], ◌∷◌, length,
}
use bf_scheduler.Strings.{Memory}
use bf_scheduler.Files.Write.{written, written_before, written_cong}
use bf_scheduler.Blocks.{Superblock, Disk, block_size, put_block}
use bf_scheduler.Blocks.Count.{free_count}
use bf_scheduler.Contents.{FileInode, ndirect, max_file, put_bytes}
use bf_scheduler.Contents.Layout.{addr_of, contents, IsOwned, IsFile}
use bf_scheduler.Contents.Put.{
  put_block-free_count, put_block-addr_of, put_block-IsFile, put_block-contents,
}

pub written_after :
    (g : ℕ → ℕ) (off : ℕ) (bs : List ℕ) (a : ℕ) → off + length bs ≤ a → written g off bs a ≡ g a
written_after g off [] a le = refl
written_after g off (b ∷ bs) a le = ground (arith, written_after g (off + 1) bs a)

-- The bytes written at another place.
written_shift :
    (f g : ℕ → ℕ) (o off : ℕ) (bs : List ℕ) (i base : ℕ)
    → off ≡ base + o
    → f i ≡ g (base + i)
    → written f o bs i ≡ written g off bs (base + i)
written_shift f g o off [] i base e same = same
written_shift f g o off (b ∷ bs) i base e same =
    ground (arith, written_shift f g (o + 1) (off + 1) bs i base)

pub put_bytes-written :
    (m : Memory) (o : ℕ) (bs : List ℕ) (i : ℕ) → put_bytes m o bs i ≡ written m o bs i
put_bytes-written m o [] i = refl
put_bytes-written m o (b ∷ bs) i =
    put_bytes-written (update m o b) (o + 1) bs i ∙ elim (Bool-cases (i == o)) [
      | inl at ↦ written_before (update m o b) (o + 1) bs i (ground arith) ∙ ground arith
      | inr ne ↦ written_cong (update m o b) m (o + 1) bs i (ground arith) ∙ ground arith
    ]

-- What a step does that writes the bytes `bs` from offset `off` on.
pub record Wrote (sb : Superblock) (d : Disk) (ip : FileInode) (off : ℕ) (bs : List ℕ) (d' : Disk)
    (ip' : FileInode) : Type 0 where
  pub file : IsFile sb d' ip'
  pub bytes :
      (a : ℕ) → a < max_file * block_size → contents d' ip' a ≡ written (contents d ip) off bs a
  pub fields : ip' ≡ record ip { addrs = ip'.addrs }

-- A byte of a block that is there.
contents_at :
    (d : Disk) (ip : FileInode) (a b : ℕ)
    → addr_of d ip (a / block_size) ≡ b
    → (b == 0) ≡ false
    → contents d ip a ≡ d.data_of b (a % block_size)
unfolding contents
contents_at d ip a b at ne = rw (at, ne) refl

-- The bytes `bs` in the block that holds the offset `off`.
module _ {sb : Superblock} {d : Disk} {ip : FileInode} (f : IsFile sb d ip) (off b : ℕ)
    (bs : List ℕ) (lt : off / block_size < max_file) (at : addr_of d ip (off / block_size) ≡ b)
    (there : (b == 0) ≡ false) (fits : off % block_size + length bs ≤ block_size) where
  abbrev with_bytes : Disk
  with_bytes = put_block d b (put_bytes (d.data_of b) (off % block_size) bs)

  owner : IsOwned sb d ip.inum b
  owner = rw (sym at) (f.owned (off / block_size) lt (rw at there))

  no_indirect : (ip.addrs ndirect == 0) ≡ false → (ip.addrs ndirect == b) ≡ false
  no_indirect ne = ground (arith, at, there, f.apart_indirect (off / block_size) lt)

  outside :
      (a : ℕ)
      → (a / block_size == off / block_size) ≡ false
      → written (contents d ip) off bs a ≡ contents d ip a
  outside a away = elim (Bool-cases (ltb a off)) [
    | inl before ↦ written_before (contents d ip) off bs a (ground arith)
    | inr behind ↦
        let le : off ≤ a = ground arith in
        let other : off / block_size < a / block_size = ground arith in
        written_after (contents d ip) off bs a (omega arith)
  ]

  with_bytes-contents :
      (a : ℕ)
      → a < max_file * block_size
      → contents with_bytes ip a ≡ written (contents d ip) off bs a
  with_bytes-contents a al = elim (Bool-cases (a / block_size == off / block_size)) [
    | inl here ↦
        let blk : a / block_size ≡ off / block_size = ground arith in
        let was : addr_of d ip (a / block_size) ≡ b = ap (addr_of d ip) blk ∙ at in
        let same : addr_of with_bytes ip (a / block_size) ≡ b =
          put_block-addr_of b (put_bytes (d.data_of b) (off % block_size) bs) f owner.no_bitmap
            no_indirect (a / block_size)
          ∙ was in
        let base : ℕ = off / block_size * block_size in
        let e : a ≡ base + a % block_size = omega (arith, blk) in
        contents_at with_bytes ip a b same there
        ∙ ap (λ (g : Memory). g (a % block_size))
            (update_self d.data_of b (put_bytes (d.data_of b) (off % block_size) bs))
        ∙ put_bytes-written (d.data_of b) (off % block_size) bs (a % block_size)
        ∙ written_shift (d.data_of b) (contents d ip) (off % block_size) off bs (a % block_size)
            base (omega arith) (sym (contents_at d ip a b was there) ∙ ap (contents d ip) e)
        ∙ ap (written (contents d ip) off bs) (sym e)
    | inr away ↦
        put_block-contents b (put_bytes (d.data_of b) (off % block_size) bs) f owner.no_bitmap
          no_indirect a
          (λ ne. rw (sym at) (f.apart (a / block_size) (off / block_size) (omega arith) lt away ne))
        ∙ sym (outside a away)
  ]

  pub with_bytes-Wrote : Wrote sb d ip off bs with_bytes ip
  with_bytes-Wrote = record {
    file =
        put_block-IsFile b (put_bytes (d.data_of b) (off % block_size) bs) f owner.no_bitmap
          no_indirect;
    bytes = with_bytes-contents;
    fields = refl;
  }

  pub with_bytes-free_count : free_count sb with_bytes ≡ free_count sb d
  with_bytes-free_count =
      put_block-free_count sb d b (put_bytes (d.data_of b) (off % block_size) bs) owner.no_bitmap

-- ===== src/Contents/Read.antt =====
-- `readi` reads the contents of the file.
use bf_scheduler.Common.{
  ℕ, zero, suc, ◌+◌, ◌-◌, ◌*◌, ◌/◌, ◌%◌, ◌^◌, ◌≤◌, ◌<◌, ◌≡◌, refl, arith, Bool, false, ◌==◌, ltb,
  if◌then◌else◌, ap, ◌∙◌, List, ◌∷◌, ◌++◌, length, true, inl, inr, Bool-cases, done,
}
use bf_scheduler.Pages.{load_word}
use bf_scheduler.Strings.{Memory}
use bf_scheduler.Blocks.{Superblock, Disk, block_size, calls_fit}
use bf_scheduler.Contents.{
  FileInode, max_file, bmap, bytes_at, chunk, read_blocks, t_dev, failed, moved, readi, log_checked,
  ndirect, nindirect, map_addr, map_entry,
}
use bf_scheduler.Contents.Layout.{addr_of, contents}

-- The number of blocks that the `n` bytes from `off` on touch.
abbrev pub touched : ℕ → ℕ → ℕ
touched off n = if n == 0 then 0 else (off % block_size + n + (block_size - 1)) / block_size

bytes_at-shift :
    (m g : Memory) (o off n : ℕ)
    → ((k : ℕ) → k < n → m (o + k) ≡ g (off + k))
    → bytes_at m o n ≡ bytes_at g off n
bytes_at-shift m g o off zero h = refl
bytes_at-shift m g o off (suc n) h =
    let first : m o ≡ g off = ap m (omega arith) ∙ h 0 (omega arith) ∙ ap g (omega arith) in
    let rest =
      bytes_at-shift m g (o + 1) (off + 1) n
        (λ k lt. ap m (omega arith) ∙ h (suc k) (omega arith) ∙ ap g (omega arith)) in
    ground (arith, first, rest)

pub bytes_at-append :
    (g : Memory) (off m n : ℕ) → bytes_at g off m ++ bytes_at g (off + m) n ≡ bytes_at g off (m + n)
bytes_at-append g off zero n =
    let e : off + 0 ≡ off = omega arith in let e' : 0 + n ≡ n = omega arith in rw (e, e') refl
bytes_at-append g off (suc m) n =
    let e : off + suc m ≡ off + 1 + m = omega arith in
    let e' : suc m + n ≡ suc (m + n) = omega arith in
    rw (e, e') (ap (◌∷◌ (g off)) (bytes_at-append g (off + 1) m n))

-- The bytes of one block are bytes of the file.
pub block-contents :
    (d : Disk) (ip : FileInode) (b off m : ℕ)
    → addr_of d ip (off / block_size) ≡ b
    → (b == 0) ≡ false
    → off % block_size + m ≤ block_size
    → bytes_at (d.data_of b) (off % block_size) m ≡ bytes_at (contents d ip) off m
unfolding contents
block-contents d ip b off m at ne fits =
    bytes_at-shift (d.data_of b) (contents d ip) (off % block_size) off m (λ k lt.
      let e : (off + k) / block_size ≡ off / block_size = omega arith in
      let e' : (off + k) % block_size ≡ off % block_size + k = omega arith in
      rw (e, e', at, ne) refl)

-- A piece ends at the end of its block, or with the bytes.
pub chunk_bounds :
    (off n : ℕ)
    → 0 < n
    → (0 < chunk off n)
      × (chunk off n ≤ n)
      × (off % block_size + chunk off n ≤ block_size)
      × (touched off n ≡ suc (touched (off + chunk off n) (n - chunk off n)))
unfolding chunk
chunk_bounds off n pos = ground arith

-- Each block of the file is there.
abbrev pub IsWhole : Disk → FileInode → Type 0
IsWhole d ip = (a : ℕ) → a < ip.size → (addr_of d ip (a / block_size) == 0) ≡ false

bmap-addr_of :
    (sb : Superblock) (d : Disk) (ip : FileInode) (bn : ℕ)
    → bn < max_file
    → (addr_of d ip bn == 0) ≡ false
    → bmap sb ip bn d ≡ done (addr_of d ip bn, ip, d)
unfolding bmap map_addr map_entry addr_of
bmap-addr_of sb d ip bn lt there = elim (Bool-cases (ltb bn ndirect)) [
  | inl near ↦
      let there' : (ip.addrs bn == 0) ≡ false = ground (arith, there, near) in
      rw (bmap, near, there') refl
  | inr far ↦
      let pointer : (ip.addrs ndirect == 0) ≡ false = ground (arith, there, far) in
      let word : (load_word (d.data_of (ip.addrs ndirect)) (4 * (bn - ndirect)) == 0) ≡ false =
        ground (arith, there, far, pointer) in
      let within : ltb (bn - ndirect) nindirect ≡ true = ground arith in
      rw (bmap, far, within, pointer, word) refl
]

read_blocks-contents :
    (sb : Superblock) (fuel : ℕ) (ip : FileInode) (off n : ℕ) (d : Disk)
    → ((a : ℕ) → off ≤ a → a < off + n → (addr_of d ip (a / block_size) == 0) ≡ false)
    → off + n ≤ max_file * block_size
    → n ≤ fuel
    → read_blocks sb fuel ip off n d ≡ done (bytes_at (contents d ip) off n, ip, d)
unfolding read_blocks
read_blocks-contents sb zero ip off zero d whole fits enough = refl
read_blocks-contents sb (suc fuel) ip off zero d whole fits enough = refl
read_blocks-contents sb zero ip off (suc n) d whole fits enough = ground arith
read_blocks-contents sb (suc fuel) ip off (suc n) d whole fits enough =
    let k : ℕ = chunk off (suc n) in
    let (positive, le, inside, one) = chunk_bounds off (suc n) (omega arith) in
    let more : (suc n == 0) ≡ false = ground arith in
    let there = whole off (omega arith) (omega arith) in
    let rest =
      read_blocks-contents sb fuel ip (off + k) (suc n - k) d
        (λ a lo hi. whole a (omega arith) (omega arith)) (omega arith) (omega arith) in
    let all : k + (suc n - k) ≡ suc n = omega arith in
    let bytes : bytes_at (d.data_of (addr_of d ip (off / block_size))) (off % block_size) k
          ++ bytes_at (contents d ip) (off + k) (suc n - k)
        ≡ bytes_at (contents d ip) off (suc n) =
      ap (λ (bs : List ℕ). bs ++ bytes_at (contents d ip) (off + k) (suc n - k))
        (block-contents d ip (addr_of d ip (off / block_size)) off k refl there inside)
      ∙ bytes_at-append (contents d ip) off k (suc n - k)
      ∙ ap (bytes_at (contents d ip) off) all in
    rw (read_blocks, more, bmap-addr_of sb d ip (off / block_size) (omega arith) there, rest)
      (ap (λ (bs : List ℕ). done (bs, ip, d)) bytes)

-- The bytes that `readi` returns: `n`, or those up to the end of the file.
abbrev pub in_file : FileInode → ℕ → ℕ → ℕ
in_file ip off n = if ltb ip.size (off + n) then ip.size - off else n

log_checked-same {ℓ} :
    {A : Type ℓ} (d : Disk) (x : A) (ip : FileInode)
    → log_checked d (moved x ip d) ≡ done (moved x ip d)
unfolding log_checked calls_fit
log_checked-same d x ip = let e : length d.logged - length d.logged ≡ 0 = omega arith in rw e refl

-- `readi` of an inode that is no device and has at most `MAXFILE` blocks, all of them there, for `n`
-- bytes whose end is below 2^32: behind the end of the file it fails. Otherwise it ends and returns the
-- bytes of the file from the offset on, `n` of them or those up to the end of the file. It leaves the
-- inode and the disk as they are and does not call `log_write`, so it needs no transaction.
pub readi_lem :
    (sb : Superblock) (has_read : ℕ → Bool) (ip : FileInode) (off n : ℕ) (d : Disk)
    → IsWhole d ip
    → (ip.type == t_dev) ≡ false
    → ip.size ≤ max_file * block_size
    → off + n < 2 ^ 32
    → (ip.size < off → readi sb has_read ip off n d ≡ done failed)
      × (off ≤ ip.size
          → readi sb has_read ip off n d
            ≡ done (moved (bytes_at (contents d ip) off (in_file ip off n)) ip d))
unfolding readi
readi_lem sb has_read ip off n d whole file small room =
    let e : (off + n) % 2 ^ 32 ≡ off + n = omega arith in
    (
      λ past. ground (arith, file, e),
      λ inside.
          let start : ltb ip.size off ≡ false = ground arith in
          let no_wrap : ltb (off + n) off ≡ false = ground arith in
          let n' : ℕ = in_file ip off n in
          let end : off + n' ≤ ip.size = ground arith in
          let run =
            read_blocks-contents sb n' ip off n' d (λ a lo hi. whole a (omega (arith, end)))
              (omega (arith, end)) (omega arith) in
          rw (readi, e, file, start, no_wrap, run)
            (log_checked-same d (bytes_at (contents d ip) off n') ip),
    )

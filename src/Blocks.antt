-- ===== src/Blocks.antt =====
-- fs.c: the bitmap of free disk blocks. A block is the sequence of its bytes, as the buffer cache holds
-- it; `logged` are the blocks of the calls of `log_write` in the open transaction, the last one first,
-- and `room` is the number of blocks from which on `log_write` panics: the smaller of `LOGSIZE` and
-- `log.size - 1`, and 0 outside a transaction.
pub mod Bits
pub mod Alloc
pub mod Count
use bf_scheduler.Common.{
  ℕ, zero, suc, ◌+◌, ◌-◌, ◌*◌, ◌/◌, ◌%◌, Bool, true, false, Option, none, some, not, ◌==◌, ltb,
  if◌then◌else◌, update, List, [], ◌∷◌, length, has, ◌&&◌, Outcome, done, panicked, out_of_fuel,
}
use bf_scheduler.Strings.{Memory, memset}

-- `BSIZE`, and `BPB`, the bits in a block.
abbrev pub block_size : ℕ
block_size = 512

abbrev pub bits_per_block : ℕ
bits_per_block = block_size * 8

-- The fields of `struct superblock` that this code reads.
pub record Superblock : Type 0 where
  pub size : ℕ
  pub bmapstart : ℕ
  pub inodestart : ℕ

pub record Disk : Type 0 where
  pub data_of : ℕ → Memory
  pub logged : List ℕ
  pub room : ℕ

-- A buffer with new contents, and `log_write` of it. Whether the call panics is seen from `logged` when
-- `readi` or `writei` is at its end.
abbrev pub put_block : Disk → ℕ → Memory → Disk
put_block d b m = record { data_of = update d.data_of b m; logged = b ∷ d.logged; room = d.room }

-- The number of blocks in the log after these calls: a block is listed once.
unfoldable pub listed : List ℕ → ℕ
listed [] = 0
listed (b ∷ bs) = let n = listed bs in if has b bs then n else suc n

-- The last `k` calls do not panic: each one finds fewer blocks listed than there is room for.
unfoldable pub calls_fit : ℕ → ℕ → List ℕ → Bool
calls_fit zero room bs = true
calls_fit (suc k) room [] = true
calls_fit (suc k) room (b ∷ bs) = let before = calls_fit k room bs in before && ltb (listed bs) room

-- The calls between two states of the disk do not panic.
abbrev pub log_fits : Disk → Disk → Bool
log_fits d d' = calls_fit (length d'.logged - length d.logged) d'.room d'.logged

-- `x & (1 << k)`, `x | (1 << k)` and `x & ~(1 << k)`, digit by digit.
unfoldable pub bit_of : ℕ → ℕ → Bool
bit_of x zero = x % 2 == 1
bit_of x (suc k) = bit_of (x / 2) k

unfoldable pub with_bit : ℕ → ℕ → ℕ
with_bit x zero = x / 2 * 2 + 1
with_bit x (suc k) = x % 2 + with_bit (x / 2) k * 2

unfoldable pub without_bit : ℕ → ℕ → ℕ
without_bit x zero = x / 2 * 2
without_bit x (suc k) = x % 2 + without_bit (x / 2) k * 2

-- `BBLOCK`
abbrev pub bitmap_block : Superblock → ℕ → ℕ
bitmap_block sb b = b / bits_per_block + sb.bmapstart

-- `bzero`
unfoldable pub zero_block : ℕ → Disk → Disk
zero_block b d = put_block d b (memset 0 0 block_size (d.data_of b))

-- `bp->data[bi/8] |= m;` and `log_write(bp);`
abbrev pub set_bit_in : ℕ → ℕ → Disk → Disk
set_bit_in blk bi d =
    put_block d blk (update (d.data_of blk) (bi / 8) (with_bit (d.data_of blk (bi / 8)) (bi % 8)))

unfoldable pub mark_used : Superblock → ℕ → ℕ → Disk → Disk
mark_used sb b bi d = set_bit_in (bitmap_block sb b) bi d

-- The inner loop of `balloc`, for `n` bits from `bi` on.
unfoldable pub find_bit : ℕ → Memory → ℕ → ℕ → ℕ → Option ℕ
find_bit size m b zero bi = none
find_bit size m b (suc n) bi =
    let rest = find_bit size m b n (suc bi) in
    if not (ltb (b + bi) size) then none else if bit_of (m (bi / 8)) (bi % 8) then rest else some bi

-- The outer loop.
unfoldable pub balloc_from : Superblock → ℕ → ℕ → Disk → Outcome (ℕ × Disk)
balloc_from sb zero b d = out_of_fuel
balloc_from sb (suc fuel) b d =
    let rest = balloc_from sb fuel (b + bits_per_block) d in
    if not (ltb b sb.size)
    then panicked
    else elim (find_bit sb.size (d.data_of (bitmap_block sb b)) b bits_per_block 0) [
      | none ↦ rest
      | some bi ↦ done (b + bi, zero_block (b + bi) (mark_used sb b bi d))
    ]

-- `balloc`
unfoldable pub balloc : Superblock → Disk → Outcome (ℕ × Disk)
balloc sb d = balloc_from sb (suc sb.size) 0 d

-- `bfree`
unfoldable pub bfree : Superblock → ℕ → Disk → Outcome Disk
bfree sb b d =
    let m = d.data_of (bitmap_block sb b) in
    let bi = b % bits_per_block in
    if not (bit_of (m (bi / 8)) (bi % 8))
    then panicked
    else done
        (put_block d (bitmap_block sb b) (update m (bi / 8) (without_bit (m (bi / 8)) (bi % 8))))

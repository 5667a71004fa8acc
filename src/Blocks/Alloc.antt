-- ===== src/Blocks/Alloc.antt =====
-- `balloc` and `bfree` on the set of blocks in use.
use bf_scheduler.Common.{
  ℕ, zero, suc, ◌+◌, ◌-◌, ◌/◌, ◌%◌, ◌≤◌, ◌<◌, ◌≡◌, refl, arith, Bool, true, false, none, some, ◌==◌,
  if◌then◌else◌, update, ◌⊎◌, inl, inr, Bool-cases, ◌∙◌, ap, sym, Outcome, done, panicked, ltb,
}
use mathlib.Core.Path.{ap₂}
use bf_scheduler.Strings.{Memory}
use bf_scheduler.Strings.Move.{memset_lem}
use bf_scheduler.Blocks.{
  Superblock, Disk, block_size, bits_per_block, bit_of, without_bit, bitmap_block, set_bit_in,
  put_block, zero_block, mark_used, find_bit, balloc_from, balloc, bfree,
}
use bf_scheduler.Blocks.Bits.{bit_of-with_bit, bit_of-without_bit}

-- Whether the bitmap has the block in use.
unfoldable pub used : Superblock → Disk → ℕ → Bool
used sb d b =
    bit_of (d.data_of (bitmap_block sb b) (b % bits_per_block / 8)) (b % bits_per_block % 8)

-- The blocks of the bitmap are in use themselves.
abbrev pub IsReserved : Superblock → Disk → Type 0
IsReserved sb d = (b : ℕ) → b < sb.size → used sb d (bitmap_block sb b) ≡ true

find_bit-cases :
    (size : ℕ) (m : Memory) (b n bi : ℕ)
    → ((find_bit size m b n bi ≡ none)
        × ((j : ℕ) → bi ≤ j → j < bi + n → b + j < size → bit_of (m (j / 8)) (j % 8) ≡ true))
      ⊎ ((j : ℕ) × (find_bit size m b n bi ≡ some j)
          × (j < bi + n)
          × (b + j < size)
          × (bit_of (m (j / 8)) (j % 8) ≡ false))
unfolding find_bit
find_bit-cases size m b zero bi = inl (refl, λ j lo hi lt. ground arith)
find_bit-cases size m b (suc n) bi = elim (Bool-cases (ltb (b + bi) size)) [
  | inr out ↦ inl (ground (arith, out), λ j lo hi lt. ground arith)
  | inl here ↦ elim (Bool-cases (bit_of (m (bi / 8)) (bi % 8))) [
    | inr free ↦ inr (bi, ground (arith, here, free), omega arith, ground arith, free)
    | inl taken ↦ elim (find_bit-cases size m b n (suc bi)) [
      | inl (e, all) ↦ inl (
        ground (arith, here, taken, e),
        λ j lo hi lt. elim (Bool-cases (j == bi)) [
          | inl at ↦ (let same : j ≡ bi = ground arith in rw same taken)
          | inr ne ↦ all j (ground arith) (omega arith) lt
        ],
      )
      | inr (j, e, hi, lt, free) ↦ inr (j, ground (arith, here, taken, e), omega arith, lt, free)
    ]
  ]
]

-- What `balloc` returns: a panic with all blocks in use; or a block that was free.
pub record Taken (sb : Superblock) (d : Disk) (b : ℕ) (d' : Disk) : Type 0 where
  pub in_range : b < sb.size
  pub was_free : used sb d b ≡ false
  pub marked : (c : ℕ) → c < sb.size → used sb d' c ≡ (if c == b then true else used sb d c)
  pub zeroed : (i : ℕ) → i < block_size → d'.data_of b i ≡ 0
  pub others :
      (c : ℕ) → (c == b) ≡ false → (c == bitmap_block sb b) ≡ false → d'.data_of c ≡ d.data_of c

pub data Allocation (sb : Superblock) (d : Disk) : Outcome (ℕ × Disk) → Type 0 where
  disk_full : ((c : ℕ) → c < sb.size → used sb d c ≡ true) → Allocation sb d panicked
  allocated : (b : ℕ) (d' : Disk) → Taken sb d b d' → Allocation sb d (done (b, d'))

-- The bit of block `c` written as `t`.
used-put_block :
    (sb : Superblock) (d : Disk) (c v x : ℕ) (t : Bool)
    → ((j : ℕ)
        → bit_of v j ≡ (
            if j == c % bits_per_block % 8
            then t
            else bit_of (d.data_of (bitmap_block sb c) (c % bits_per_block / 8)) j))
    → used sb
        (put_block d
          (bitmap_block sb c)
          (update (d.data_of (bitmap_block sb c)) (c % bits_per_block / 8) v))
        x
      ≡ (if x == c then t else used sb d x)
unfolding used
used-put_block sb d c v x t h = ground (arith, h (x % bits_per_block % 8))

-- The bitmap's address of the block at the bit `bi` from `b` on, a multiple of 4096.
bit_address :
    (sb : Superblock) (b bi : ℕ)
    → b % bits_per_block ≡ 0
    → bi < bits_per_block
    → (bitmap_block sb b ≡ bitmap_block sb (b + bi)) × (bi ≡ (b + bi) % bits_per_block)
bit_address sb b bi al lt = (omega arith, omega arith)

used_at :
    (sb : Superblock) (d : Disk) (b bi : ℕ)
    → b % bits_per_block ≡ 0
    → bi < bits_per_block
    → used sb d (b + bi) ≡ bit_of (d.data_of (bitmap_block sb b) (bi / 8)) (bi % 8)
unfolding used
used_at sb d b bi al lt = ground (arith, bit_address sb b bi al lt)

-- The bit of block `c` set.
abbrev set_at : Superblock → ℕ → Disk → Disk
set_at sb c d = set_bit_in (bitmap_block sb c) (c % bits_per_block) d

mark_used-set_at :
    (sb : Superblock) (d : Disk) (b bi : ℕ)
    → b % bits_per_block ≡ 0
    → bi < bits_per_block
    → mark_used sb b bi d ≡ set_at sb (b + bi) d
unfolding mark_used
mark_used-set_at sb d b bi al lt =
    let (blk, bit) = bit_address sb b bi al lt in ap₂ (λ (x y : ℕ). set_bit_in x y d) blk bit

-- Zeroing a block outside the bitmap changes no bit.
used-zero_block :
    (sb : Superblock) (d : Disk) (b c : ℕ)
    → (b == bitmap_block sb c) ≡ false
    → used sb (zero_block b d) c ≡ used sb d c
unfolding used zero_block
used-zero_block sb d b c ne = ground arith

pub free_ne :
    (sb : Superblock) (d : Disk) (b c : ℕ)
    → used sb d b ≡ false
    → used sb d c ≡ true
    → (b == c) ≡ false
free_ne sb d b c free taken = elim (Bool-cases (b == c)) [
  | inr ne ↦ ne
  | inl at ↦ (let same : b ≡ c = ground arith in ground (arith, ap (used sb d) same))
]

set_at-Taken :
    (sb : Superblock) (d : Disk) (b : ℕ)
    → IsReserved sb d
    → b < sb.size
    → used sb d b ≡ false
    → Taken sb d b (zero_block b (set_at sb b d))
unfolding zero_block
set_at-Taken sb d b res room free = record {
  in_range = room;
  was_free = free;
  marked = λ c lt.
      used-zero_block sb (set_at sb b d) b c (free_ne sb d b (bitmap_block sb c) free (res c lt))
      ∙ used-put_block sb d b _ c true (
          bit_of-with_bit (d.data_of (bitmap_block sb b) (b % bits_per_block / 8))
            (b % bits_per_block % 8));
  zeroed = λ i lt. ground (arith, memset_lem 0 0 block_size ((set_at sb b d).data_of b) i);
  others = λ c ne nb. ground arith;
}

-- The blocks before `b`, and those of its block of the bitmap.
listed :
    (sb : Superblock) (d : Disk) (b : ℕ)
    → b % bits_per_block ≡ 0
    → ((c : ℕ) → c < b → c < sb.size → used sb d c ≡ true)
    → ((j : ℕ)
        → 0 ≤ j
        → j < 0 + bits_per_block
        → b + j < sb.size
        → bit_of (d.data_of (bitmap_block sb b) (j / 8)) (j % 8) ≡ true)
    → (c : ℕ) → c < b + bits_per_block
    → c < sb.size
    → used sb d c ≡ true
listed sb d b al before all c hi lt = elim (Bool-cases (ltb c b)) [
  | inl old ↦ before c (ground arith) lt
  | inr new ↦
      let e : b + (c - b) ≡ c = ground arith in
      ap (used sb d) (sym e)
      ∙ used_at sb d b (c - b) al (ground arith)
      ∙ all (c - b) (omega arith) (ground arith) (ground arith)
]

balloc_from-Allocation :
    (sb : Superblock) (fuel b : ℕ) (d : Disk)
    → IsReserved sb d
    → b % bits_per_block ≡ 0
    → 0 < fuel
    → sb.size < fuel + b
    → ((c : ℕ) → c < b → c < sb.size → used sb d c ≡ true)
    → Allocation sb d (balloc_from sb fuel b d)
unfolding balloc_from
balloc_from-Allocation sb zero b d res al some_left enough before = ground arith
balloc_from-Allocation sb (suc fuel) b d res al some_left enough before =
    elim (Bool-cases (ltb b sb.size)) [
      | inr past ↦ rw past (disk_full (λ c lt. before c (ground arith) lt))
      | inl within ↦
          elim (find_bit-cases sb.size (d.data_of (bitmap_block sb b)) b bits_per_block 0) [
            | inl (e, all) ↦
                rw (balloc_from, within, e)
                  (balloc_from-Allocation sb fuel (b + bits_per_block) d res (omega arith)
                    (ground arith) (omega arith) (listed sb d b al before all))
            | inr (bi, e, hi, lt, free) ↦
                rw (balloc_from, within, e, mark_used-set_at sb d b bi al hi)
                  (allocated (b + bi) _
                    (set_at-Taken sb d (b + bi) res lt (used_at sb d b bi al hi ∙ free)))
          ]
    ]

-- If the blocks of the bitmap are in use, `balloc` ends. It panics only if all blocks are in use.
-- Otherwise it returns a block that was free, now in use and zeroed; no other block becomes used or
-- free, and no block but this one and its block of the bitmap changes.
pub balloc-Allocation :
    (sb : Superblock) (d : Disk) → IsReserved sb d → Allocation sb d (balloc sb d)
unfolding balloc
balloc-Allocation sb d res =
    balloc_from-Allocation sb (suc sb.size) 0 d res (omega arith) (omega arith) (omega arith)
      (λ c lt room. ground arith)

-- What `bfree` does to a block in use.
pub record Released (sb : Superblock) (d : Disk) (b : ℕ) (d' : Disk) : Type 0 where
  pub cleared : (c : ℕ) → used sb d' c ≡ (if c == b then false else used sb d c)
  pub others : (c : ℕ) → (c == bitmap_block sb b) ≡ false → d'.data_of c ≡ d.data_of c

pub bfree-Released :
    (sb : Superblock) (d : Disk) (b : ℕ)
    → used sb d b ≡ true
    → (d' : Disk) × (bfree sb b d ≡ done d') × Released sb d b d'
unfolding bfree used
bfree-Released sb d b taken =
    let m : Memory = d.data_of (bitmap_block sb b) in
    let bi : ℕ = b % bits_per_block in
    (
      put_block d (bitmap_block sb b) (update m (bi / 8) (without_bit (m (bi / 8)) (bi % 8))),
      ground (arith, taken),
      record {
        cleared = λ c. used-put_block sb d b _ c false (bit_of-without_bit (m (bi / 8)) (bi % 8));
        others = λ c ne. ground arith;
      },
    )

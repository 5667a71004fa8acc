-- ===== src/Blocks/Count.antt =====
-- The number of free blocks.
use bf_scheduler.Common.{
  ℕ, zero, suc, ◌+◌, ◌≤◌, ◌<◌, ◌≡◌, arith, true, false, ◌==◌, if◌then◌else◌, ltb,
}
use bf_scheduler.Blocks.{Superblock, Disk}
use bf_scheduler.Blocks.Alloc.{used, Taken}

-- The free ones of the first `n` blocks.
abbrev pub free_below : Superblock → Disk → ℕ → ℕ
free_below sb d zero = 0
free_below sb d (suc n) = (if used sb d n then 0 else 1) + free_below sb d n

abbrev pub free_count : Superblock → Disk → ℕ
free_count sb d = free_below sb d sb.size

pub free_below_cong :
    (sb : Superblock) (d d' : Disk) (n : ℕ)
    → ((c : ℕ) → c < n → used sb d' c ≡ used sb d c)
    → free_below sb d' n ≡ free_below sb d n
free_below_cong sb d d' zero same = ground arith
free_below_cong sb d d' (suc n) same =
    ground (arith, same n (omega arith), free_below_cong sb d d' n (λ c lt. same c (omega arith)))

Taken-free_below :
    (sb : Superblock) (d d' : Disk) (b n : ℕ)
    → Taken sb d b d'
    → n ≤ sb.size
    → free_below sb d n ≡ free_below sb d' n + (if ltb b n then 1 else 0)
Taken-free_below sb d d' b zero t le = ground arith
Taken-free_below sb d d' b (suc n) t le =
    ground
      (arith, Taken-free_below sb d d' b n t (omega arith), t.marked n (omega arith), t.was_free)

pub Taken-free_count :
    (sb : Superblock) (d d' : Disk) (b : ℕ)
    → Taken sb d b d'
    → free_count sb d ≡ free_count sb d' + 1
Taken-free_count sb d d' b t =
    ground (arith, Taken-free_below sb d d' b sb.size t (omega arith), t.in_range)

-- If all blocks but `b` are in use, at most one is free.
scarce_below :
    (sb : Superblock) (d : Disk) (b n : ℕ)
    → ((c : ℕ) → c < n → (c == b) ≡ false → used sb d c ≡ true)
    → free_below sb d n ≤ (if ltb b n then 1 else 0)
scarce_below sb d b zero all = ground arith
scarce_below sb d b (suc n) all =
    ground (arith, all n (omega arith), scarce_below sb d b n (λ c lt ne. all c (omega arith) ne))

pub scarce_count :
    (sb : Superblock) (d : Disk) (b : ℕ)
    → ((c : ℕ) → c < sb.size → (c == b) ≡ false → used sb d c ≡ true)
    → free_count sb d ≤ 1
scarce_count sb d b all = ground (arith, scarce_below sb d b sb.size all)

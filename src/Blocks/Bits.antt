-- ===== src/Blocks/Bits.antt =====
-- The bits of a byte with one of them written.
use bf_scheduler.Common.{
  ℕ, zero, suc, ◌+◌, ◌*◌, ◌/◌, ◌%◌, ◌≡◌, ◌∙◌, arith, true, false, ◌==◌, if◌then◌else◌,
}
use bf_scheduler.Blocks.{bit_of, with_bit, without_bit}

pub bit_of-with_bit : (x k j : ℕ) → bit_of (with_bit x k) j ≡ (if j == k then true else bit_of x j)
unfolding bit_of with_bit
bit_of-with_bit x zero zero = ground arith
bit_of-with_bit x zero (suc j) =
    let e : (x / 2 * 2 + 1) / 2 ≡ x / 2 = omega arith in rw e (ground arith)
bit_of-with_bit x (suc k) zero = ground arith
bit_of-with_bit x (suc k) (suc j) =
    let e : (x % 2 + with_bit (x / 2) k * 2) / 2 ≡ with_bit (x / 2) k = omega arith in
    rw e (bit_of-with_bit (x / 2) k j ∙ ground arith)

pub bit_of-without_bit :
    (x k j : ℕ) → bit_of (without_bit x k) j ≡ (if j == k then false else bit_of x j)
unfolding bit_of without_bit
bit_of-without_bit x zero zero = ground arith
bit_of-without_bit x zero (suc j) =
    let e : x / 2 * 2 / 2 ≡ x / 2 = omega arith in rw e (ground arith)
bit_of-without_bit x (suc k) zero = ground arith
bit_of-without_bit x (suc k) (suc j) =
    let e : (x % 2 + without_bit (x / 2) k * 2) / 2 ≡ without_bit (x / 2) k = omega arith in
    rw e (bit_of-without_bit (x / 2) k j ∙ ground arith)

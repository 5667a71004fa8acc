-- ===== src/SkipList/Seed.antt =====
-- proc.c's pseudo-random numbers and the level that `slUpLevel` draws.
pub mod Bounds
use bf_scheduler.Common.{ℕ, zero, suc, ◌+◌, ◌*◌, ◌/◌, ◌%◌, ◌^◌, Bool, ltb}
use Prim.Native.Nat.{bit_xor}

-- `random`: the xorshift step on the 32-bit `seed`, and its value.
unfoldable pub next_seed : ℕ → ℕ
next_seed seed =
    let a = bit_xor seed ((seed * 2 ^ 17) % 2 ^ 32) in
    let b = bit_xor a (a / 2 ^ 7) in bit_xor b ((b * 2 ^ 5) % 2 ^ 32)

unfoldable pub random : ℕ → ℕ → ℕ × ℕ
random max seed = (next_seed seed % max, next_seed seed)

-- The loop of `slUpLevel`, `room` increments away from its bound. The draw comes first, so a last
-- draw is made at the bound too.
up_level_from : (room p level seed : ℕ) → ℕ × ℕ
up_level_from zero p level seed = (level, (random 100 seed).1)
up_level_from (suc room) p level seed = elim (ltb (random 100 seed).0 p) [
  | Bool.true ↦ up_level_from room p (level + 1) (random 100 seed).1
  | Bool.false ↦ (level, (random 100 seed).1)
]

-- `slUpLevel`: the level and the new seed.
unfoldable pub sl_up_level : ℕ → ℕ → ℕ × ℕ
unfolding up_level_from random next_seed
sl_up_level p seed = up_level_from 3 p 0 seed

-- ===== src/SkipList/Seed/Bounds.antt =====
-- The level that `slUpLevel` draws.
use bf_scheduler.Common.{ℕ, zero, suc, ◌+◌, ◌≤◌, ◌<◌, arith}
use bf_scheduler.SkipList.{max_skiplist_level}
use bf_scheduler.SkipList.Seed.{up_level_from, sl_up_level, random}

up_level_from-le : (room p level seed : ℕ) → (up_level_from room p level seed).0 ≤ level + room
unfolding up_level_from
up_level_from-le zero p level seed = omega arith
up_level_from-le (suc room) p level seed =
    ground (arith, up_level_from-le room p (level + 1) (random 100 seed).1)

-- The level that `slUpLevel` draws is an index of the link arrays, whatever the seed and the
-- chance.
pub sl_up_level-lt : (p seed : ℕ) → (sl_up_level p seed).0 < max_skiplist_level
unfolding sl_up_level
sl_up_level-lt p seed = omega (arith, up_level_from-le 3 p 0 seed)

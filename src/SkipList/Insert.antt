-- ===== src/SkipList/Insert.antt =====
-- `slInsert` of proc.c.
pub mod Link
pub mod Backs
pub mod Free
pub mod Placed
pub mod Queue
pub mod Refine
use bf_scheduler.Common.{
  ℕ, zero, suc, ◌+◌, Option, none, some, ◌&&◌, ◌==◌, ltb, leb, if◌then◌else◌, update, Outcome, done,
  ◌>>=◌,
}
use bf_scheduler.Common.Int.{ℤ, pos}
use bf_scheduler.SkipList.{SkipList, nproc, minus_one, set_forward, set_backward}
use bf_scheduler.SkipList.Search.{walk, next_if, rounds}
use bf_scheduler.SkipList.Seed.{sl_up_level}

-- The loop of `slFindFreeNode` at index `i`, with `k` indices left.
pub free_from : ℕ → SkipList → ℕ → Option ℕ
free_from zero sl i = some i
free_from (suc k) sl i =
    let rest = free_from k sl (i + 1) in
    if (sl.node i).valid == 1 then if i == nproc then none else rest else some i

-- `slFindFreeNode`
unfoldable pub sl_find_free_node : SkipList → Option ℕ
unfolding free_from
sl_find_free_node sl = free_from nproc sl 1

-- Part 1 of `slInsert`: from level `i` down to 0, `backNodesIdxToUpdate`.
pub find_backs : SkipList → ℤ → ℕ → ℕ → (ℕ → ℕ) → Outcome (ℕ → ℕ)
find_backs sl v zero cur backs = walk rounds sl v 0 cur >>= λ c. done (update backs 0 c)
find_backs sl v (suc i) cur backs =
    walk rounds sl v (suc i) cur >>= λ c. find_backs sl v i c (update backs (suc i) c)

-- Part 5 of `slInsert` at level `i`: the new node `n` goes behind the node `back`. (The arguments of
-- `dbgprintf` are evaluated here, too: for a node that goes to the end they read `nodeList[-1]`, and no
-- variable keeps what they read.)
pub link_level : SkipList → (ℕ → ℕ) → ℕ → ℕ → SkipList
unfolding set_forward set_backward
link_level sl backs n i =
    let back = backs i in
    let alone = set_forward sl n i none in
    let linked : SkipList = elim ((sl.node back).forward i) [
      | none ↦ alone
      | some f ↦
          if (sl.node f).valid == 1
          then set_backward (set_forward sl n i (some f)) f i (some n)
          else alone
    ] in
    set_forward (set_backward linked n i (some back)) back i (some n)

-- Its loop, for the levels below `k`.
pub link_levels : ℕ → SkipList → (ℕ → ℕ) → ℕ → SkipList
link_levels zero sl backs n = sl
link_levels (suc k) sl backs n = link_level (link_levels k sl backs n) backs n k

-- Part 4 of `slInsert`.
pub fill_node : SkipList → ℕ → ℤ → ℤ → ℕ → SkipList
fill_node sl n v pid new_level = record sl {
  node =
      update sl.node n
        (record (sl.node n) { value = v; pid = pid; valid = 1; maxlevel = new_level });
}

-- Part 2 of `slInsert`: levels that the list has not used yet begin at the sentinel.
pub raise_backs : ℕ → ℕ → (ℕ → ℕ) → ℕ → ℕ
raise_backs top new_level backs i = if ltb top i && leb i new_level then 0 else backs i

pub raise_level : SkipList → ℕ → ℕ → SkipList
raise_level sl top new_level =
    if ltb top new_level then record sl { level = some new_level } else sl

-- Parts 3 to 5 of `slInsert`.
pub place_node : SkipList → (ℕ → ℕ) → ℤ → ℤ → ℕ → ℤ × SkipList
unfolding link_levels link_level fill_node
place_node sl backs v pid new_level = elim (sl_find_free_node sl) [
  | none ↦ (minus_one, sl)
  | some n ↦ (pos 0, link_levels (suc new_level) (fill_node sl n v pid new_level) backs n)
]

-- `slInsert`: its result, the list and the seed. `stack` is what the array on the stack holds at
-- first.
unfoldable pub sl_insert : (ℕ → ℕ) → SkipList → ℕ → ℤ → ℤ → ℕ → Outcome (ℤ × SkipList × ℕ)
unfolding find_backs walk next_if raise_backs raise_level place_node
sl_insert stack sl seed v pid p = elim sl.level [
  | none ↦ done (minus_one, sl, seed)
  | some top ↦ find_backs sl v top 0 stack >>= λ backs.
      let (new_level, seed') = sl_up_level p seed in
      let (status, sl') =
        place_node (raise_level sl top new_level) (raise_backs top new_level backs) v pid
          new_level in
      done (status, sl', seed')
]

-- ===== src/SkipList/Delete.antt =====
-- `slDelete` of proc.c.
pub mod Unlink
pub mod Entries
pub mod Removed
pub mod Refine
use bf_scheduler.Common.{
  ℕ, zero, suc, Option, none, some, update, Outcome, done, out_of_bounds, ◌>>=◌,
}
use bf_scheduler.Common.Int.{ℤ}
use bf_scheduler.SkipList.{SkipList, set_forward, set_backward}
use bf_scheduler.SkipList.Search.{sl_search}

-- Part 2 of `slDelete` at level `i`, with the node `back` before the deleted node `n`.
pub unlink_from : SkipList → ℕ → ℕ → ℕ → SkipList
unfolding set_forward set_backward
unlink_from sl n i back =
    let linked : SkipList = elim ((sl.node n).forward i) [
      | none ↦ set_forward sl back i none
      | some f ↦ set_backward (set_forward sl back i (some f)) f i (some back)
    ] in
    set_backward (set_forward linked n i none) n i none

-- Writing through `nodeList[-1]` is out of bounds.
pub unlink_level : SkipList → ℕ → ℕ → Outcome SkipList
unlink_level sl n i = elim ((sl.node n).backward i) [
  | none ↦ out_of_bounds
  | some back ↦ done (unlink_from sl n i back)
]

-- Its loop, for the levels below `k`, from the top.
pub unlink_levels : ℕ → SkipList → ℕ → Outcome SkipList
unlink_levels zero sl n = done sl
unlink_levels (suc k) sl n = unlink_level sl n k >>= λ sl'. unlink_levels k sl' n

pub clear_valid : SkipList → ℕ → SkipList
clear_valid sl n = record sl { node = update sl.node n (record (sl.node n) { valid = 0 }) }

-- `slDelete`: the deleted node, if it was found, and the list.
unfoldable pub sl_delete : SkipList → ℤ → ℤ → Outcome (Option ℕ × SkipList)
unfolding unlink_levels unlink_level unlink_from clear_valid
sl_delete sl v pid = elim sl.level [
  | none ↦ done (none, sl)
  | some top ↦ sl_search sl v pid >>= λ found. elim found [
    | none ↦ done (none, sl)
    | some n ↦
        unlink_levels (suc (sl.node n).maxlevel) sl n >>= λ sl'. done (some n, clear_valid sl' n)
  ]
]

-- ===== src/SkipList/Insert/Placed/Fields.antt =====
-- The fields of the nodes after the new node is filled in and linked.
use bf_scheduler.Common.{ℕ, suc, ◌≡◌, arith, some, ltb, if◌then◌else◌, ◌==◌, ◌∙◌}
use bf_scheduler.Common.Int.{ℤ}
use bf_scheduler.SkipList.{SkipList}
use bf_scheduler.SkipList.Shape.{forwards, backwards}
use bf_scheduler.SkipList.Insert.{fill_node, raise_level, link_levels}
use bf_scheduler.SkipList.Insert.Link.{link_levels-SameNodes}

module _ (sl : SkipList) (backs : ℕ → ℕ) (v pid : ℤ) (top new_level n : ℕ) where
  abbrev pub filled : SkipList
  filled = fill_node (raise_level sl top new_level) n v pid new_level

  abbrev pub placed : SkipList
  placed = link_levels (suc new_level) filled backs n

  pub filled-forward : (j a : ℕ) → forwards filled j a ≡ forwards sl j a
  unfolding fill_node raise_level
  filled-forward j a = ground arith

  pub filled-backward : (j a : ℕ) → backwards filled j a ≡ backwards sl j a
  unfolding fill_node raise_level
  filled-backward j a = ground arith

  pub filled-valid : (a : ℕ) → (filled.node a).valid ≡ (if a == n then 1 else (sl.node a).valid)
  unfolding fill_node raise_level
  filled-valid a = ground arith

  pub placed-valid : (a : ℕ) → (placed.node a).valid ≡ (if a == n then 1 else (sl.node a).valid)
  placed-valid a = (link_levels-SameNodes filled backs n (suc new_level)).valid a ∙ filled-valid a

  pub placed-value : (a : ℕ) → (placed.node a).value ≡ (if a == n then v else (sl.node a).value)
  unfolding fill_node raise_level
  placed-value a = ground (arith, (link_levels-SameNodes filled backs n (suc new_level)).value a)

  pub placed-pid : (a : ℕ) → (placed.node a).pid ≡ (if a == n then pid else (sl.node a).pid)
  unfolding fill_node raise_level
  placed-pid a = ground (arith, (link_levels-SameNodes filled backs n (suc new_level)).pid a)

  pub placed-maxlevel :
      (a : ℕ) → (placed.node a).maxlevel ≡ (if a == n then new_level else (sl.node a).maxlevel)
  unfolding fill_node raise_level
  placed-maxlevel a =
      ground (arith, (link_levels-SameNodes filled backs n (suc new_level)).maxlevel a)

  pub placed-level :
      sl.level ≡ some top → placed.level ≡ some (if ltb top new_level then new_level else top)
  unfolding fill_node raise_level
  placed-level e = ground (arith, (link_levels-SameNodes filled backs n (suc new_level)).level)

-- ===== src/SkipList/Insert/Free.antt =====
-- `slFindFreeNode`: the first node of the array that is not in use.
use bf_scheduler.Common.{
  ℕ, zero, suc, ◌+◌, ◌≤◌, ◌<◌, ◌≡◌, ◌≢◌, none, some, arith, ◌==◌, Bool-cases, inl, inr,
}
use bf_scheduler.SkipList.{SkipList, nproc}
use bf_scheduler.SkipList.Insert.{free_from, sl_find_free_node}

module _ (sl : SkipList) where
  pub record IsFree (i n : ℕ) : Type 0 where
    pub lower : i ≤ n
    pub upper : n ≤ nproc
    pub unused : (sl.node n).valid ≢ 1

  free_from-IsFree :
      (k i n : ℕ) → 0 < k → i + k ≡ nproc + 1 → free_from k sl i ≡ some n → IsFree i n
  unfolding free_from
  free_from-IsFree zero i n lt e h = absurd (omega arith)
  free_from-IsFree (suc k) i n lt e h = elim (Bool-cases ((sl.node i).valid == 1)) [
    | inr free ↦ record { lower = ground arith; upper = ground arith; unused = λ q. ground arith }
    | inl used ↦ elim (Bool-cases (i == nproc)) [
      | inl end ↦ absurd (ground arith)
      | inr more ↦
          let f = free_from-IsFree k (i + 1) n (ground arith) (omega arith) (ground arith) in
          record { lower = omega (arith, f.lower); upper = f.upper; unused = f.unused }
    ]
  ]

  free_from-none :
      (k i : ℕ)
      → 0 < k
      → i + k ≡ nproc + 1
      → free_from k sl i ≡ none
      → (a : ℕ) → i ≤ a
      → a ≤ nproc
      → (sl.node a).valid ≡ 1
  unfolding free_from
  free_from-none zero i lt e h a lo hi = absurd (omega arith)
  free_from-none (suc k) i lt e h a lo hi = elim (Bool-cases (a == i)) [
    | inl here ↦ ground arith
    | inr later ↦
        free_from-none k (i + 1) (ground arith) (omega arith) (ground arith) a (ground arith) hi
  ]

  pub sl_find_free_node-IsFree : (n : ℕ) → sl_find_free_node sl ≡ some n → IsFree 1 n
  unfolding sl_find_free_node
  sl_find_free_node-IsFree n h = free_from-IsFree nproc 1 n (omega arith) (omega arith) h

  pub sl_find_free_node-none :
      sl_find_free_node sl ≡ none → (a : ℕ) → 1 ≤ a → a ≤ nproc → (sl.node a).valid ≡ 1
  unfolding sl_find_free_node
  sl_find_free_node-none h = free_from-none nproc 1 (omega arith) (omega arith) h

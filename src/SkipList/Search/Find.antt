-- ===== src/SkipList/Search/Find.antt =====
-- `slSearch` against a search of the whole list of nodes.
use bf_scheduler.Common.{
  ℕ, zero, suc, ◌<◌, ◌≡◌, refl, sym, ap, ◌∙◌, List, [], ◌∷◌, ◌++◌, arith, All, length, done, Option,
  none, some, if◌then◌else◌, ◌&&◌, Bool-cases, inl, inr,
}
use bf_scheduler.Common.Int.{ℤ, ◌≤ℤ◌, ◌<ℤ◌, eqb_ℤ}
use bf_scheduler.SkipList.{SkipList}
use bf_scheduler.SkipList.Chain.{Chain, last}
use bf_scheduler.SkipList.Shape.{
  IsSkipList, forwards, backwards, key, Sorted, All-map, All-back, Sorted-back, low-append-high,
  All-low, All-high,
}
use bf_scheduler.SkipList.Search.{scan, next_if, sl_search, rounds}
use bf_scheduler.SkipList.Search.Locate.{
  before, behind, search_down-start, Chain-behind, All-valid, length-behind-le,
}

-- The first node of `xs` with this value and pid.
abbrev pub find_node : SkipList → ℤ → ℤ → List ℕ → Option ℕ
find_node sl v pid [] = none
find_node sl v pid (x ∷ xs) =
    let rest = find_node sl v pid xs in
    if eqb_ℤ (sl.node x).value v && eqb_ℤ (sl.node x).pid pid then some x else rest

module _ (sl : SkipList) (v pid : ℤ) where
  find_node-above : (xs : List ℕ) → All (λ b. v <ℤ key sl b) xs → find_node sl v pid xs ≡ none
  find_node-above [] h = refl
  find_node-above (x ∷ xs) h = ground (arith, find_node-above xs h.1)

  find_node-low :
      (ys zs : List ℕ)
      → All (λ b. key sl b <ℤ v) ys
      → find_node sl v pid (ys ++ zs) ≡ find_node sl v pid zs
  find_node-low [] zs h = refl
  find_node-low (y ∷ ys) zs h = ground (arith, find_node-low ys zs h.1)

  -- Along an ascending chain that begins at `v` or above, the scan finds what is there.
  scan-find_node :
      (fuel a : ℕ) (zs : List ℕ)
      → Chain (forwards sl 0) (backwards sl 0) a zs
      → All (λ b. (sl.node b).valid ≡ 1) zs
      → Sorted (key sl) zs
      → All (λ b. v ≤ℤ key sl b) zs
      → length zs < fuel
      → scan fuel sl v pid a ≡ done (find_node sl v pid zs)
  unfolding scan next_if
  scan-find_node zero a zs c ok s h lt = absurd (omega arith)
  scan-find_node (suc fuel) a [] c ok s h lt = ground arith
  scan-find_node (suc fuel) a (z ∷ zs) c ok s h lt = elim (Bool-cases (eqb_ℤ (key sl z) v)) [
    | inl e ↦ ground (arith, scan-find_node fuel z zs c.2 ok.1 s.1 h.1 (omega arith))
    | inr e ↦ ground (
      arith,
      find_node-above zs (
          All-map (λ y. key sl z ≤ℤ key sl y) (λ y. v <ℤ key sl y) zs (λ b m le. ground arith) s.0),
    )
  ]

-- `slSearch` ends, and returns the first node with the value and the pid.
pub sl_search-find_node :
    {sl : SkipList} {xs : List ℕ}
    → IsSkipList sl xs
    → (v pid : ℤ) → sl_search sl v pid ≡ done (find_node sl v pid xs)
unfolding sl_search
sl_search-find_node {sl} {xs} s v pid =
    let zs = behind s v in
    let valid : All (λ b. (sl.node b).valid ≡ 1) zs =
      All-back (λ b. (sl.node b).valid ≡ 1) (before s v) zs
        (rw (low-append-high (key sl) v xs) (All-valid s)) in
    let sorted : Sorted (key sl) zs =
      Sorted-back (key sl) (before s v) zs (rw (low-append-high (key sl) v xs) s.sorted) in
    let found : find_node sl v pid xs ≡ find_node sl v pid zs =
      ap (find_node sl v pid) (sym (low-append-high (key sl) v xs))
      ∙ find_node-low sl v pid (before s v) zs (All-low (key sl) v xs) in
    rw (s.level, sl_search)
      (rw (search_down-start s v, found)
        (scan-find_node sl v pid rounds (last 0 (before s v)) zs (Chain-behind s v) valid sorted
          (All-high (key sl) v xs s.sorted) (omega (arith, length-behind-le s v))))

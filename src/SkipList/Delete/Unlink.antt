-- ===== src/SkipList/Delete/Unlink.antt =====
-- Part 2 of `slDelete`: the links that the loop over the levels writes.
use bf_scheduler.Common.{
  ℕ, zero, suc, ◌≤◌, ◌<◌, ◌≡◌, refl, false, Option, none, some, arith, ◌==◌, ==→eq, List, ◌∷◌, ◌++◌,
  Bool-cases, inl, inr, sym, ◌∙◌, done, Distinct, ◌∉◌,
}
use mathlib.Core.Bool.{false≢true}
use bf_scheduler.SkipList.{SkipList}
use bf_scheduler.SkipList.Chain.{
  Chain, last, first, Unlinked, Chain-remove, Chain-frame, links_of_Chain, first-mem, ne_of_mem,
  has-last,
}
use bf_scheduler.SkipList.Shape.{
  forwards, backwards, SameNodes, SameNodes-refl, SameNodes-trans, Distinct-remove,
}
use bf_scheduler.SkipList.Delete.{unlink_from, unlink_level, unlink_levels}

module _ (sl : SkipList) (n i back : ℕ) where
  unlink_from-SameNodes : SameNodes sl (unlink_from sl n i back)
  unfolding unlink_from
  unlink_from-SameNodes = record {
    level = ground arith;
    valid = λ a. ground arith;
    value = λ a. ground arith;
    pid = λ a. ground arith;
    maxlevel = λ a. ground arith;
  }

  unlink_from-other :
      (j a : ℕ)
      → (j == i) ≡ false
      → (forwards (unlink_from sl n i back) j a ≡ forwards sl j a)
        × (backwards (unlink_from sl n i back) j a ≡ backwards sl j a)
  unfolding unlink_from
  unlink_from-other j a ne = (ground arith, ground arith)

  unlink_from-Unlinked :
      (next : Option ℕ)
      → forwards sl i n ≡ next
      → (back == n) ≡ false
      → (next ≡ some n → ⊥)
      → Unlinked
          (forwards sl i)
          (backwards sl i)
          (forwards (unlink_from sl n i back) i)
          (backwards (unlink_from sl n i back) i)
          back
          n
          next
  unfolding unlink_from
  unlink_from-Unlinked none e apart out = record {
    at_back = ground arith;
    next_back = λ f q. cc;
    other_fw = λ b p q. ground arith;
    other_bw = λ b p q. ground arith;
  }
  unlink_from-Unlinked (some f) e apart out = record {
    at_back = ground arith;
    next_back = λ g q. ground arith;
    other_fw = λ b p q. ground arith;
    other_bw = λ b p q. ground arith;
  }

unlink_levels_step :
    (sl : SkipList) (n k back : ℕ)
    → backwards sl k n ≡ some back
    → unlink_levels (suc k) sl n ≡ unlink_levels k (unlink_from sl n k back) n
unfolding unlink_levels unlink_level
unlink_levels_step sl n k back e = ground arith

-- The levels below `k` have lost the node `n`, and the others are as they were.
pub record UnlinkedBelow (sl : SkipList) (n k : ℕ) (ys zs : ℕ → List ℕ) : Type 0 where
  pub after : SkipList
  pub returned : unlink_levels k sl n ≡ done after
  pub same : SameNodes sl after
  pub above :
      (j a : ℕ)
      → k ≤ j
      → (forwards after j a ≡ forwards sl j a) × (backwards after j a ≡ backwards sl j a)
  pub chains : (j : ℕ) → j < k → Chain (forwards after j) (backwards after j) 0 (ys j ++ zs j)

module _ (n : ℕ) (ys zs : ℕ → List ℕ) (distinct : (j : ℕ) → Distinct (0 ∷ ys j ++ n ∷ zs j)) where
  elsewhere : (j : ℕ) → n ∉ (0 ∷ ys j ++ zs j)
  elsewhere j = (Distinct-remove n (0 ∷ ys j) (zs j) (distinct j)).0

  first-ne : (j : ℕ) → first (zs j) ≡ some n → ⊥
  first-ne j e = absurd (false≢true (sym (elsewhere j) ∙ first-mem n (0 ∷ ys j) (zs j) e))

  last-ne : (j : ℕ) → (last 0 (ys j) == n) ≡ false
  last-ne j =
      ne_of_mem (last 0 (ys j)) n (0 ∷ ys j ++ zs j) (has-last 0 (ys j) (zs j)) (elsewhere j)

  pub unlink_levels-UnlinkedBelow :
      (k : ℕ) (sl : SkipList)
      → ((j : ℕ) → j < k → Chain (forwards sl j) (backwards sl j) 0 (ys j ++ n ∷ zs j))
      → UnlinkedBelow sl n k ys zs
  unfolding unlink_levels
  unlink_levels-UnlinkedBelow zero sl chain = record {
    after = sl;
    returned = refl;
    same = SameNodes-refl sl;
    above = λ j a le. (refl, refl);
    chains = λ j lt. absurd (omega arith);
  }
  unlink_levels-UnlinkedBelow (suc k) sl chain =
      let back = last 0 (ys k) in
      let here =
        links_of_Chain (forwards sl k) (backwards sl k) n 0 (ys k) (zs k) (chain k (omega arith)) in
      let mid = unlink_from sl n k back in
      let step = unlink_from-Unlinked sl n k back (first (zs k)) here.1 (last-ne k) (first-ne k) in
      let rest = unlink_levels-UnlinkedBelow k mid (λ j lt.
        Chain-frame 0 (ys j ++ n ∷ zs j)
          (λ b m. (unlink_from-other sl n k back j b (ground arith)).0)
          (λ b m. (unlink_from-other sl n k back j b (ground arith)).1) (chain j (omega arith))) in
      record {
        after = rest.after;
        returned = unlink_levels_step sl n k back here.0 ∙ rest.returned;
        same = SameNodes-trans (unlink_from-SameNodes sl n k back) rest.same;
        above = λ j a le. (
          (rest.above j a (omega arith)).0 ∙ (unlink_from-other sl n k back j a (ground arith)).0,
          (rest.above j a (omega arith)).1 ∙ (unlink_from-other sl n k back j a (ground arith)).1,
        );
        chains = λ j lt. elim (Bool-cases (j == k)) [
          | inl e ↦ rw (==→eq j k e) (
              Chain-frame 0 (ys k ++ zs k) (λ b m. (rest.above k b (omega arith)).0)
                (λ b m. (rest.above k b (omega arith)).1)
                (Chain-remove n 0 (ys k) (zs k) (chain k (omega arith)) (distinct k) step))
          | inr other ↦ rest.chains j (ground arith)
        ];
      }

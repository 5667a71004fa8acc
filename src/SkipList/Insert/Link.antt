-- ===== src/SkipList/Insert/Link.antt =====
-- Part 5 of `slInsert`: the links that the loop over the levels writes.
use bf_scheduler.Common.{
  ℕ, zero, suc, ◌≤◌, ◌<◌, ◌≡◌, refl, false, Option, none, some, arith, ◌==◌, Bool-cases, inl, inr,
  sym, ◌∙◌, ==→eq,
}
use bf_scheduler.SkipList.{SkipList}
use bf_scheduler.SkipList.Chain.{Links, Linked}
use bf_scheduler.SkipList.Shape.{forwards, backwards, SameNodes, SameNodes-refl, SameNodes-trans}
use bf_scheduler.SkipList.Insert.{link_level, link_levels}

module _ (sl : SkipList) (backs : ℕ → ℕ) (n i : ℕ) where
  link_level-SameNodes : SameNodes sl (link_level sl backs n i)
  unfolding link_level
  link_level-SameNodes = record {
    level = ground arith;
    valid = λ a. ground arith;
    value = λ a. ground arith;
    pid = λ a. ground arith;
    maxlevel = λ a. ground arith;
  }

  link_level-other_fw :
      (j a : ℕ) → (j == i) ≡ false → forwards (link_level sl backs n i) j a ≡ forwards sl j a
  unfolding link_level
  link_level-other_fw j a ne = ground arith

  link_level-other_bw :
      (j a : ℕ) → (j == i) ≡ false → backwards (link_level sl backs n i) j a ≡ backwards sl j a
  unfolding link_level
  link_level-other_bw j a ne = ground arith

  pub link_level-Linked :
      (next : Option ℕ)
      → forwards sl i (backs i) ≡ next
      → ((f : ℕ) → next ≡ some f → (sl.node f).valid ≡ 1)
      → (backs i == n) ≡ false
      → (next ≡ some n → ⊥)
      → Linked
          (forwards sl i)
          (backwards sl i)
          (forwards (link_level sl backs n i) i)
          (backwards (link_level sl backs n i) i)
          (backs i)
          n
          next
  unfolding link_level
  link_level-Linked none e ok apart out = record {
    at_back = ground arith;
    at_new = ground arith;
    new_back = ground arith;
    next_back = λ f q. cc;
    other_fw = λ b p q. ground arith;
    other_bw = λ b p q. ground arith;
  }
  link_level-Linked (some f) e ok apart out = record {
    at_back = ground (arith, ok f refl);
    at_new = ground (arith, ok f refl);
    new_back = ground (arith, ok f refl);
    next_back = λ g q. ground (arith, ok f refl);
    other_fw = λ b p q. ground (arith, ok f refl);
    other_bw = λ b p q. ground (arith, ok f refl);
  }

Linked-cong :
    {fw bw fw' bw' : Links} {back n : ℕ} {next : Option ℕ} (gw cw gw' cw' : Links)
    → ((a : ℕ) → gw a ≡ fw a)
    → ((a : ℕ) → cw a ≡ bw a)
    → ((a : ℕ) → gw' a ≡ fw' a)
    → ((a : ℕ) → cw' a ≡ bw' a)
    → Linked fw bw fw' bw' back n next
    → Linked gw cw gw' cw' back n next
Linked-cong {back} {n} gw cw gw' cw' f g f' g' l = record {
  at_back = f' back ∙ l.at_back;
  at_new = f' n ∙ l.at_new;
  new_back = g' n ∙ l.new_back;
  next_back = λ b e. g' b ∙ l.next_back b e;
  other_fw = λ b p q. f' b ∙ l.other_fw b p q ∙ sym (f b);
  other_bw = λ b p q. g' b ∙ l.other_bw b p q ∙ sym (g b);
}

module _ (sl : SkipList) (backs : ℕ → ℕ) (n : ℕ) where
  pub link_levels-SameNodes : (k : ℕ) → SameNodes sl (link_levels k sl backs n)
  unfolding link_levels
  link_levels-SameNodes zero = SameNodes-refl sl
  link_levels-SameNodes (suc k) =
      SameNodes-trans (link_levels-SameNodes k)
        (link_level-SameNodes (link_levels k sl backs n) backs n k)

  -- Levels that the loop has not reached are as they were.
  pub link_levels-above :
      (k j a : ℕ)
      → k ≤ j
      → (forwards (link_levels k sl backs n) j a ≡ forwards sl j a)
        × (backwards (link_levels k sl backs n) j a ≡ backwards sl j a)
  unfolding link_levels
  link_levels-above zero j a le = (refl, refl)
  link_levels-above (suc k) j a le =
      let before = link_levels-above k j a (omega arith) in
      let s = link_levels k sl backs n in
      (
        link_level-other_fw s backs n k j a (ground arith) ∙ before.0,
        link_level-other_bw s backs n k j a (ground arith) ∙ before.1,
      )

  module _ (next : ℕ → Option ℕ) where
    -- What the loop needs at level `j`.
    pub record Fits (j : ℕ) : Type 0 where
      pub follows : forwards sl j (backs j) ≡ next j
      pub valid : (f : ℕ) → next j ≡ some f → (sl.node f).valid ≡ 1
      pub apart : (backs j == n) ≡ false
      pub new : next j ≡ some n → ⊥

    -- Each level that it has reached has the new node behind its back node.
    pub link_levels-Linked :
        (k : ℕ)
        → ((j : ℕ) → j < k → Fits j)
        → (j : ℕ) → j < k
        → Linked
            (forwards sl j)
            (backwards sl j)
            (forwards (link_levels k sl backs n) j)
            (backwards (link_levels k sl backs n) j)
            (backs j)
            n
            (next j)
    unfolding link_levels
    link_levels-Linked zero fits j lt = absurd (omega arith)
    link_levels-Linked (suc k) fits j lt =
        let s = link_levels k sl backs n in
        elim (Bool-cases (j == k)) [
          | inl same ↦
              let at : Fits k = fits k (omega arith) in
              let step =
                link_level-Linked s backs n k (next k)
                  ((link_levels-above k k (backs k) (omega arith)).0 ∙ at.follows)
                  (λ f e. (link_levels-SameNodes k).valid f ∙ at.valid f e) at.apart at.new in
              rw (==→eq j k same) (
                Linked-cong (forwards sl k) (backwards sl k) _ _
                  (λ a. sym (link_levels-above k k a (omega arith)).0)
                  (λ a. sym (link_levels-above k k a (omega arith)).1) (λ a. refl) (λ a. refl) step)
          | inr other ↦
              Linked-cong (forwards sl j) (backwards sl j) _ _ (λ a. refl) (λ a. refl)
                (λ a. link_level-other_fw s backs n k j a other)
                (λ a. link_level-other_bw s backs n k j a other)
                (link_levels-Linked k (λ i lt'. fits i (omega arith)) j (ground arith))
        ]

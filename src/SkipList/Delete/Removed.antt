-- ===== src/SkipList/Delete/Removed.antt =====
-- The list after `slDelete` has unlinked and cleared a node.
use bf_scheduler.Common.{
  ℕ, suc, ◌≤◌, ◌<◌, ◌≡◌, refl, sym, ap, ◌∙◌, List, ◌∷◌, ◌++◌, arith, has, ◌==◌, if◌then◌else◌, true,
  inl, inr, Bool-cases, leb, ◌∉◌, Distinct,
}
use bf_scheduler.SkipList.{SkipList, nproc, max_skiplist_level}
use bf_scheduler.SkipList.Chain.{Chain, Chain-frame, has-middle}
use bf_scheduler.SkipList.Shape.{
  IsSkipList, key, tall, forwards, backwards, at_level, at_level-append, at_level_cong,
  not-mem-at_level, Distinct-at_level, All-get, All-remove, Sorted-remove, Sorted-cong,
  Distinct-remove, has-insert, All-map, Distinct-insert,
}
use bf_scheduler.SkipList.Search.Locate.{zero-not-mem}
use bf_scheduler.SkipList.Delete.{clear_valid}
use bf_scheduler.SkipList.Delete.Unlink.{UnlinkedBelow, unlink_levels-UnlinkedBelow}

module _ {sl : SkipList} {xs : List ℕ} (s : IsSkipList sl xs) (n : ℕ) (front rear : List ℕ)
    (whole : front ++ n ∷ rear ≡ xs) where
  abbrev pub ys : ℕ → List ℕ
  ys j = at_level (tall sl) j front

  abbrev pub zs : ℕ → List ℕ
  zs j = at_level (tall sl) j rear

  level_of_whole :
      (j : ℕ)
      → at_level (tall sl) j xs ≡ (if leb j (tall sl n) then ys j ++ n ∷ zs j else ys j ++ zs j)
  level_of_whole j =
      ap (at_level (tall sl) j) (sym whole)
      ∙ at_level-append (tall sl) j front (n ∷ rear)
      ∙ ground arith

  out : n ∉ (front ++ rear)
  out = (Distinct-remove n front rear (rw whole s.distinct)).0

  parts : (j : ℕ) → ys j ++ zs j ≡ at_level (tall sl) j (front ++ rear)
  parts j = sym (at_level-append (tall sl) j front rear)

  n-mem : has n xs ≡ true
  n-mem = ap (has n) (sym whole) ∙ has-middle n front rear

  n-bounds : (1 ≤ n) × (n ≤ nproc)
  n-bounds = All-get (λ b. (1 ≤ b) × (b ≤ nproc)) n xs s.bounds n-mem

  not-mem-parts : (a j : ℕ) → a ∉ (front ++ rear) → a ∉ (ys j ++ zs j)
  not-mem-parts a j o = rw (parts j) (not-mem-at_level (tall sl) j a (front ++ rear) o)

  zero-out : 0 ∉ (front ++ rear)
  zero-out = ground (arith, has-insert 0 n front rear, ap (has 0) whole, zero-not-mem s)

  Distinct-whole : (j : ℕ) → Distinct (0 ∷ ys j ++ n ∷ zs j)
  Distinct-whole j = (
    ground (arith, has-insert 0 n (ys j) (zs j), not-mem-parts 0 j zero-out, n-bounds.0),
    Distinct-insert n (ys j) (zs j) (not-mem-parts n j out) (
        rw (parts j) (
          Distinct-at_level (tall sl) j (front ++ rear)
            (Distinct-remove n front rear (rw whole s.distinct)).1)),
  )

  tall-lt : tall sl n < max_skiplist_level
  tall-lt = omega (arith, All-get (λ b. tall sl b ≤ s.top) n xs s.levels n-mem, s.top_lt)

  Chain-whole :
      (j : ℕ) → j < suc (tall sl n) → Chain (forwards sl j) (backwards sl j) 0 (ys j ++ n ∷ zs j)
  Chain-whole j lt =
      let reached : leb j (tall sl n) ≡ true = ground arith in
      let level : at_level (tall sl) j xs ≡ ys j ++ n ∷ zs j = level_of_whole j ∙ rw reached refl in
      rw level at (s.linked j (omega (arith, tall-lt)))

  pub gone : UnlinkedBelow sl n (suc (tall sl n)) ys zs
  gone = unlink_levels-UnlinkedBelow n ys zs Distinct-whole (suc (tall sl n)) sl Chain-whole

  abbrev pub left : SkipList
  left = clear_valid gone.after n

  left-links :
      (j a : ℕ)
      → (forwards left j a ≡ forwards gone.after j a)
        × (backwards left j a ≡ backwards gone.after j a)
  unfolding clear_valid
  left-links j a = (ground arith, ground arith)

  left-valid : (a : ℕ) → (left.node a).valid ≡ (if a == n then 0 else (sl.node a).valid)
  unfolding clear_valid
  left-valid a = ground (arith, gone.same.valid a)

  pub left-value : (a : ℕ) → key left a ≡ key sl a
  unfolding clear_valid
  left-value a = ground (arith, gone.same.value a)

  pub left-pid : (a : ℕ) → (left.node a).pid ≡ (sl.node a).pid
  unfolding clear_valid
  left-pid a = ground (arith, gone.same.pid a)

  left-tall : (a : ℕ) → tall left a ≡ tall sl a
  unfolding clear_valid
  left-tall a = ground (arith, gone.same.maxlevel a)

  left-level : left.level ≡ sl.level
  unfolding clear_valid
  left-level = gone.same.level

  left-linked :
      (j : ℕ)
      → j < max_skiplist_level
      → Chain (forwards left j) (backwards left j) 0 (at_level (tall left) j (front ++ rear))
  left-linked j lt =
      let level : at_level (tall left) j (front ++ rear) ≡ ys j ++ zs j =
        at_level_cong (tall sl) j (tall left) (front ++ rear) (λ b m. left-tall b)
        ∙ sym (parts j) in
      rw level (
        Chain-frame 0 (ys j ++ zs j) (λ b m. (left-links j b).0) (λ b m. (left-links j b).1)
          (elim (Bool-cases (leb j (tall sl n))) [
            | inl reached ↦ gone.chains j (ground arith)
            | inr above ↦
                let whole_level : at_level (tall sl) j xs ≡ ys j ++ zs j =
                  level_of_whole j ∙ rw above refl in
                Chain-frame 0 (ys j ++ zs j) (λ b m. (gone.above j b (ground arith)).0)
                  (λ b m. (gone.above j b (ground arith)).1) (rw whole_level at (s.linked j lt))
          ]))

  -- After a node is unlinked and cleared the array is a skip list of the others.
  pub left-IsSkipList : IsSkipList left (front ++ rear)
  left-IsSkipList = record {
    top = s.top;
    level = left-level ∙ s.level;
    top_lt = s.top_lt;
    bounds = All-remove (key sl) n (λ b. (1 ≤ b) × (b ≤ nproc)) front rear (rw whole s.bounds);
    distinct = (Distinct-remove n front rear (rw whole s.distinct)).1;
    live = λ a lo hi.
        ground
          (arith, left-valid a, s.live a lo hi, has-insert a n front rear, ap (has a) whole, out);
    levels =
        All-remove (key sl) n (λ b. tall left b ≤ s.top) front rear
          (rw whole (
            All-map (λ b. tall sl b ≤ s.top) (λ b. tall left b ≤ s.top) xs
              (λ b m h. ground (arith, left-tall b)) s.levels));
    sorted =
        Sorted-cong (key sl) (key left) (front ++ rear) (λ b m. left-value b)
          (Sorted-remove (key sl) n front rear (rw whole s.sorted));
    linked = left-linked;
  }

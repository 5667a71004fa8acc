-- ===== src/SkipList/Insert/Placed/Chains.antt =====
-- The levels of the list after the new node is linked.
use bf_scheduler.Common.{
  ℕ, suc, ◌≤◌, ◌<◌, ◌≡◌, ◌≢◌, List, ◌∷◌, ◌++◌, arith, has, leb, if◌then◌else◌, true, ◌∙◌, ap, sym,
  ◌∉◌, Distinct, Bool-cases, inl, inr, has-append,
}
use bf_scheduler.Common.Int.{ℤ}
use bf_scheduler.SkipList.{SkipList, nproc, max_skiplist_level}
use bf_scheduler.SkipList.Chain.{
  Chain, last, first, Chain-insert, Chain-suffix, Chain-frame, first_of_Chain, first-mem, has-last,
  not-mem-cons, ne_of_mem,
}
use bf_scheduler.SkipList.Shape.{
  IsSkipList, forwards, backwards, key, tall, at_level, at_level-append, at_level_cong,
  not-mem-at_level, Distinct-at_level, mem_of_mem-at_level, low-append-high, All-get,
}
use bf_scheduler.SkipList.Search.Locate.{before, behind, stop, split_level, All-valid, zero-not-mem}
use bf_scheduler.SkipList.Insert.Link.{Fits, link_levels-Linked, link_levels-above}
use bf_scheduler.SkipList.Insert.Placed.Fields.{
  filled, placed, filled-forward, filled-backward, filled-valid, placed-maxlevel,
}

-- What the search and `slFindFreeNode` give for the new node `n` and its level.
pub record IsPlace {sl : SkipList} {xs : List ℕ} (s : IsSkipList sl xs) (v : ℤ) (backs : ℕ → ℕ)
    (new_level n : ℕ) : Type 0 where
  pub level_lt : new_level < max_skiplist_level
  pub lower : 1 ≤ n
  pub upper : n ≤ nproc
  pub unused : (sl.node n).valid ≢ 1
  pub stops : (k : ℕ) → k ≤ new_level → backs k ≡ stop s v k

module _ {sl : SkipList} {xs : List ℕ} (s : IsSkipList sl xs) (v pid : ℤ) {backs : ℕ → ℕ}
    {new_level n : ℕ} (p : IsPlace s v backs new_level n) where
  pub not-mem-new : n ∉ xs
  not-mem-new = ground (arith, s.live n p.lower p.upper, p.unused)

  abbrev pub after : SkipList
  after = placed sl backs v pid s.top new_level n

  abbrev ys : ℕ → List ℕ
  ys j = at_level (tall sl) j (before s v)

  abbrev zs : ℕ → List ℕ
  zs j = at_level (tall sl) j (behind s v)

  Chain-parts :
      (j : ℕ) → j < max_skiplist_level → Chain (forwards sl j) (backwards sl j) 0 (ys j ++ zs j)
  Chain-parts j lt = rw (split_level s v j) at (s.linked j lt)

  Distinct-parts : (j : ℕ) → Distinct (0 ∷ ys j ++ zs j)
  Distinct-parts j = rw (← split_level s v j) (
    not-mem-at_level (tall sl) j 0 xs (zero-not-mem s),
    Distinct-at_level (tall sl) j xs s.distinct,
  )

  out_parts : (j : ℕ) → n ∉ (0 ∷ ys j ++ zs j)
  out_parts j =
      rw (← split_level s v j) (
        not-mem-cons n 0 _ (ground (arith, p.lower))
          (not-mem-at_level (tall sl) j n xs not-mem-new))

  mem_parts : (j a : ℕ) → has a (ys j ++ zs j) ≡ true → has a xs ≡ true
  mem_parts j a m = mem_of_mem-at_level (tall sl) j a xs (rw (← split_level s v j) at m)

  fits :
      (j : ℕ)
      → j < suc new_level
      → Fits (filled sl backs v pid s.top new_level n) backs n (λ i. first (zs i)) j
  fits j lt = record {
    follows =
        filled-forward sl backs v pid s.top new_level n j (backs j)
        ∙ ap (forwards sl j) (p.stops j (omega arith))
        ∙ first_of_Chain (forwards sl j) (backwards sl j) (last 0 (ys j)) (zs j) (
            Chain-suffix (forwards sl j) (backwards sl j) 0 (ys j) (zs j)
              (Chain-parts j (omega (arith, p.level_lt))));
    valid = λ f e.
        let valid_before : (sl.node f).valid ≡ 1 =
          All-get (λ b. (sl.node b).valid ≡ 1) f xs (All-valid s)
            (mem_parts j f (first-mem f (ys j) (zs j) e)) in
        ground (arith, filled-valid sl backs v pid s.top new_level n f);
    apart =
        rw (p.stops j (omega arith))
          (ne_of_mem (last 0 (ys j)) n (0 ∷ ys j ++ zs j) (has-last 0 (ys j) (zs j)) (out_parts j));
    new = λ e. ground (arith, first-mem n (ys j) (zs j) e, out_parts j);
  }

  pub same_tall : (b : ℕ) → has b xs ≡ true → tall after b ≡ tall sl b
  same_tall b m =
      ground
        (arith, placed-maxlevel sl backs v pid s.top new_level n b, ne_of_mem b n xs m not-mem-new)

  pub mem_front : (b : ℕ) → has b (before s v) ≡ true → has b xs ≡ true
  mem_front b m =
      ap (has b) (sym (low-append-high (key sl) v xs))
      ∙ ground (arith, has-append b (before s v) (behind s v))

  pub mem_back : (b : ℕ) → has b (behind s v) ≡ true → has b xs ≡ true
  mem_back b m =
      ap (has b) (sym (low-append-high (key sl) v xs))
      ∙ ground (arith, has-append b (before s v) (behind s v))

  -- The nodes of level `j` in the new list.
  level_of_after :
      (j : ℕ)
      → at_level (tall after) j (before s v ++ n ∷ behind s v)
        ≡ (if leb j new_level then ys j ++ n ∷ zs j else ys j ++ zs j)
  level_of_after j =
      at_level-append (tall after) j (before s v) (n ∷ behind s v)
      ∙ ground (
        arith,
        at_level_cong (tall sl) j (tall after) (before s v) (λ b m. same_tall b (mem_front b m)),
        at_level_cong (tall sl) j (tall after) (behind s v) (λ b m. same_tall b (mem_back b m)),
        placed-maxlevel sl backs v pid s.top new_level n n,
      )

  linked_at :
      (j : ℕ) → j ≤ new_level → Chain (forwards after j) (backwards after j) 0 (ys j ++ n ∷ zs j)
  linked_at j le =
      let start = filled sl backs v pid s.top new_level n in
      let links =
        link_levels-Linked start backs n (λ i. first (zs i)) (suc new_level) fits j (omega arith) in
      let chain =
        Chain-frame 0 (ys j ++ zs j) (λ b m. filled-forward sl backs v pid s.top new_level n j b)
          (λ b m. filled-backward sl backs v pid s.top new_level n j b)
          (Chain-parts j (omega (arith, p.level_lt))) in
      Chain-insert n 0 (ys j) (zs j) chain (out_parts j) (Distinct-parts j)
        (rw (p.stops j le) at links)

  kept_at :
      (j : ℕ)
      → j < max_skiplist_level
      → new_level < j
      → Chain (forwards after j) (backwards after j) 0 (ys j ++ zs j)
  kept_at j lt above =
      let start = filled sl backs v pid s.top new_level n in
      Chain-frame 0 (ys j ++ zs j)
        (λ b m.
          (link_levels-above start backs n (suc new_level) j b above).0
          ∙ filled-forward sl backs v pid s.top new_level n j b)
        (λ b m.
          (link_levels-above start backs n (suc new_level) j b above).1
          ∙ filled-backward sl backs v pid s.top new_level n j b)
        (Chain-parts j lt)

  pub after-linked :
      (j : ℕ)
      → j < max_skiplist_level
      → Chain
          (forwards after j)
          (backwards after j)
          0
          (at_level (tall after) j (before s v ++ n ∷ behind s v))
  after-linked j lt = rw (level_of_after j) (elim (Bool-cases (leb j new_level)) [
    | inl reached ↦ rw reached (linked_at j (ground arith))
    | inr above ↦ rw above (kept_at j lt (ground arith))
  ])

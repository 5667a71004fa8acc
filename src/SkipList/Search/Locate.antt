-- ===== src/SkipList/Search/Locate.antt =====
-- In a skip list the walks for a value `v` arrive, at each level, at the last node below `v`.
use bf_scheduler.Common.{
  ℕ, zero, suc, ◌≤◌, ◌<◌, ◌≡◌, sym, ap, ◌∙◌, List, [], ◌∷◌, ◌++◌, arith, All, length, done,
  length-append, ◌∉◌, has, Bool-cases, inl, inr,
}
use bf_scheduler.Common.Pigeonhole.{length-le_of_bounds}
use bf_scheduler.Common.Int.{ℤ, ◌<ℤ◌}
use bf_scheduler.SkipList.{SkipList, max_skiplist_level, nproc}
use bf_scheduler.SkipList.Chain.{Chain, last, Chain-suffix}
use bf_scheduler.SkipList.Shape.{
  IsSkipList, forwards, backwards, key, tall, at_level, at_level-append, at_level-above,
  at_level-zero, All-at_level, All-get, All-map, All-append, All-front, All-back, low, high,
  low-append-high, All-low, All-high,
}
use bf_scheduler.SkipList.Search.{walk, rounds, search_down}
use bf_scheduler.SkipList.Search.Walk.{walk-last, descend}

module _ {sl : SkipList} {xs : List ℕ} (s : IsSkipList sl xs) where
  pub All-valid : All (λ b. (sl.node b).valid ≡ 1) xs
  All-valid =
      All-map _ (λ b. (sl.node b).valid ≡ 1) xs (λ b m h. ground (arith, s.live b h.0 h.1)) s.bounds

  pub zero-not-mem : 0 ∉ xs
  zero-not-mem = elim (Bool-cases (has 0 xs)) [
    | inl m ↦ absurd (omega (arith, (All-get (λ b. (1 ≤ b) × (b ≤ nproc)) 0 xs s.bounds m).0))
    | inr out ↦ out
  ]

  pub length-le-nproc : length xs ≤ nproc
  length-le-nproc = length-le_of_bounds nproc xs s.distinct s.bounds

  module _ (v : ℤ) where
    abbrev pub before : List ℕ
    before = low (key sl) v xs

    abbrev pub behind : List ℕ
    behind = high (key sl) v xs

    -- The last node of level `i` whose value is below `v`.
    abbrev pub stop : ℕ → ℕ
    stop i = last 0 (at_level (tall sl) i before)

    pub split_level :
        (i : ℕ)
        → at_level (tall sl) i xs ≡ at_level (tall sl) i before ++ at_level (tall sl) i behind
    split_level i =
        ap (at_level (tall sl) i) (sym (low-append-high (key sl) v xs))
        ∙ at_level-append (tall sl) i before behind

    length-before-le : length before ≤ nproc
    length-before-le = omega (
      arith,
      length-append before behind,
      ap (length {A = ℕ}) (low-append-high (key sl) v xs),
      length-le-nproc,
    )

    pub length-behind-le : length behind ≤ nproc
    length-behind-le = omega (
      arith,
      length-append before behind,
      ap (length {A = ℕ}) (low-append-high (key sl) v xs),
      length-le-nproc,
    )

    abbrev IsSmall : ℕ → Type 0
    IsSmall b = ((sl.node b).valid ≡ 1) × (key sl b <ℤ v)

    valid_parts : All (λ b. (sl.node b).valid ≡ 1) (before ++ behind)
    valid_parts = rw (low-append-high (key sl) v xs) All-valid

    All-IsSmall :
        (ys : List ℕ)
        → All (λ b. (sl.node b).valid ≡ 1) ys
        → All (λ b. key sl b <ℤ v) ys
        → All IsSmall ys
    All-IsSmall [] h k = tt
    All-IsSmall (y ∷ ys) h k = ((h.0, k.0), All-IsSmall ys h.1 k.1)

    pub walk-stop :
        (i j : ℕ) → i ≤ j → i < max_skiplist_level → walk rounds sl v i (stop j) ≡ done (stop i)
    walk-stop i j le lt =
        let valid = λ (b : ℕ). (sl.node b).valid ≡ 1 in
        let chain : Chain (forwards sl i) (backwards sl i) 0
            (at_level (tall sl) i before ++ at_level (tall sl) i behind) =
          rw (split_level i) at (s.linked i lt) in
        let small =
          All-IsSmall before (All-front valid before behind valid_parts) (All-low (key sl) v xs) in
        let a =
          descend (forwards sl i) (backwards sl i) (tall sl) IsSmall i j le
            (at_level (tall sl) i behind) 0 before chain small in
        walk-last sl v i rounds (stop j) a.ys (at_level (tall sl) i behind) a.chain
          (All-append valid a.ys _ (All-map IsSmall valid a.ys (λ b m h. h.0) a.small)
            (All-at_level (tall sl) i valid behind (All-back valid before behind valid_parts)))
          (All-map IsSmall (λ b. key sl b <ℤ v) a.ys (λ b m h. h.1) a.small)
          (All-at_level (tall sl) i _ behind (All-high (key sl) v xs s.sorted))
          (omega (arith, a.short, length-before-le))
        ∙ ap done a.stop_at

    pub search_down-last :
        (i j : ℕ)
        → i ≤ j
        → i < max_skiplist_level
        → search_down sl v i (stop j) ≡ done (last 0 before)
    unfolding search_down
    search_down-last zero j le lt =
        walk-stop zero j le lt ∙ ap (λ l. done (last 0 l)) (at_level-zero (tall sl) before)
    search_down-last (suc i) j le lt =
        rw (walk-stop (suc i) j le lt) (search_down-last i (suc i) (omega arith) (omega arith))

    -- Above the top level nothing is linked: the search begins at the sentinel.
    pub stop-above : (i : ℕ) → s.top < i → stop i ≡ 0
    stop-above i lt = ap (last 0) (
        at_level-above (tall sl) i s.top before
          (All-front (λ b. tall sl b ≤ s.top) before behind
            (rw (low-append-high (key sl) v xs) s.levels))
          lt)

    pub stop-start : stop (suc s.top) ≡ 0
    stop-start = stop-above (suc s.top) (omega arith)

    pub search_down-start : search_down sl v s.top 0 ≡ done (last 0 before)
    search_down-start =
        ap (search_down sl v s.top) (sym stop-start)
        ∙ search_down-last s.top (suc s.top) (omega arith) s.top_lt

    -- The bottom level from there on.
    pub Chain-behind : Chain (forwards sl 0) (backwards sl 0) (last 0 before) behind
    Chain-behind =
        let bottom : Chain (forwards sl 0) (backwards sl 0) 0 xs =
          rw (at_level-zero (tall sl) xs) at (s.linked 0 (omega arith)) in
        Chain-suffix (forwards sl 0) (backwards sl 0) 0 before behind
          (rw (low-append-high (key sl) v xs) bottom)

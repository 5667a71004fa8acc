-- ===== src/SkipList/Search/Walk.antt =====
-- The search loops of `slInsert` and `slSearch`: where a walk along one level stops, and where the
-- walks from the top level down to a level arrive.
use bf_scheduler.Common.{
  ℕ, zero, suc, ◌≤◌, ◌<◌, ◌≡◌, refl, false, List, [], ◌∷◌, ◌++◌, arith, All, length, leb,
  Bool-cases, ◌⊎◌, inl, inr, done,
}
use bf_scheduler.Common.Int.{ℤ, ◌≤ℤ◌, ◌<ℤ◌}
use bf_scheduler.SkipList.{SkipList}
use bf_scheduler.SkipList.Chain.{Links, Chain, last}
use bf_scheduler.SkipList.Shape.{forwards, backwards, key, at_level, All-at_level, length-at_level}
use bf_scheduler.SkipList.Search.{walk, next_if}

module _ (sl : SkipList) (v : ℤ) (i : ℕ) where
  -- Along a chain of valid nodes the walk stops at the last node with a value below `v`.
  pub walk-last :
      (fuel a : ℕ) (ys zs : List ℕ)
      → Chain (forwards sl i) (backwards sl i) a (ys ++ zs)
      → All (λ b. (sl.node b).valid ≡ 1) (ys ++ zs)
      → All (λ b. key sl b <ℤ v) ys
      → All (λ b. v ≤ℤ key sl b) zs
      → length ys < fuel
      → walk fuel sl v i a ≡ done (last a ys)
  unfolding walk next_if
  walk-last zero a ys zs c ok l h lt = absurd (omega arith)
  walk-last (suc fuel) a [] [] c ok l h lt = ground arith
  walk-last (suc fuel) a [] (z ∷ zs) c ok l h lt = ground arith
  walk-last (suc fuel) a (y ∷ ys) zs c ok l h lt =
      ground (arith, walk-last fuel y ys zs c.2 ok.1 l.1 h (omega arith))

-- The part of level `i` that is still ahead of the node where the walk along level `j` stopped.
pub record Ahead (fw bw : Links) (start stop : ℕ) (zs : List ℕ) (P : ℕ → Type 0) (most : ℕ)
    : Type 0 where
  pub ys : List ℕ
  pub chain : Chain fw bw start (ys ++ zs)
  pub small : All P ys
  pub stop_at : last start ys ≡ stop
  pub short : length ys ≤ most

weaken :
    {fw bw : Links} {start stop : ℕ} {zs : List ℕ} {P : ℕ → Type 0} {most : ℕ}
    → Ahead fw bw start stop zs P most
    → Ahead fw bw start stop zs P (suc most)
weaken a = record {
  ys = a.ys;
  chain = a.chain;
  small = a.small;
  stop_at = a.stop_at;
  short = omega arith;
}

last-cases : (l : List ℕ) → (l ≡ []) ⊎ ((a b : ℕ) → last a l ≡ last b l)
last-cases [] = inl refl
last-cases (x ∷ l) = inr (λ a b. refl)

module _ (fw bw : Links) (tall : ℕ → ℕ) (P : ℕ → Type 0) (i j : ℕ) (le : i ≤ j) (zs : List ℕ) where
  pub descend :
      (a : ℕ) (ys : List ℕ)
      → Chain fw bw a (at_level tall i ys ++ zs)
      → All P ys
      → Ahead fw bw (last a (at_level tall j ys)) (last a (at_level tall i ys)) zs P (length ys)
  descend a [] c p = record { ys = []; chain = c; small = tt; stop_at = refl; short = omega arith }
  descend a (y ∷ ys) c p = elim (Bool-cases (leb i (tall y))) [
    | inr lower ↦
        let higher : leb j (tall y) ≡ false = ground arith in
        let c' : Chain fw bw a (at_level tall i ys ++ zs) = rw lower at c in
        rw (lower, higher) (weaken (descend a ys c' p.1))
    | inl e ↦
        let c' : Chain fw bw a (y ∷ at_level tall i ys ++ zs) = rw e at c in
        elim (Bool-cases (leb j (tall y))) [
          | inl keeps ↦ rw (e, keeps) (weaken (descend y ys c'.2 p.1))
          | inr drops ↦ elim (last-cases (at_level tall j ys)) [
            | inl none_left ↦
                rw (e, drops, none_left)
                  (record {
                    ys = y ∷ at_level tall i ys;
                    chain = c';
                    small = (p.0, All-at_level tall i P ys p.1);
                    stop_at = refl;
                    short = omega (arith, length-at_level tall i ys);
                  })
            | inr same ↦ rw (e, drops, same a y) (weaken (descend y ys c'.2 p.1))
          ]
        ]
  ]

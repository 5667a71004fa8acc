-- ===== src/Common/Pigeonhole.antt =====
-- Distinct numbers between 1 and `n` are at most `n` many, and `n` many if they are all of them.
use bf_scheduler.Common.Tests.{◌==◌, if◌then◌else◌}
use bf_scheduler.Common.Lists.{length, All, ◌∈◌, ◌∉◌, Distinct}
use Prim.Native.Nat.{ℕ, zero, suc, ◌≤◌}
use mathlib.Core.Path.{◌≡◌, refl}
use mathlib.Core.Bool.{false}
use mathlib.Core.List.{List, [], ◌∷◌}
use native.Mathlib.Omega.{arith}

without : ℕ → List ℕ → List ℕ
without n [] = []
without n (x ∷ xs) = let rest = without n xs in if x == n then rest else x ∷ rest

module _ (n : ℕ) where
  without-eq_of_not_mem : (xs : List ℕ) → n ∉ xs → without n xs ≡ xs
  unfolding without
  without-eq_of_not_mem [] h = refl
  without-eq_of_not_mem (x ∷ xs) h = ground (arith, without-eq_of_not_mem xs)

  not-mem-without : (a : ℕ) (xs : List ℕ) → a ∉ xs → a ∉ without n xs
  unfolding without
  not-mem-without a [] h = refl
  not-mem-without a (x ∷ xs) h = ground (arith, not-mem-without a xs)

  mem-without : (a : ℕ) (xs : List ℕ) → (a == n) ≡ false → a ∈ xs → a ∈ without n xs
  unfolding without
  mem-without a [] ne h = h
  mem-without a (x ∷ xs) ne h = ground (arith, mem-without a xs)

  Distinct-without : (xs : List ℕ) → Distinct xs → Distinct (without n xs)
  unfolding without
  Distinct-without [] d = tt
  Distinct-without (x ∷ xs) d = ground (arith, Distinct-without xs d.1, not-mem-without x xs)

  length-le-without : (xs : List ℕ) → Distinct xs → length xs ≤ suc (length (without n xs))
  unfolding without
  length-le-without [] d = omega arith
  length-le-without (x ∷ xs) d = ground (arith, length-le-without xs d.1, without-eq_of_not_mem xs)

  without-length-le : (xs : List ℕ) → length (without n xs) ≤ length xs
  unfolding without
  without-length-le [] = omega arith
  without-length-le (x ∷ xs) = ground (arith, without-length-le xs)

  without-length-lt : (xs : List ℕ) → n ∈ xs → suc (length (without n xs)) ≤ length xs
  unfolding without
  without-length-lt [] h = absurd (ground arith)
  without-length-lt (x ∷ xs) h = ground (arith, without-length-lt xs, without-length-le xs)

without-bounds :
    (n : ℕ) (xs : List ℕ)
    → All (λ b. (1 ≤ b) × (b ≤ suc n)) xs
    → All (λ b. (1 ≤ b) × (b ≤ n)) (without (suc n) xs)
unfolding without
without-bounds n [] h = tt
without-bounds n (x ∷ xs) h = ground (arith, without-bounds n xs h.1)

pub length-le_of_bounds :
    (n : ℕ) (xs : List ℕ) → Distinct xs → All (λ b. (1 ≤ b) × (b ≤ n)) xs → length xs ≤ n
length-le_of_bounds n [] d h = omega arith
length-le_of_bounds zero (x ∷ xs) d h = absurd (omega arith)
length-le_of_bounds (suc n) (x ∷ xs) d h = omega (
  arith,
  length-le-without (suc n) (x ∷ xs) d,
  length-le_of_bounds n (without (suc n) (x ∷ xs)) (Distinct-without (suc n) (x ∷ xs) d)
      (without-bounds n (x ∷ xs) h),
)

pub le-length_of_all : (n : ℕ) (xs : List ℕ) → ((a : ℕ) → 1 ≤ a → a ≤ n → a ∈ xs) → n ≤ length xs
le-length_of_all zero xs h = omega arith
le-length_of_all (suc n) xs h = omega (
  arith,
  without-length-lt (suc n) xs (h (suc n) (omega arith) (omega arith)),
  le-length_of_all n (without (suc n) xs)
      (λ a lo hi. mem-without (suc n) a xs (ground arith) (h a lo (omega arith))),
)

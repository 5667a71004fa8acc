-- ===== src/SkipList/Shape/Levels.antt =====
-- The nodes of a list that reach a level, and lists with ascending values.
use bf_scheduler.Common.{
  ℕ, ◌≤◌, ◌<◌, ◌≡◌, refl, true, false, List, [], ◌∷◌, ◌++◌, arith, has, ◌∉◌, Distinct, All, leb,
  length, if◌then◌else◌, ◌==◌, Bool-cases, inl, inr,
}
use mathlib.Core.Path.{subst}
use bf_scheduler.Common.Int.{ℤ, ◌≤ℤ◌}

-- The nodes of `xs` whose `tall` is at least `i`.
abbrev pub at_level : (ℕ → ℕ) → ℕ → List ℕ → List ℕ
at_level tall i [] = []
at_level tall i (x ∷ xs) =
    let rest = at_level tall i xs in if leb i (tall x) then x ∷ rest else rest

abbrev pub Sorted : (ℕ → ℤ) → List ℕ → Type 0
Sorted key [] = Unit
Sorted key (x ∷ xs) = All (λ y. key x ≤ℤ key y) xs × Sorted key xs

module _ (tall : ℕ → ℕ) (i : ℕ) where
  pub at_level-append :
      (ys zs : List ℕ) → at_level tall i (ys ++ zs) ≡ at_level tall i ys ++ at_level tall i zs
  at_level-append [] zs = refl
  at_level-append (y ∷ ys) zs = ground (arith, at_level-append ys zs)

  pub not-mem-at_level : (a : ℕ) (xs : List ℕ) → a ∉ xs → a ∉ at_level tall i xs
  not-mem-at_level a [] h = refl
  not-mem-at_level a (x ∷ xs) h = ground (arith, not-mem-at_level a xs)

  pub mem_of_mem-at_level :
      (a : ℕ) (xs : List ℕ) → has a (at_level tall i xs) ≡ true → has a xs ≡ true
  mem_of_mem-at_level a [] h = h
  mem_of_mem-at_level a (x ∷ xs) h = ground (arith, mem_of_mem-at_level a xs)

  pub Distinct-at_level : (xs : List ℕ) → Distinct xs → Distinct (at_level tall i xs)
  Distinct-at_level [] d = tt
  Distinct-at_level (x ∷ xs) d = ground (arith, not-mem-at_level x xs, Distinct-at_level xs)

  pub length-at_level : (xs : List ℕ) → length (at_level tall i xs) ≤ length xs
  length-at_level [] = omega arith
  length-at_level (x ∷ xs) = ground (arith, length-at_level xs)

  pub at_level-above :
      (top : ℕ) (xs : List ℕ) → All (λ b. tall b ≤ top) xs → top < i → at_level tall i xs ≡ []
  at_level-above top [] h lt = refl
  at_level-above top (x ∷ xs) h lt = ground (arith, at_level-above top xs)

  pub at_level_cong :
      (tall' : ℕ → ℕ) (xs : List ℕ)
      → ((b : ℕ) → has b xs ≡ true → tall' b ≡ tall b)
      → at_level tall' i xs ≡ at_level tall i xs
  at_level_cong tall' [] h = refl
  at_level_cong tall' (x ∷ xs) h =
      ground (arith, h x, at_level_cong tall' xs (λ b m. h b (ground arith)))

  pub All-at_level {κ} : (P : ℕ → Type κ) (xs : List ℕ) → All P xs → All P (at_level tall i xs)
  All-at_level P [] h = h
  All-at_level P (x ∷ xs) h =
      elim (leb i (tall x))
        as (λ b. All P (if b then x ∷ at_level tall i xs else at_level tall i xs)) [
          | true ↦ (h.0, All-at_level P xs h.1)
          | false ↦ All-at_level P xs h.1
        ]

pub at_level-zero : (tall : ℕ → ℕ) (xs : List ℕ) → at_level tall 0 xs ≡ xs
at_level-zero tall [] = refl
at_level-zero tall (x ∷ xs) = ground (arith, at_level-zero tall xs)

-- Facts of every element.
pub All-get {κ} : (P : ℕ → Type κ) (a : ℕ) (xs : List ℕ) → All P xs → has a xs ≡ true → P a
All-get P a [] h m = absurd (ground arith)
All-get P a (x ∷ xs) h m = elim (Bool-cases (a == x)) [
  | inl e ↦ subst P (ground arith) h.0
  | inr e ↦ All-get P a xs h.1 (ground arith)
]

pub All-map {κ μ} :
    (P : ℕ → Type κ) (Q : ℕ → Type μ) (xs : List ℕ)
    → ((b : ℕ) → has b xs ≡ true → P b → Q b)
    → All P xs
    → All Q xs
All-map P Q [] f h = tt
All-map P Q (x ∷ xs) f h = (f x (ground arith) h.0, All-map P Q xs (λ b m. f b (ground arith)) h.1)

pub All-append {κ} : (P : ℕ → Type κ) (xs ys : List ℕ) → All P xs → All P ys → All P (xs ++ ys)
All-append P [] ys hx hy = hy
All-append P (x ∷ xs) ys hx hy = (hx.0, All-append P xs ys hx.1 hy)

pub All-front {κ} : (P : ℕ → Type κ) (xs ys : List ℕ) → All P (xs ++ ys) → All P xs
All-front P [] ys h = tt
All-front P (x ∷ xs) ys h = (h.0, All-front P xs ys h.1)

pub All-back {κ} : (P : ℕ → Type κ) (xs ys : List ℕ) → All P (xs ++ ys) → All P ys
All-back P [] ys h = h
All-back P (x ∷ xs) ys h = All-back P xs ys h.1

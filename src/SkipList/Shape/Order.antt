-- ===== src/SkipList/Shape/Order.antt =====
-- Ascending lists cut at a value, and one element put in or taken out.
use bf_scheduler.Common.{
  ℕ, ◌≡◌, refl, true, List, [], ◌∷◌, ◌++◌, arith, has, ◌∉◌, Distinct, All, if◌then◌else◌, ◌==◌,
  ◌||◌, Bool-cases, inl, inr,
}
use bf_scheduler.Common.Int.{ℤ, ◌≤ℤ◌, ◌<ℤ◌, ltb_ℤ}
use bf_scheduler.SkipList.Shape.Levels.{Sorted, All-map, All-append, All-front, All-back}

module _ (key : ℕ → ℤ) (v : ℤ) where
  -- The nodes before the first one whose value is not below `v`, and the rest.
  abbrev pub low : List ℕ → List ℕ
  low [] = []
  low (x ∷ xs) = let rest = low xs in if ltb_ℤ (key x) v then x ∷ rest else []

  abbrev pub high : List ℕ → List ℕ
  high [] = []
  high (x ∷ xs) = let rest = high xs in if ltb_ℤ (key x) v then rest else x ∷ xs

module _ (key : ℕ → ℤ) (v : ℤ) where
  pub low-append-high : (xs : List ℕ) → low key v xs ++ high key v xs ≡ xs
  low-append-high [] = refl
  low-append-high (x ∷ xs) = ground (arith, low-append-high xs)

  pub All-low : (xs : List ℕ) → All (λ b. key b <ℤ v) (low key v xs)
  All-low [] = tt
  All-low (x ∷ xs) = ground (arith, All-low xs)

  pub All-high : (xs : List ℕ) → Sorted key xs → All (λ b. v ≤ℤ key b) (high key v xs)
  All-high [] s = tt
  All-high (x ∷ xs) s = elim (Bool-cases (ltb_ℤ (key x) v)) [
    | inl e ↦ rw e (All-high xs s.1)
    | inr e ↦ rw e (
      ground arith,
      All-map (λ y. key x ≤ℤ key y) (λ y. v ≤ℤ key y) xs (λ b m h. ground arith) s.0,
    )
  ]

pub Sorted-cong :
    (key key' : ℕ → ℤ) (xs : List ℕ)
    → ((b : ℕ) → has b xs ≡ true → key' b ≡ key b)
    → Sorted key xs
    → Sorted key' xs
Sorted-cong key key' [] f s = tt
Sorted-cong key key' (x ∷ xs) f s = (
  All-map (λ y. key x ≤ℤ key y) (λ y. key' x ≤ℤ key' y) xs (λ b m h. ground (arith, f x, f b)) s.0,
  Sorted-cong key key' xs (λ b m. f b (ground arith)) s.1,
)

pub Sorted-back : (key : ℕ → ℤ) (ys zs : List ℕ) → Sorted key (ys ++ zs) → Sorted key zs
Sorted-back key [] zs s = s
Sorted-back key (y ∷ ys) zs s = Sorted-back key ys zs s.1

module _ (key : ℕ → ℤ) (n : ℕ) where
  pub Sorted-insert :
      (ys zs : List ℕ)
      → Sorted key (ys ++ zs)
      → All (λ b. key b <ℤ key n) ys
      → All (λ b. key n ≤ℤ key b) zs
      → Sorted key (ys ++ n ∷ zs)
  Sorted-insert [] zs s l h = (h, s)
  Sorted-insert (y ∷ ys) zs s l h =
      let f = λ (b : ℕ). key y ≤ℤ key b in
      (
        All-append f ys (n ∷ zs) (All-front f ys zs s.0) (ground arith, All-back f ys zs s.0),
        Sorted-insert ys zs s.1 l.1 h,
      )

  pub All-remove {κ} : (P : ℕ → Type κ) (ys zs : List ℕ) → All P (ys ++ n ∷ zs) → All P (ys ++ zs)
  All-remove P [] zs h = h.1
  All-remove P (y ∷ ys) zs h = (h.0, All-remove P ys zs h.1)

  pub Sorted-remove : (ys zs : List ℕ) → Sorted key (ys ++ n ∷ zs) → Sorted key (ys ++ zs)
  Sorted-remove [] zs s = s.1
  Sorted-remove (y ∷ ys) zs s =
      (All-remove (λ b. key y ≤ℤ key b) ys zs s.0, Sorted-remove ys zs s.1)

pub All-insert {κ} :
    (P : ℕ → Type κ) (n : ℕ) (ys zs : List ℕ) → P n → All P (ys ++ zs) → All P (ys ++ n ∷ zs)
All-insert P n [] zs p h = (p, h)
All-insert P n (y ∷ ys) zs p h = (h.0, All-insert P n ys zs p h.1)

pub has-insert : (a n : ℕ) (ys zs : List ℕ) → has a (ys ++ n ∷ zs) ≡ ((a == n) || has a (ys ++ zs))
has-insert a n [] zs = refl
has-insert a n (y ∷ ys) zs = ground (arith, has-insert a n ys zs)

pub Distinct-insert :
    (n : ℕ) (ys zs : List ℕ) → n ∉ (ys ++ zs) → Distinct (ys ++ zs) → Distinct (ys ++ n ∷ zs)
Distinct-insert n [] zs out d = (out, d)
Distinct-insert n (y ∷ ys) zs out d =
    (ground (arith, has-insert y n ys zs), Distinct-insert n ys zs (ground arith) d.1)

pub Distinct-remove :
    (n : ℕ) (ys zs : List ℕ) → Distinct (ys ++ n ∷ zs) → (n ∉ (ys ++ zs)) × Distinct (ys ++ zs)
Distinct-remove n [] zs d = d
Distinct-remove n (y ∷ ys) zs d =
    let (out, rest) = Distinct-remove n ys zs d.1 in
    (ground (arith, has-insert y n ys zs), (ground (arith, has-insert y n ys zs), rest))

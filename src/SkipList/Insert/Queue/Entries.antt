-- ===== src/SkipList/Insert/Queue/Entries.antt =====
-- The queue with one entry put in, as a list and from the nodes.
use bf_scheduler.Common.{
  ℕ, ◌+◌, ◌≡◌, List, [], ◌∷◌, ◌++◌, map, arith, has, true, map_cong, if◌then◌else◌, length,
  Bool-cases, inl, inr,
}
use bf_scheduler.Common.Int.{ℤ, ltb_ℤ}
use bf_scheduler.SkipList.Shape.{low, high}

-- The entry goes before the first one whose deadline is not below its own.
unfoldable pub insert_entry : ℤ × ℤ → List (ℤ × ℤ) → List (ℤ × ℤ)
insert_entry e [] = e ∷ []
insert_entry e (x ∷ xs) =
    let rest = insert_entry e xs in if ltb_ℤ x.0 e.0 then x ∷ rest else e ∷ x ∷ xs

pub insert_entry-map :
    (old new : ℕ → ℤ × ℤ) (e : ℤ × ℤ) (n : ℕ) (xs : List ℕ)
    → ((b : ℕ) → has b xs ≡ true → new b ≡ old b)
    → new n ≡ e
    → map new (low (λ b. (old b).0) e.0 xs ++ n ∷ high (λ b. (old b).0) e.0 xs)
      ≡ insert_entry e (map old xs)
unfolding insert_entry
insert_entry-map old new e n [] f q = ground arith
insert_entry-map old new e n (x ∷ xs) f q = elim (Bool-cases (ltb_ℤ (old x).0 e.0)) [
  | inl lower ↦ ground (arith, f x, insert_entry-map old new e n xs (λ b m. f b (ground arith)) q)
  | inr other ↦ ground (arith, map_cong new old (x ∷ xs) f)
]

pub length-insert_entry : (e : ℤ × ℤ) (q : List (ℤ × ℤ)) → length (insert_entry e q) ≡ length q + 1
unfolding insert_entry
length-insert_entry e [] = omega arith
length-insert_entry e (x ∷ q) = ground (arith, length-insert_entry e q)

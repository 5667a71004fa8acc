-- ===== src/SkipList/Delete/Entries.antt =====
-- The queue without an entry, and where the node that `slSearch` finds stands.
use bf_scheduler.Common.{
  ℕ, ◌≡◌, refl, ap, Bool, List, [], ◌∷◌, ◌++◌, map, arith, if◌then◌else◌, Option, none, some, true,
  false, ◌&&◌, ◌||◌, inl, inr, Bool-cases,
}
use bf_scheduler.Common.Int.{ℤ, eqb_ℤ, eqb_ℤ→eq}
use bf_scheduler.SkipList.{SkipList}
use bf_scheduler.SkipList.Shape.{entry}
use bf_scheduler.SkipList.Search.Find.{find_node}

abbrev pub same_entry : ℤ × ℤ → ℤ × ℤ → Bool
same_entry x e = eqb_ℤ x.0 e.0 && eqb_ℤ x.1 e.1

-- The queue without the first occurrence of an entry, and whether it occurs.
unfoldable pub delete_entry : ℤ × ℤ → List (ℤ × ℤ) → List (ℤ × ℤ)
delete_entry e [] = []
delete_entry e (x ∷ xs) = let rest = delete_entry e xs in if same_entry x e then xs else x ∷ rest

unfoldable pub has_entry : ℤ × ℤ → List (ℤ × ℤ) → Bool
has_entry e [] = false
has_entry e (x ∷ xs) = same_entry x e || has_entry e xs

abbrev pub is_some {ℓ} : {A : Type ℓ} → Option A → Bool
is_some none = false
is_some (some a) = true

-- Where the found node stands.
pub record Cut (sl : SkipList) (v pid : ℤ) (xs : List ℕ) (n : ℕ) : Type 0 where
  pub front : List ℕ
  pub rear : List ℕ
  pub whole : front ++ n ∷ rear ≡ xs
  pub entries : map (entry sl) (front ++ rear) ≡ delete_entry (v, pid) (map (entry sl) xs)

module _ (sl : SkipList) (v pid : ℤ) where
  pub find_node-Cut : (xs : List ℕ) (n : ℕ) → find_node sl v pid xs ≡ some n → Cut sl v pid xs n
  unfolding delete_entry
  find_node-Cut [] n e = absurd (cc)
  find_node-Cut (x ∷ xs) n e = elim (Bool-cases (same_entry (entry sl x) (v, pid))) [
    | inl here ↦ record { front = []; rear = xs; whole = ground arith; entries = rw here }
    | inr later ↦
        let c = find_node-Cut xs n (ground arith) in
        record {
          front = x ∷ c.front;
          rear = c.rear;
          whole = ap (λ l. x ∷ l) c.whole;
          entries = rw later (ap (λ l. entry sl x ∷ l) c.entries);
        }
  ]

  pub find_node-entry :
      (xs : List ℕ) (n : ℕ)
      → find_node sl v pid xs ≡ some n
      → ((sl.node n).value ≡ v) × ((sl.node n).pid ≡ pid)
  find_node-entry [] n e = absurd (cc)
  find_node-entry (x ∷ xs) n e =
      ground
        (arith, find_node-entry xs n, eqb_ℤ→eq (sl.node x).value v, eqb_ℤ→eq (sl.node x).pid pid)

  pub find_node-none :
      (xs : List ℕ)
      → find_node sl v pid xs ≡ none
      → delete_entry (v, pid) (map (entry sl) xs) ≡ map (entry sl) xs
  unfolding delete_entry
  find_node-none [] e = refl
  find_node-none (x ∷ xs) e = ground (arith, find_node-none xs)

  pub find_node-has_entry :
      (xs : List ℕ) → is_some (find_node sl v pid xs) ≡ has_entry (v, pid) (map (entry sl) xs)
  unfolding has_entry
  find_node-has_entry [] = refl
  find_node-has_entry (x ∷ xs) = ground (arith, find_node-has_entry xs)

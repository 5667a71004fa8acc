-- ===== src/Tests/Queues.antt =====
-- The skip list at concrete lists.
use bf_scheduler.Common.{
  ℕ, zero, suc, ◌+◌, ◌≤◌, ◌≡◌, refl, sym, Bool-cases, inl, inr, List, [], ◌∷◌, arith, Option, some,
  Outcome, done, length,
}
use mathlib.Core.Path.{subst}
use bf_scheduler.Common.Int.{ℤ, pos, ltb_ℤ}
use bf_scheduler.SkipList.{SkipList, init_skip_list, chance, minus_one, nproc}
use bf_scheduler.SkipList.Shape.{Represents, entry}
use bf_scheduler.SkipList.Seed.{sl_up_level}
use bf_scheduler.SkipList.Start.{init_skip_list-Represents}
use bf_scheduler.SkipList.Search.{sl_search}
use bf_scheduler.SkipList.Search.Find.{find_node, sl_search-find_node}
use bf_scheduler.SkipList.Insert.{sl_insert}
use bf_scheduler.SkipList.Insert.Queue.{insert_entry}
use bf_scheduler.SkipList.Insert.Refine.{sl_insert-insert_entry, sl_insert_full}
use bf_scheduler.SkipList.Delete.{sl_delete}
use bf_scheduler.SkipList.Delete.Entries.{delete_entry, has_entry, is_some}
use bf_scheduler.SkipList.Delete.Refine.{sl_search-has_entry, sl_delete-delete_entry}
use bf_scheduler.Tests.{blank, stack, first_seed}

init_skip_list-Represents_example : Represents (init_skip_list blank) []
init_skip_list-Represents_example = init_skip_list-Represents blank

sl_insert-insert_entry_example :
    (sl' : SkipList) × (sl_insert stack (init_skip_list blank) first_seed (pos 1075) (pos 2) chance
      ≡ done (pos 0, sl', (sl_up_level chance first_seed).1))
    × Represents sl' (insert_entry (pos 1075, pos 2) [])
sl_insert-insert_entry_example =
    sl_insert-insert_entry stack first_seed (pos 1075) (pos 2) chance
      (init_skip_list-Represents blank) (omega arith)

-- The list that an insertion leaves.
abbrev list_of : Outcome (ℤ × SkipList × ℕ) → SkipList
list_of (done r) = r.1
list_of _ = blank

abbrev one_entry : SkipList
one_entry = list_of (sl_insert stack (init_skip_list blank) first_seed (pos 1075) (pos 2) chance)

abbrev two_entries : SkipList
two_entries = list_of (sl_insert stack one_entry 5 (pos 1063) (pos 3) chance)

one_entry-Represents : Represents one_entry (insert_entry (pos 1075, pos 2) [])
one_entry-Represents =
    let (sl', run, rep) =
      sl_insert-insert_entry stack first_seed (pos 1075) (pos 2) chance
        (init_skip_list-Represents blank) (omega arith) in
    subst (λ o. Represents (list_of o) (insert_entry (pos 1075, pos 2) [])) (sym run) rep

two_entries-Represents :
    Represents two_entries (insert_entry (pos 1063, pos 3) (insert_entry (pos 1075, pos 2) []))
unfolding insert_entry
two_entries-Represents =
    let (sl', run, rep) =
      sl_insert-insert_entry stack 5 (pos 1063) (pos 3) chance one_entry-Represents (omega arith) in
    subst
      (λ o.
        Represents (list_of o) (insert_entry (pos 1063, pos 3) (insert_entry (pos 1075, pos 2) [])))
      (sym run) rep

abbrev two : List (ℤ × ℤ)
two = insert_entry (pos 1063, pos 3) (insert_entry (pos 1075, pos 2) [])

two_in_order : two ≡ (pos 1063, pos 3) ∷ (pos 1075, pos 2) ∷ []
unfolding insert_entry
two_in_order = refl

sl_search-find_node_example :
    sl_search two_entries (pos 1075) (pos 2)
    ≡ done (find_node two_entries (pos 1075) (pos 2) two_entries-Represents.nodes)
sl_search-find_node_example = sl_search-find_node two_entries-Represents.shape (pos 1075) (pos 2)

sl_search-has_entry_example :
    (found : Option ℕ) × (sl_search two_entries (pos 1075) (pos 2) ≡ done found)
    × (is_some found ≡ has_entry (pos 1075, pos 2) two)
    × ((n : ℕ)
        → found ≡ some n
        → (1 ≤ n)
          × (n ≤ nproc)
          × ((two_entries.node n).valid ≡ 1)
          × ((two_entries.node n).value ≡ pos 1075)
          × ((two_entries.node n).pid ≡ pos 2))
sl_search-has_entry_example = sl_search-has_entry (pos 1075) (pos 2) two_entries-Represents

sl_delete-delete_entry_example :
    (found : Option ℕ) × (sl' : SkipList) × (sl_delete two_entries (pos 1063) (pos 3)
      ≡ done (found, sl'))
    × Represents sl' (delete_entry (pos 1063, pos 3) two)
    × (is_some found ≡ has_entry (pos 1063, pos 3) two)
    × ((a : ℕ) → entry sl' a ≡ entry two_entries a)
sl_delete-delete_entry_example = sl_delete-delete_entry (pos 1063) (pos 3) two_entries-Represents

-- A full list.
length-insert_entry : (e : ℤ × ℤ) (q : List (ℤ × ℤ)) → length (insert_entry e q) ≡ length q + 1
unfolding insert_entry
length-insert_entry e [] = refl
length-insert_entry e (x ∷ q) = elim (Bool-cases (ltb_ℤ x.0 e.0)) [
  | inl lower ↦ rw lower (omega (arith, length-insert_entry e q))
  | inr other ↦ rw other (omega arith)
]

abbrev filled : ℕ → SkipList
filled zero = init_skip_list blank
filled (suc n) = list_of (sl_insert stack (filled n) n (pos 1050) (pos (n + 1)) chance)

filled-Represents :
    (n : ℕ) → n ≤ nproc → (q : List (ℤ × ℤ)) × Represents (filled n) q × (length q ≡ n)
filled-Represents zero le = ([], init_skip_list-Represents blank, refl)
filled-Represents (suc n) le =
    let (q, rep, len) = filled-Represents n (omega arith) in
    let (sl', run, rep') =
      sl_insert-insert_entry stack n (pos 1050) (pos (n + 1)) chance rep (omega (arith, len)) in
    (
      insert_entry (pos 1050, pos (n + 1)) q,
      subst (λ o. Represents (list_of o) (insert_entry (pos 1050, pos (n + 1)) q)) (sym run) rep',
      omega (arith, len, length-insert_entry (pos 1050, pos (n + 1)) q),
    )

full : (q : List (ℤ × ℤ)) × Represents (filled nproc) q × (length q ≡ nproc)
full = filled-Represents nproc (omega arith)

sl_insert_full_example :
    (sl' : SkipList) × (sl_insert stack (filled nproc) first_seed (pos 1050) (pos 65) chance
      ≡ done (minus_one, sl', (sl_up_level chance first_seed).1))
    × Represents sl' full.0
sl_insert_full_example = sl_insert_full stack first_seed (pos 1050) (pos 65) chance full.1 full.2

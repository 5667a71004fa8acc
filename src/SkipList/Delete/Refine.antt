-- ===== src/SkipList/Delete/Refine.antt =====
-- `slSearch` and `slDelete` on the abstract queue.
use bf_scheduler.Common.{
  ◌≤◌, ◌∈◌, has, ℕ, suc, map_cong, ◌≡◌, refl, sym, ap, ◌∙◌, List, ◌++◌, arith, Option, none, some,
  done, Option-cases, inl, inr,
}
use bf_scheduler.Common.Int.{ℤ}
use bf_scheduler.SkipList.{SkipList, nproc}
use bf_scheduler.SkipList.Chain.{has-middle}
use bf_scheduler.SkipList.Shape.{Represents, entry, tall, All-get}
use bf_scheduler.SkipList.Search.{sl_search}
use bf_scheduler.SkipList.Search.Find.{find_node, sl_search-find_node}
use bf_scheduler.SkipList.Delete.{unlink_levels, clear_valid, sl_delete}
use bf_scheduler.SkipList.Delete.Entries.{
  delete_entry, has_entry, is_some, find_node-Cut, find_node-entry, find_node-none,
  find_node-has_entry,
}
use bf_scheduler.SkipList.Delete.Removed.{gone, left, left-value, left-pid, left-IsSkipList}

sl_delete_run :
    (sl : SkipList) (v pid : ℤ) (n top : ℕ) (after : SkipList)
    → sl.level ≡ some top
    → sl_search sl v pid ≡ done (some n)
    → unlink_levels (suc (tall sl n)) sl n ≡ done after
    → sl_delete sl v pid ≡ done (some n, clear_valid after n)
unfolding sl_delete
sl_delete_run sl v pid n top after e f g = ground arith

sl_delete-none :
    (sl : SkipList) (v pid : ℤ) (top : ℕ)
    → sl.level ≡ some top
    → sl_search sl v pid ≡ done none
    → sl_delete sl v pid ≡ done (none, sl)
unfolding sl_delete
sl_delete-none sl v pid top e f = ground arith

module _ {sl : SkipList} {q : List (ℤ × ℤ)} (v pid : ℤ) (r : Represents sl q) where
  found_iff : is_some (find_node sl v pid r.nodes) ≡ has_entry (v, pid) q
  found_iff = find_node-has_entry sl v pid r.nodes ∙ ap (has_entry (v, pid)) r.entries

  found-mem : (n : ℕ) → find_node sl v pid r.nodes ≡ some n → n ∈ r.nodes
  found-mem n e =
      let c = find_node-Cut sl v pid r.nodes n e in
      ap (has n) (sym c.whole) ∙ has-middle n c.front c.rear

  -- On a skip list `slSearch` ends. It returns a node exactly if the queue has the entry, and that
  -- node is one of 1 to `NPROC`, valid, and holds the entry.
  pub sl_search-has_entry :
      (found : Option ℕ) × (sl_search sl v pid ≡ done found)
      × (is_some found ≡ has_entry (v, pid) q)
      × ((n : ℕ)
          → found ≡ some n
          → (1 ≤ n)
            × (n ≤ nproc)
            × ((sl.node n).valid ≡ 1)
            × ((sl.node n).value ≡ v)
            × ((sl.node n).pid ≡ pid))
  sl_search-has_entry = (
    find_node sl v pid r.nodes,
    sl_search-find_node r.shape v pid,
    found_iff,
    λ n e.
        let m : n ∈ r.nodes = found-mem n e in
        let b : (1 ≤ n) × (n ≤ nproc) =
          All-get (λ (a : ℕ). (1 ≤ a) × (a ≤ nproc)) n r.nodes r.shape.bounds m in
        (
          b.0,
          b.1,
          r.shape.live n b.0 b.1 ∙ rw m refl,
          (find_node-entry sl v pid r.nodes n e).0,
          (find_node-entry sl v pid r.nodes n e).1,
        ),
  )

  -- On a skip list `slDelete` ends. It takes the first occurrence of the
  -- entry out of the queue, returns a node exactly if there was one, and changes no node's value or
  -- pid.
  pub sl_delete-delete_entry :
      (found : Option ℕ) × (sl' : SkipList) × (sl_delete sl v pid ≡ done (found, sl'))
      × Represents sl' (delete_entry (v, pid) q)
      × (is_some found ≡ has_entry (v, pid) q)
      × ((a : ℕ) → entry sl' a ≡ entry sl a)
  sl_delete-delete_entry = elim (Option-cases (find_node sl v pid r.nodes)) [
    | inl e ↦ (
      none,
      sl,
      sl_delete-none sl v pid r.shape.top r.shape.level
          (sl_search-find_node r.shape v pid ∙ ap done e),
      record {
        nodes = r.nodes;
        shape = r.shape;
        entries = sym (find_node-none sl v pid r.nodes e) ∙ ap (delete_entry (v, pid)) r.entries;
      },
      ap is_some (sym e) ∙ found_iff,
      λ a. refl,
    )
    | inr (n, e) ↦
        let c = find_node-Cut sl v pid r.nodes n e in
        (
          some n,
          left r.shape n c.front c.rear c.whole,
          sl_delete_run sl v pid n r.shape.top (gone r.shape n c.front c.rear c.whole).after
              r.shape.level (sl_search-find_node r.shape v pid ∙ ap done e)
              (gone r.shape n c.front c.rear c.whole).returned,
          record {
            nodes = c.front ++ c.rear;
            shape = left-IsSkipList r.shape n c.front c.rear c.whole;
            entries =
                map_cong (entry (left r.shape n c.front c.rear c.whole)) (entry sl)
                  (c.front ++ c.rear)
                  (λ b m. ground (
                    arith,
                    left-value r.shape n c.front c.rear c.whole b,
                    left-pid r.shape n c.front c.rear c.whole b,
                  ))
                ∙ c.entries
                ∙ ap (delete_entry (v, pid)) r.entries;
          },
          ap is_some (sym e) ∙ found_iff,
          λ a. ground (
            arith,
            left-value r.shape n c.front c.rear c.whole a,
            left-pid r.shape n c.front c.rear c.whole a,
          ),
        )
  ]

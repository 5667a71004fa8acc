-- ===== src/SkipList/Insert/Refine.antt =====
-- `slInsert` implements the insertion into the abstract queue.
use bf_scheduler.Common.{
  ℕ, suc, map_cong, [], false, Bool-cases, ◌≤◌, ◌<◌, ◌≡◌, ◌≢◌, refl, sym, ap, ◌∙◌, List, ◌∷◌, ◌++◌,
  map, arith, has, ltb, ◌==◌, if◌then◌else◌, none, some, true, done, length, Option-cases, inl, inr,
}
use bf_scheduler.Common.Pigeonhole.{length-le_of_bounds, le-length_of_all}
use bf_scheduler.Common.Int.{ℤ, pos}
use bf_scheduler.SkipList.{SkipList, nproc, minus_one, max_skiplist_level}
use bf_scheduler.SkipList.Chain.{ne_of_mem}
use bf_scheduler.SkipList.Shape.{IsSkipList, Represents, entry, tall, All-map}
use bf_scheduler.SkipList.Search.Locate.{before, behind}
use bf_scheduler.SkipList.Seed.{sl_up_level}
use bf_scheduler.SkipList.Seed.Bounds.{sl_up_level-lt}
use bf_scheduler.SkipList.Insert.{
  sl_insert, find_backs, raise_level, raise_backs, place_node, sl_find_free_node,
}
use bf_scheduler.SkipList.Insert.Backs.{find_backs-start, raise_backs-stop}
use bf_scheduler.SkipList.Insert.Free.{IsFree, sl_find_free_node-IsFree, sl_find_free_node-none}
use bf_scheduler.SkipList.Insert.Placed.Fields.{placed-value, placed-pid}
use bf_scheduler.SkipList.Insert.Placed.Chains.{IsPlace, not-mem-new, after}
use bf_scheduler.SkipList.Insert.Queue.{after-IsSkipList, insert_entry, insert_entry-map}

raise_level-node :
    (sl : SkipList) (top new_level a : ℕ) → (raise_level sl top new_level).node a ≡ sl.node a
unfolding raise_level
raise_level-node sl top new_level a = ground arith

length-map {ℓ} : {B : Type ℓ} (f : ℕ → B) (xs : List ℕ) → length (map f xs) ≡ length xs
length-map f [] = refl
length-map f (x ∷ xs) = ap suc (length-map f xs)

module _ {sl : SkipList} {xs : List ℕ} (s : IsSkipList sl xs) (v pid : ℤ) (backs : ℕ → ℕ)
    (new_level : ℕ) where
  abbrev raised : SkipList
  raised = raise_level sl s.top new_level

  -- `slFindFreeNode` fails only if all nodes are in use.
  free_if_room : length xs < nproc → sl_find_free_node raised ≢ none
  free_if_room lt e =
      let all : (a : ℕ) → 1 ≤ a → a ≤ nproc → has a xs ≡ true = λ a lo hi. ground (
        arith,
        sl_find_free_node-none raised e a lo hi,
        s.live a lo hi,
        raise_level-node sl s.top new_level a,
      ) in
      omega (arith, le-length_of_all nproc xs all)

  unused_of_free : (n : ℕ) → IsFree raised 1 n → (sl.node n).valid ≢ 1
  unused_of_free n f e = f.unused (ground (arith, raise_level-node sl s.top new_level n))

  new-not-mem : (n : ℕ) → IsFree raised 1 n → has n xs ≡ false
  new-not-mem n f = ground (arith, s.live n f.lower f.upper, unused_of_free n f)

  room_of_free : (n : ℕ) → IsFree raised 1 n → length xs < nproc
  room_of_free n f =
      length-le_of_bounds nproc (n ∷ xs) (new-not-mem n f, s.distinct)
        ((f.lower, f.upper), s.bounds)

  raised-IsSkipList : new_level < max_skiplist_level → IsSkipList raised xs
  unfolding raise_level
  raised-IsSkipList lt = elim (Bool-cases (ltb s.top new_level)) [
    | inr stays ↦ rw stays s
    | inl higher ↦ rw higher (record {
      top = new_level;
      level = refl;
      top_lt = lt;
      bounds = s.bounds;
      distinct = s.distinct;
      live = s.live;
      levels =
          All-map (λ b. tall sl b ≤ s.top) (λ b. tall sl b ≤ new_level) xs (λ b m h. ground arith)
            s.levels;
      sorted = s.sorted;
      linked = s.linked;
    })
  ]

sl_insert_run :
    (stack : ℕ → ℕ) (sl : SkipList) (seed : ℕ) (v pid : ℤ) (p top : ℕ) (backs : ℕ → ℕ)
    → sl.level ≡ some top
    → find_backs sl v top 0 stack ≡ done backs
    → sl_insert stack sl seed v pid p
      ≡ done (
        (place_node
            (raise_level sl top (sl_up_level p seed).0)
            (raise_backs top (sl_up_level p seed).0 backs)
            v
            pid
            (sl_up_level p seed).0).0,
        (place_node
            (raise_level sl top (sl_up_level p seed).0)
            (raise_backs top (sl_up_level p seed).0 backs)
            v
            pid
            (sl_up_level p seed).0).1,
        (sl_up_level p seed).1,
      )
unfolding sl_insert
sl_insert_run stack sl seed v pid p top backs e f = ground arith

module _ {sl : SkipList} {q : List (ℤ × ℤ)} (stack : ℕ → ℕ) (seed : ℕ) (v pid : ℤ) (p : ℕ)
    (r : Represents sl q) where
  abbrev drawn : ℕ
  drawn = (sl_up_level p seed).0

  abbrev backs : ℕ → ℕ
  backs = raise_backs r.shape.top drawn (find_backs-start r.shape v stack).backs

  abbrev outcome : ℤ × SkipList
  outcome = place_node (raise_level sl r.shape.top drawn) backs v pid drawn

  sl_insert-outcome :
      sl_insert stack sl seed v pid p ≡ done (outcome.0, outcome.1, (sl_up_level p seed).1)
  sl_insert-outcome =
      sl_insert_run stack sl seed v pid p r.shape.top (find_backs-start r.shape v stack).backs
        r.shape.level (find_backs-start r.shape v stack).returned

  place : (n : ℕ) → IsFree (raise_level sl r.shape.top drawn) 1 n → IsPlace r.shape v backs drawn n
  place n f = record {
    level_lt = sl_up_level-lt p seed;
    lower = f.lower;
    upper = f.upper;
    unused = unused_of_free r.shape v pid backs drawn n f;
    stops =
        raise_backs-stop r.shape v drawn (find_backs-start r.shape v stack).backs
          (find_backs-start r.shape v stack).stops;
  }

  entry_of_after :
      (n : ℕ) (f : IsFree (raise_level sl r.shape.top drawn) 1 n)
      → (b : ℕ)
      → entry (after r.shape v pid (place n f)) b ≡ (if b == n then (v, pid) else entry sl b)
  entry_of_after n f b = ground (
    arith,
    placed-value sl backs v pid r.shape.top drawn n b,
    placed-pid sl backs v pid r.shape.top drawn n b,
  )

  after-Represents :
      (n : ℕ) (f : IsFree (raise_level sl r.shape.top drawn) 1 n)
      → Represents (after r.shape v pid (place n f)) (insert_entry (v, pid) q)
  after-Represents n f = record {
    nodes = before r.shape v ++ n ∷ behind r.shape v;
    shape = after-IsSkipList r.shape v pid (place n f);
    entries =
        insert_entry-map (entry sl) (entry (after r.shape v pid (place n f))) (v, pid) n r.nodes
          (λ b m. ground (
            arith,
            entry_of_after n f b,
            ne_of_mem b n r.nodes m (not-mem-new r.shape v pid (place n f)),
          ))
          (ground (arith, entry_of_after n f n))
        ∙ ap (insert_entry (v, pid)) r.entries;
  }

  length-nodes : length r.nodes ≡ length q
  length-nodes = sym (length-map (entry sl) r.nodes) ∙ ap (length {A = ℤ × ℤ}) r.entries

  -- On a skip list whose queue has fewer than `NPROC` entries `slInsert` ends, returns
  -- 0, and puts the entry before the first one whose deadline is not below its own.
  pub sl_insert-insert_entry :
      length q < nproc
      → (sl' : SkipList) × (sl_insert stack sl seed v pid p
          ≡ done (pos 0, sl', (sl_up_level p seed).1))
        × Represents sl' (insert_entry (v, pid) q)
  unfolding place_node
  sl_insert-insert_entry lt =
      elim (Option-cases (sl_find_free_node (raise_level sl r.shape.top drawn))) [
        | inl e ↦ absurd (free_if_room r.shape v pid backs drawn (omega (arith, length-nodes)) e)
        | inr (n, e) ↦
            let f = sl_find_free_node-IsFree (raise_level sl r.shape.top drawn) n e in
            (
              after r.shape v pid (place n f),
              sl_insert-outcome ∙ rw (e, place_node) refl,
              after-Represents n f,
            )
      ]

  -- On a skip list whose queue has `NPROC` entries `slInsert` ends, returns -1 and
  -- keeps the queue.
  pub sl_insert_full :
      length q ≡ nproc
      → (sl' : SkipList) × (sl_insert stack sl seed v pid p
          ≡ done (minus_one, sl', (sl_up_level p seed).1))
        × Represents sl' q
  unfolding place_node
  sl_insert_full full = elim (Option-cases (sl_find_free_node (raise_level sl r.shape.top drawn))) [
    | inr (n, e) ↦
        let f = sl_find_free_node-IsFree (raise_level sl r.shape.top drawn) n e in
        absurd (omega (arith, length-nodes, room_of_free r.shape v pid backs drawn n f))
    | inl e ↦ (
      raise_level sl r.shape.top drawn,
      sl_insert-outcome ∙ rw (e, place_node) refl,
      record {
        nodes = r.nodes;
        shape = raised-IsSkipList r.shape v pid backs drawn (sl_up_level-lt p seed);
        entries =
            map_cong (entry (raise_level sl r.shape.top drawn)) (entry sl) r.nodes
              (λ b m. ground (arith, raise_level-node sl r.shape.top drawn b))
            ∙ r.entries;
      },
    )
  ]

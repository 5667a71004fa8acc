-- ===== src/SkipList/Insert/Queue.antt =====
-- `slInsert` on the abstract queue.
mod Entries
unfoldable pub use Entries.*
use bf_scheduler.Common.{
  ℕ, suc, ◌≤◌, ◌<◌, ◌≡◌, ◌≢◌, refl, sym, ap, ◌∙◌, List, ◌∷◌, ◌++◌, map, arith, All, has, ltb, leb,
  if◌then◌else◌, Option, none, some, true, false, ◌==◌, ◌∉◌, Outcome, done, length, Option-cases,
  inl, inr, Bool-cases,
}
use bf_scheduler.Common.Pigeonhole.{length-le_of_bounds, le-length_of_all}
use bf_scheduler.Common.Int.{ℤ, pos, ◌≤ℤ◌, ◌<ℤ◌}
use bf_scheduler.SkipList.{SkipList, nproc, max_skiplist_level, minus_one}
use bf_scheduler.SkipList.Chain.{ne_of_mem}
use bf_scheduler.SkipList.Shape.{
  IsSkipList, Represents, entry, key, tall, Sorted, low-append-high, All-low, All-high, All-map,
  All-insert, Sorted-insert, Sorted-cong, Distinct-insert, has-insert, All-front, All-back, All-get,
}
use bf_scheduler.SkipList.Search.Locate.{before, behind, length-le-nproc}
use bf_scheduler.SkipList.Seed.{sl_up_level}
use bf_scheduler.SkipList.Seed.Bounds.{sl_up_level-lt}
use bf_scheduler.SkipList.Insert.{
  sl_insert, raise_level, raise_backs, place_node, sl_find_free_node,
}
use bf_scheduler.SkipList.Insert.Backs.{find_backs-start, raise_backs-stop}
use bf_scheduler.SkipList.Insert.Free.{IsFree, sl_find_free_node-IsFree, sl_find_free_node-none}
use bf_scheduler.SkipList.Insert.Placed.Fields.{
  placed-valid, placed-value, placed-pid, placed-maxlevel, placed-level,
}
use bf_scheduler.SkipList.Insert.Placed.Chains.{
  IsPlace, not-mem-new, after, after-linked, same_tall, mem_front, mem_back,
}

module _ {sl : SkipList} {xs : List ℕ} (s : IsSkipList sl xs) (v pid : ℤ) {backs : ℕ → ℕ}
    {new_level n : ℕ} (p : IsPlace s v backs new_level n) where
  abbrev new : SkipList
  new = after s v pid p

  same_key : (b : ℕ) → has b xs ≡ true → key new b ≡ key sl b
  same_key b m = ground (
    arith,
    placed-value sl backs v pid s.top new_level n b,
    ne_of_mem b n xs m (not-mem-new s v pid p),
  )

  new_key : key new n ≡ v
  new_key = ground (arith, placed-value sl backs v pid s.top new_level n n)

  after-Sorted : Sorted (key new) (before s v ++ n ∷ behind s v)
  after-Sorted =
      Sorted-insert (key new) n (before s v) (behind s v)
        (rw (low-append-high (key sl) v xs) (Sorted-cong (key sl) (key new) xs same_key s.sorted))
        (All-map (λ b. key sl b <ℤ v) (λ b. key new b <ℤ key new n) (before s v)
          (λ b m h. ground (arith, new_key, same_key b (mem_front s v pid p b m)))
          (All-low (key sl) v xs))
        (All-map (λ b. v ≤ℤ key sl b) (λ b. key new n ≤ℤ key new b) (behind s v)
          (λ b m h. ground (arith, new_key, same_key b (mem_back s v pid p b m)))
          (All-high (key sl) v xs s.sorted))

  -- After the new node is filled in and linked the array is a skip list.
  pub after-IsSkipList : IsSkipList new (before s v ++ n ∷ behind s v)
  after-IsSkipList = record {
    top = if ltb s.top new_level then new_level else s.top;
    level = placed-level sl backs v pid s.top new_level n s.level;
    top_lt = ground (arith, s.top_lt, p.level_lt);
    bounds =
        All-insert (λ b. (1 ≤ b) × (b ≤ nproc)) n (before s v) (behind s v) (p.lower, p.upper)
          (rw (low-append-high (key sl) v xs) s.bounds);
    distinct =
        Distinct-insert n (before s v) (behind s v)
          (rw (low-append-high (key sl) v xs) (not-mem-new s v pid p))
          (rw (low-append-high (key sl) v xs) s.distinct);
    live = λ a lo hi. ground (
      arith,
      placed-valid sl backs v pid s.top new_level n a,
      s.live a lo hi,
      has-insert a n (before s v) (behind s v),
      ap (has a) (low-append-high (key sl) v xs),
    );
    levels =
        All-insert _ n (before s v) (behind s v)
          (ground (arith, placed-maxlevel sl backs v pid s.top new_level n n))
          (rw (low-append-high (key sl) v xs) (
            All-map (λ b. tall sl b ≤ s.top)
              (λ b. tall new b ≤ (if ltb s.top new_level then new_level else s.top)) xs
              (λ b m h. ground (arith, same_tall s v pid p b m)) s.levels));
    sorted = after-Sorted;
    linked = after-linked s v pid p;
  }

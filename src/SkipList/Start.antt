-- ===== src/SkipList/Start.antt =====
-- `initSkipList` and the list before it has run.
use bf_scheduler.Common.{ℕ, ◌≡◌, refl, none, [], arith, done}
use bf_scheduler.Common.Int.{ℤ}
use bf_scheduler.SkipList.{SkipList, init_skip_list, minus_one}
use bf_scheduler.SkipList.Shape.{Represents}
use bf_scheduler.SkipList.Search.{sl_search}
use bf_scheduler.SkipList.Insert.{sl_insert}
use bf_scheduler.SkipList.Delete.{sl_delete}

-- Whatever the array held, `initSkipList` leaves a skip list of the empty queue.
pub init_skip_list-Represents : (sl : SkipList) → Represents (init_skip_list sl) []
unfolding init_skip_list
init_skip_list-Represents sl = record {
  nodes = [];
  shape = record {
    top = 0;
    level = refl;
    top_lt = omega arith;
    bounds = tt;
    distinct = tt;
    live = λ a lo hi. ground arith;
    levels = tt;
    sorted = tt;
    linked = λ i lt. ground arith;
  };
  entries = refl;
}

-- At level -1 no operation touches the list: the insertion returns -1, the search and the deletion
-- find nothing.
pub uninitialised :
    (stack : ℕ → ℕ) (sl : SkipList) (seed : ℕ) (v pid : ℤ) (p : ℕ)
    → sl.level ≡ none
    → (sl_insert stack sl seed v pid p ≡ done (minus_one, sl, seed))
      × (sl_search sl v pid ≡ done none)
      × (sl_delete sl v pid ≡ done (none, sl))
unfolding sl_insert sl_search sl_delete
uninitialised stack sl seed v pid p e = (ground arith, ground arith, ground arith)

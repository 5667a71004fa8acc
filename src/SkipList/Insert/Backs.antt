-- ===== src/SkipList/Insert/Backs.antt =====
-- Parts 1 and 2 of `slInsert`: the nodes behind which the new node goes.
use bf_scheduler.Common.{
  ℕ, zero, suc, ◌≤◌, ◌<◌, ◌≡◌, List, arith, Outcome, done, sym, ap, ◌∙◌, update, ◌==◌, ==→eq,
  Bool-cases, inl, inr, update_self,
}
use bf_scheduler.Common.Int.{ℤ}
use bf_scheduler.SkipList.{SkipList, max_skiplist_level}
use bf_scheduler.SkipList.Shape.{IsSkipList}
use bf_scheduler.SkipList.Search.Locate.{stop, walk-stop, stop-start, stop-above}
use bf_scheduler.SkipList.Insert.{find_backs, raise_backs}

-- `backs` holds the stops of the levels up to `i`.
pub record Found {sl : SkipList} {xs : List ℕ} (s : IsSkipList sl xs) (v : ℤ) (i : ℕ)
    (run : Outcome (ℕ → ℕ)) (old : ℕ → ℕ) : Type 0 where
  pub backs : ℕ → ℕ
  pub returned : run ≡ done backs
  pub stops : (k : ℕ) → k ≤ i → backs k ≡ stop s v k
  pub others : (k : ℕ) → i < k → backs k ≡ old k

module _ {sl : SkipList} {xs : List ℕ} (s : IsSkipList sl xs) (v : ℤ) where
  find_backs-Found :
      (i j : ℕ) (old : ℕ → ℕ)
      → i ≤ j
      → i < max_skiplist_level
      → Found s v i (find_backs sl v i (stop s v j) old) old
  unfolding find_backs
  find_backs-Found zero j old le lt = record {
    backs = update old 0 (stop s v 0);
    returned = rw (walk-stop s v 0 j le lt);
    stops = λ k h. ground (arith, ap (stop s v) (let e : k ≡ 0 = omega arith in e));
    others = λ k h. ground arith;
  }
  find_backs-Found (suc i) j old le lt =
      let rest =
        find_backs-Found i (suc i) (update old (suc i) (stop s v (suc i))) (omega arith)
          (omega arith) in
      record {
        backs = rest.backs;
        returned = rw (walk-stop s v (suc i) j le lt) rest.returned;
        stops = λ k h. elim (Bool-cases (k == suc i)) [
          | inl same ↦
              rw (==→eq k (suc i) same)
                (rest.others (suc i) (omega arith) ∙ update_self old (suc i) (stop s v (suc i)))
          | inr other ↦ rest.stops k (ground arith)
        ];
        others = λ k h. ground (arith, rest.others k);
      }

  -- From the sentinel at the top level.
  pub find_backs-start : (old : ℕ → ℕ) → Found s v s.top (find_backs sl v s.top 0 old) old
  find_backs-start old =
      let all = find_backs-Found s.top (suc s.top) old (omega arith) s.top_lt in
      record {
        backs = all.backs;
        returned = ap (λ c. find_backs sl v s.top c old) (sym (stop-start s v)) ∙ all.returned;
        stops = all.stops;
        others = all.others;
      }

  -- The raised levels begin at the sentinel, which is where the search would stop there.
  pub raise_backs-stop :
      (new_level : ℕ) (backs : ℕ → ℕ)
      → ((k : ℕ) → k ≤ s.top → backs k ≡ stop s v k)
      → (k : ℕ) → k ≤ new_level
      → raise_backs s.top new_level backs k ≡ stop s v k
  unfolding raise_backs
  raise_backs-stop new_level backs h k le = ground (arith, h k, stop-above s v k)

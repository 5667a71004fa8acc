-- ===== src/Scheduler/Choice/First.antt =====
-- The first node of the skip list, and the process of its pid.
use bf_scheduler.Common.{
  ℕ, zero, suc, ◌<◌, ◌≡◌, true, List, [], ◌∷◌, map, arith, ◌==◌, All, Bool-cases, inl, inr, ◌∙◌,
  sym, ap, ==→eq,
}
use mathlib.Core.Bool.{false≢true}
use bf_scheduler.Common.Int.{ℤ, eqb_ℤ, eqb_ℤ→eq, eqb_ℤ_refl, ◌≤ℤ◌}
use bf_scheduler.SkipList.{SkipList}
use bf_scheduler.SkipList.Chain.{first, first_of_Chain}
use bf_scheduler.SkipList.Shape.{
  IsSkipList, entry, key, tall, forwards, backwards, Sorted, at_level-zero,
}
use bf_scheduler.SkipList.Delete.Entries.{has_entry}
use bf_scheduler.Process.{Proc}
use bf_scheduler.Scheduler.{first_node, with_pid}
use bf_scheduler.Scheduler.Queue.{same_entry_refl}
use bf_scheduler.Scheduler.Owners.{All_has_entry}

first_link : {sl : SkipList} {xs : List ℕ} → IsSkipList sl xs → (sl.node 0).forward 0 ≡ first xs
first_link {sl} {xs} s =
    first_of_Chain (forwards sl 0) (backwards sl 0) 0 xs
      (rw (at_level-zero (tall sl) xs) at (s.linked 0 (omega arith)))

pub first_node-nodes : {sl : SkipList} (xs : List ℕ) → IsSkipList sl xs → first_node sl ≡ first xs
unfolding first_node
first_node-nodes [] s = ground (arith, first_link s)
first_node-nodes (b ∷ xs) s =
    ground (arith, first_link s, s.live b s.bounds.0.0 s.bounds.0.1, s.bounds.0)

All-key-map :
    (sl : SkipList) (v : ℤ) (xs : List ℕ)
    → All (λ b. v ≤ℤ key sl b) xs
    → All (λ (e : ℤ × ℤ). v ≤ℤ e.0) (map (entry sl) xs)
All-key-map sl v [] h = tt
All-key-map sl v (x ∷ xs) h = (h.0, All-key-map sl v xs h.1)

-- No entry of the queue has a deadline below that of the first node.
pub first_le :
    (sl : SkipList) (b : ℕ) (xs : List ℕ)
    → Sorted (key sl) (b ∷ xs)
    → (d : ℤ × ℤ) → has_entry d (map (entry sl) (b ∷ xs)) ≡ true
    → key sl b ≤ℤ d.0
first_le sl b xs s d m =
    All_has_entry (λ (e : ℤ × ℤ). key sl b ≤ℤ e.0) d (map (entry sl) (b ∷ xs))
      (omega arith, All-key-map sl (key sl b) xs s.0) m

pub has_first : (e : ℤ × ℤ) (q : List (ℤ × ℤ)) → has_entry e (e ∷ q) ≡ true
unfolding has_entry
has_first e q = ground (arith, same_entry_refl e)

-- The loop finds the one process that has the pid.
pub with_pid_unique :
    (n : ℕ) (proc : ℕ → Proc) (pid : ℤ) (next i : ℕ)
    → i < n
    → (proc i).pid ≡ pid
    → ((j : ℕ) → j < n → (proc j).pid ≡ pid → j ≡ i)
    → with_pid n proc pid next ≡ i
unfolding with_pid
with_pid_unique zero proc pid next i lt e only = absurd (omega arith)
with_pid_unique (suc n) proc pid next i lt e only = elim (Bool-cases (eqb_ℤ (proc n).pid pid)) [
  | inl match ↦ rw match (only n (omega arith) (eqb_ℤ→eq _ _ match))
  | inr other ↦ elim (Bool-cases (i == n)) [
    | inl same ↦
        let e' : (proc n).pid ≡ pid = ap (λ j. (proc j).pid) (sym (==→eq i n same)) ∙ e in
        absurd (false≢true (sym other ∙ ap (λ p. eqb_ℤ p pid) e' ∙ eqb_ℤ_refl pid))
    | inr below ↦
        rw other
          (with_pid_unique n proc pid next i (ground arith) e (λ j l q. only j (omega arith) q))
  ]
]

-- ===== src/SkipList/Search.antt =====
-- `slSearch` of proc.c, and the walk that it shares with `slInsert`.
pub mod Walk
pub mod Locate
pub mod Find
use bf_scheduler.Common.{
  ℕ, zero, suc, ◌+◌, Bool, Option, none, some, ◌==◌, if◌then◌else◌, Outcome, done, out_of_fuel,
  ◌>>=◌,
}
use bf_scheduler.Common.Int.{ℤ, ltb_ℤ, eqb_ℤ}
use bf_scheduler.SkipList.{nproc, SkipList}

-- The arguments of `dbgprintf` are evaluated whether it prints or not: those in the loops read
-- `nodeList[-1]` behind the last node (`SkipList.before`), and no variable keeps what they read.
-- The test of the search loops: the next node, if there is one, it is valid and its value passes.
unfoldable pub next_if : SkipList → (ℤ → Bool) → ℕ → ℕ → Option ℕ
next_if sl test i cur = elim ((sl.node cur).forward i) [
  | none ↦ none
  | some b ↦
      if (sl.node b).valid == 0 then none else if test (sl.node b).value then some b else none
]

-- Moving right at level `i` while the next value is below `v`; the last node reached.
unfoldable pub walk : ℕ → SkipList → ℤ → ℕ → ℕ → Outcome ℕ
walk zero sl v i cur = out_of_fuel
walk (suc fuel) sl v i cur = elim (next_if sl (λ x. ltb_ℤ x v) i cur) [
  | none ↦ done cur
  | some b ↦ walk fuel sl v i b
]

-- A walk visits each of the `NPROC` nodes at most once.
abbrev pub rounds : ℕ
rounds = nproc + 1

-- Part 1 of `slSearch`.
pub search_down : SkipList → ℤ → ℕ → ℕ → Outcome ℕ
search_down sl v zero cur = walk rounds sl v 0 cur
search_down sl v (suc i) cur = walk rounds sl v (suc i) cur >>= λ c. search_down sl v i c

-- Part 2 of `slSearch`: along the bottom level while the value is `v`, for the pid.
pub scan : ℕ → SkipList → ℤ → ℤ → ℕ → Outcome (Option ℕ)
scan zero sl v pid cur = out_of_fuel
scan (suc fuel) sl v pid cur = elim (next_if sl (λ x. eqb_ℤ x v) 0 cur) [
  | none ↦ done none
  | some b ↦
      let rest = scan fuel sl v pid b in if eqb_ℤ (sl.node b).pid pid then done (some b) else rest
]

-- `slSearch`
unfoldable pub sl_search : SkipList → ℤ → ℤ → Outcome (Option ℕ)
unfolding search_down scan walk next_if
sl_search sl v pid = elim sl.level [
  | none ↦ done none
  | some top ↦ search_down sl v top 0 >>= λ c. scan rounds sl v pid c
]

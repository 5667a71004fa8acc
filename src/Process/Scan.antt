-- ===== src/Process/Scan.antt =====
-- The loops `for(p = ptable.proc; p < &ptable.proc[NPROC]; p++)` that stop at the first process that
-- passes a test.
use bf_scheduler.Common.{
  ℕ, zero, suc, ◌+◌, ◌≤◌, ◌<◌, ◌≡◌, Bool, true, false, Option, none, some, arith, if◌then◌else◌,
  Bool-cases, inl, inr, ◌==◌,
}

-- The first of the `k` indices from `i` that passes.
unfoldable pub first_from : (ℕ → Bool) → ℕ → ℕ → Option ℕ
first_from test zero i = none
first_from test (suc k) i = let rest = first_from test k (suc i) in if test i then some i else rest

-- `j` passes, it is one of the indices from `i` up to `n`, and those before it do not pass.
pub record IsFirst (test : ℕ → Bool) (i n j : ℕ) : Type 0 where
  pub lower : i ≤ j
  pub upper : j < n
  pub passes : test j ≡ true
  pub fails : (l : ℕ) → i ≤ l → l < j → test l ≡ false

pub first_from-IsFirst :
    (test : ℕ → Bool) (k i j : ℕ) → first_from test k i ≡ some j → IsFirst test i (i + k) j
unfolding first_from
first_from-IsFirst test zero i j e = absurd (cc)
first_from-IsFirst test (suc k) i j e = elim (Bool-cases (test i)) [
  | inl hit ↦ record {
    lower = ground arith;
    upper = ground arith;
    passes = ground arith;
    fails = λ l lo hi. ground arith;
  }
  | inr miss ↦
      let f = first_from-IsFirst test k (suc i) j (ground arith) in
      record {
        lower = omega (arith, f.lower);
        upper = omega (arith, f.upper);
        passes = f.passes;
        fails = λ l lo hi. elim (Bool-cases (l == i)) [
          | inl here ↦ ground arith
          | inr later ↦ f.fails l (ground arith) hi
        ];
      }
]

pub first_from-none :
    (test : ℕ → Bool) (k i : ℕ)
    → first_from test k i ≡ none
    → (l : ℕ) → i ≤ l
    → l < i + k
    → test l ≡ false
unfolding first_from
first_from-none test zero i e l lo hi = absurd (omega arith)
first_from-none test (suc k) i e l lo hi = elim (Bool-cases (l == i)) [
  | inl here ↦ ground arith
  | inr later ↦ first_from-none test k (suc i) (ground arith) l (ground arith) (omega arith)
]

-- ===== src/SkipList/Shape/Same.antt =====
-- Two states of the array whose nodes differ at most in their links.
use bf_scheduler.Common.{ℕ, ◌≡◌, refl, arith}
use bf_scheduler.SkipList.{SkipList}

-- The fields that linking and unlinking leave alone.
pub record SameNodes (sl sl' : SkipList) : Type 0 where
  pub level : sl'.level ≡ sl.level
  pub valid : (a : ℕ) → (sl'.node a).valid ≡ (sl.node a).valid
  pub value : (a : ℕ) → (sl'.node a).value ≡ (sl.node a).value
  pub pid : (a : ℕ) → (sl'.node a).pid ≡ (sl.node a).pid
  pub maxlevel : (a : ℕ) → (sl'.node a).maxlevel ≡ (sl.node a).maxlevel

pub SameNodes-refl : (sl : SkipList) → SameNodes sl sl
SameNodes-refl sl = record {
  level = refl;
  valid = λ a. refl;
  value = λ a. refl;
  pid = λ a. refl;
  maxlevel = λ a. refl;
}

pub SameNodes-trans : {s t u : SkipList} → SameNodes s t → SameNodes t u → SameNodes s u
SameNodes-trans p q = record {
  level = ground arith;
  valid = λ a. ground (arith, p.valid a, q.valid a);
  value = λ a. ground (arith, p.value a, q.value a);
  pid = λ a. ground (arith, p.pid a, q.pid a);
  maxlevel = λ a. ground (arith, p.maxlevel a, q.maxlevel a);
}

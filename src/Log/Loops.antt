-- ===== src/Log/Loops.antt =====
-- What the loops of `install_trans` and `write_log` leave of the cache and of the disk.
use bf_scheduler.Common.{
  ℕ, zero, suc, ◌+◌, ◌-◌, ◌≤◌, ◌<◌, ◌≡◌, refl, false, arith, ◌==◌, ==→eq, Bool-cases, ◌⊎◌, inl, inr,
}
use bf_scheduler.Log.{Store, write_block, LogHeader, install_trans, write_log, log_size}

-- A block outside the log.
abbrev pub IsHome : ℕ → ℕ → Type 0
IsHome start b = (b < start) ⊎ (start + log_size < b)

-- The blocks of a transaction lie outside the log, each stands in it once, and there is room.
pub record IsTransaction (start : ℕ) (lh : LogHeader) : Type 0 where
  pub fits : lh.n ≤ log_size
  pub home : (i : ℕ) → i < lh.n → IsHome start (lh.block i)
  pub once : (i j : ℕ) → i < j → j < lh.n → (lh.block i == lh.block j) ≡ false

pub in_log_ne :
    {start : ℕ} {lh : LogHeader}
    → IsTransaction start lh
    → (a i : ℕ) → start ≤ a
    → a ≤ start + log_size
    → i < lh.n
    → (a == lh.block i) ≡ false
in_log_ne tr a i lo hi lt = ground (arith, tr.home i lt)

module _ (start : ℕ) (lh : LogHeader) where
  pub install_trans-power : (t : ℕ) (s : Store) → (install_trans start lh t s).power ≡ s.power - t
  unfolding install_trans write_block
  install_trans-power zero s = omega arith
  install_trans-power (suc t) s = omega (arith, install_trans-power t s)

  pub install_trans_dead :
      (t : ℕ) (s : Store) (b : ℕ) → s.power ≡ 0 → (install_trans start lh t s).disk b ≡ s.disk b
  unfolding install_trans write_block
  install_trans_dead zero s b e = refl
  install_trans_dead (suc t) s b e =
      ground (arith, install_trans_dead t s b, install_trans-power t s)

  pub install_trans-disk :
      (t : ℕ) (s : Store) (b : ℕ)
      → ((i : ℕ) → i < t → (b == lh.block i) ≡ false)
      → (install_trans start lh t s).disk b ≡ s.disk b
  unfolding install_trans write_block
  install_trans-disk zero s b out = refl
  install_trans-disk (suc t) s b out =
      ground (arith, install_trans-disk t s b (λ i lt. out i (omega arith)), out t (omega arith))

  pub install_trans-mem :
      (t : ℕ) (s : Store) (b : ℕ)
      → ((i : ℕ) → i < t → (b == lh.block i) ≡ false)
      → (install_trans start lh t s).mem b ≡ s.mem b
  unfolding install_trans write_block
  install_trans-mem zero s b out = refl
  install_trans-mem (suc t) s b out =
      ground (arith, install_trans-mem t s b (λ i lt. out i (omega arith)), out t (omega arith))

  -- With enough power each block of the transaction has its new contents.
  pub install_trans-listed :
      (t : ℕ) (s : Store)
      → IsTransaction start lh
      → t ≤ lh.n
      → t ≤ s.power
      → (i : ℕ) → i < t
      → (install_trans start lh t s).disk (lh.block i) ≡ s.mem (start + i + 1)
  unfolding install_trans write_block
  install_trans-listed zero s tr le p i lt = absurd (omega arith)
  install_trans-listed (suc t) s tr le p i lt = elim (Bool-cases (i == t)) [
    | inl here ↦ rw (==→eq i t here) (
        ground (
          arith,
          install_trans-power t s,
          install_trans-mem t s (start + t + 1) (λ j l.
              in_log_ne tr (start + t + 1) j (omega arith) (omega (arith, tr.fits)) (omega arith)),
        ))
    | inr before ↦ ground (
      arith,
      install_trans-listed t s tr (omega arith) (omega arith) i (ground arith),
      tr.once i t (ground arith) le,
    )
  ]

  pub write_log-power : (t : ℕ) (s : Store) → (write_log start lh t s).power ≡ s.power - t
  unfolding write_log write_block
  write_log-power zero s = omega arith
  write_log-power (suc t) s = omega (arith, write_log-power t s)

  pub write_log-disk :
      (t : ℕ) (s : Store) (b : ℕ)
      → (b ≤ start) ⊎ (start + t < b)
      → (write_log start lh t s).disk b ≡ s.disk b
  unfolding write_log write_block
  write_log-disk zero s b out = refl
  write_log-disk (suc t) s b out = ground (arith, write_log-disk t s b (omega arith))

  pub write_log-mem :
      (t : ℕ) (s : Store) (b : ℕ)
      → (b ≤ start) ⊎ (start + t < b)
      → (write_log start lh t s).mem b ≡ s.mem b
  unfolding write_log write_block
  write_log-mem zero s b out = refl
  write_log-mem (suc t) s b out = ground (arith, write_log-mem t s b (omega arith))

  -- The log's blocks in the cache, and with enough power on the disk.
  pub write_log-copy :
      (t : ℕ) (s : Store)
      → IsTransaction start lh
      → t ≤ lh.n
      → (i : ℕ) → i < t
      → ((write_log start lh t s).mem (start + i + 1) ≡ s.mem (lh.block i))
        × (t ≤ s.power → (write_log start lh t s).disk (start + i + 1) ≡ s.mem (lh.block i))
  unfolding write_log write_block
  write_log-copy zero s tr le i lt = absurd (omega arith)
  write_log-copy (suc t) s tr le i lt = elim (Bool-cases (i == t)) [
    | inl here ↦ rw (==→eq i t here) (
        ground (
          arith,
          write_log-power t s,
          write_log-mem t s (lh.block t) (ground (arith, tr.home t le, tr.fits)),
        ))
    | inr before ↦ ground (arith, write_log-copy t s tr (omega arith) i (ground arith))
  ]

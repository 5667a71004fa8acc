-- ===== src/Strings/Copy.antt =====
-- `strncpy`, `safestrcpy` and `strncmp` on strings that do not overlap.
use bf_scheduler.Common.{
  ℕ, zero, suc, ◌+◌, ◌≤◌, ◌<◌, ◌≡◌, refl, Bool, false, ◌||◌, arith, ◌==◌, if◌then◌else◌, update,
  ◌⊎◌, inl, inr, Bool-cases, ◌∙◌,
}
use bf_scheduler.Strings.{Memory, zero_fill, strncpy, safe_copy, safestrcpy}
use bf_scheduler.Strings.Move.{inside}

-- Two ranges of `n` bytes without a common address.
abbrev pub Apart : ℕ → ℕ → ℕ → Type 0
Apart s t n = (s + n ≤ t) ⊎ (t + n ≤ s)

-- Whether one of the first `i` bytes from `t` on is NUL.
abbrev pub ends_before : Memory → ℕ → ℕ → Bool
ends_before m t zero = false
ends_before m t (suc i) = (m t == 0) || ends_before m (t + 1) i

pub ends_before_cong :
    (m m' : Memory) (t i : ℕ)
    → ((a : ℕ) → t ≤ a → a < t + i → m' a ≡ m a)
    → ends_before m' t i ≡ ends_before m t i
ends_before_cong m m' t zero h = refl
ends_before_cong m m' t (suc i) h = ground (
  arith,
  h t (omega arith) (omega arith),
  ends_before_cong m m' (t + 1) i (λ a lo hi. h a (omega arith) (omega arith)),
)

zero_fill-inside :
    (n s : ℕ) (m : Memory) (a : ℕ) → zero_fill n s m a ≡ (if inside a s n then 0 else m a)
unfolding zero_fill
zero_fill-inside zero s m a = ground arith
zero_fill-inside (suc n) s m a = ground (arith, zero_fill-inside n (s + 1) (update m s 0) a)

strncpy-outside : (n s t : ℕ) (m : Memory) (a : ℕ) → inside a s n ≡ false → strncpy s t n m a ≡ m a
unfolding strncpy
strncpy-outside zero s t m a out = refl
strncpy-outside (suc n) s t m a out = ground (
  arith,
  zero_fill-inside n (s + 1) (update m s (m t)) a,
  strncpy-outside n (s + 1) (t + 1) (update m s (m t)) a (ground arith),
)

source_kept :
    (s t n i : ℕ) (m : Memory) (v : ℕ)
    → Apart s t (suc n)
    → i ≤ n
    → ends_before (update m s v) (t + 1) i ≡ ends_before m (t + 1) i
source_kept s t n i m v h le = ends_before_cong m (update m s v) (t + 1) i (λ a lo hi. ground arith)

strncpy-inside :
    (n s t : ℕ) (m : Memory) (i : ℕ)
    → Apart s t n
    → i < n
    → strncpy s t n m (s + i) ≡ (if ends_before m t (suc i) then 0 else m (t + i))
unfolding strncpy
strncpy-inside zero s t m i h lt = absurd (omega arith)
strncpy-inside (suc n) s t m zero h lt = ground (
  arith,
  zero_fill-inside n (s + 1) (update m s (m t)) (s + 0),
  strncpy-outside n (s + 1) (t + 1) (update m s (m t)) (s + 0) (ground arith),
)
strncpy-inside (suc n) s t m (suc i) h lt =
    let e : s + suc i ≡ s + 1 + i = omega arith in
    let e' : t + suc i ≡ t + 1 + i = omega arith in
    rw (e, e')
      (elim (Bool-cases (m t == 0)) [
        | inl end ↦
            rw end (zero_fill-inside n (s + 1) (update m s (m t)) (s + 1 + i) ∙ ground arith)
        | inr more ↦ rw more (
            strncpy-inside n (s + 1) (t + 1) (update m s (m t)) i (omega arith) (omega arith)
            ∙ rw (source_kept s t n (suc i) m (m t) h (omega arith)) (ground arith))
      ])

-- `strncpy` to a range apart from the source fills exactly `n` bytes: the string, and NULs from its
-- end on. All other bytes are as before.
pub strncpy_lem :
    (n s t : ℕ) (m : Memory) (i a : ℕ)
    → Apart s t n
    → (i < n → strncpy s t n m (s + i) ≡ (if ends_before m t (suc i) then 0 else m (t + i)))
      × (inside a s n ≡ false → strncpy s t n m a ≡ m a)
strncpy_lem n s t m i a h = (strncpy-inside n s t m i h, strncpy-outside n s t m a)

safe_copy-outside :
    (n s t : ℕ) (m : Memory) (a : ℕ) → inside a s (suc n) ≡ false → safe_copy s t n m a ≡ m a
unfolding safe_copy
safe_copy-outside zero s t m a out = ground arith
safe_copy-outside (suc n) s t m a out =
    ground (arith, safe_copy-outside n (s + 1) (t + 1) (update m s (m t)) a (ground arith))

-- The length of the copy: up to the NUL of the source, at most `n`.
abbrev pub copied : Memory → ℕ → ℕ → ℕ
copied m t zero = 0
copied m t (suc n) = let rest = copied m (t + 1) n in if m t == 0 then 0 else suc rest

copied_cong :
    (m m' : Memory) (t n : ℕ)
    → ((a : ℕ) → t ≤ a → a < t + n → m' a ≡ m a)
    → copied m' t n ≡ copied m t n
copied_cong m m' t zero h = refl
copied_cong m m' t (suc n) h = ground (
  arith,
  h t (omega arith) (omega arith),
  copied_cong m m' (t + 1) n (λ a lo hi. h a (omega arith) (omega arith)),
)

copied-le : (m : Memory) (t n : ℕ) → copied m t n ≤ n
copied-le m t zero = omega arith
copied-le m t (suc n) = ground (arith, copied-le m (t + 1) n)

safe_copy-inside :
    (n s t : ℕ) (m : Memory) (i : ℕ)
    → Apart s t (suc n)
    → i ≤ copied m t n
    → safe_copy s t n m (s + i) ≡ (if i == copied m t n then 0 else m (t + i))
unfolding safe_copy
safe_copy-inside zero s t m i h le = ground arith
safe_copy-inside (suc n) s t m zero h le =
    ground (arith, safe_copy-outside n (s + 1) (t + 1) (update m s (m t)) (s + 0) (ground arith))
safe_copy-inside (suc n) s t m (suc i) h le =
    let e : s + suc i ≡ s + 1 + i = omega arith in
    let e' : t + suc i ≡ t + 1 + i = omega arith in
    let k : copied (update m s (m t)) (t + 1) n ≡ copied m (t + 1) n =
      copied_cong m (update m s (m t)) (t + 1) n (λ a lo hi. ground arith) in
    rw (e, e')
      (elim (Bool-cases (m t == 0)) [
        | inl end ↦ absurd (ground arith)
        | inr more ↦ rw more (
            safe_copy-inside n (s + 1) (t + 1) (update m s (m t)) i (omega arith)
              (ground (arith, k))
            ∙ rw k (ground (arith, copied-le m (t + 1) n)))
      ])

-- `safestrcpy` to a range of `n > 0` bytes apart from the source: the bytes of the string, up to its
-- end and at most `n - 1`, and a NUL behind them. Nothing outside the range changes.
pub safestrcpy_lem :
    (n s t : ℕ) (m : Memory) (i a : ℕ)
    → Apart s t (suc n)
    → (copied m t n ≤ n)
      × (i < copied m t n → safestrcpy s t (suc n) m (s + i) ≡ m (t + i))
      × (safestrcpy s t (suc n) m (s + copied m t n) ≡ 0)
      × (inside a s (suc n) ≡ false → safestrcpy s t (suc n) m a ≡ m a)
unfolding safestrcpy
safestrcpy_lem n s t m i a h = (
  copied-le m t n,
  λ lt. safe_copy-inside n s t m i h (omega arith) ∙ ground arith,
  safe_copy-inside n s t m (copied m t n) h (omega arith) ∙ ground arith,
  safe_copy-outside n s t m a,
)

-- ===== src/Console/Ring.antt =====
-- Runs of characters in the ring.
use bf_scheduler.Common.{
  ℕ, zero, suc, ◌+◌, ◌-◌, ◌%◌, ◌^◌, ◌≤◌, ◌<◌, ◌≡◌, refl, arith, false, ◌==◌, List, [], ◌∷◌, ◌++◌,
  length, ap, ◌∙◌,
}
use mathlib.Core.Path.{ap₂}
use bf_scheduler.Console.{Input, input_buf, newline}

-- The `k` characters from the counter `h` on.
abbrev pub run : (ℕ → ℕ) → ℕ → ℕ → List ℕ
run b h zero = []
run b h (suc k) = b (h % input_buf) ∷ run b ((h + 1) % 2 ^ 32) k

-- How far the counter `y` is after `x`.
abbrev pub gap : ℕ → ℕ → ℕ
gap x y = (y + 2 ^ 32 - x) % 2 ^ 32

pub run-suc :
    (b : ℕ → ℕ) (h k : ℕ)
    → h < 2 ^ 32
    → run b h (suc k) ≡ run b h k ++ b ((h + k) % 2 ^ 32 % input_buf) ∷ []
run-suc b h zero hw = ap (λ (x : ℕ). b (x % input_buf) ∷ []) (omega arith)
run-suc b h (suc k) hw = ap (◌∷◌ (b (h % input_buf))) (
    run-suc b ((h + 1) % 2 ^ 32) k (omega arith)
    ∙ ap (λ (x : ℕ). run b ((h + 1) % 2 ^ 32) k ++ b (x % input_buf) ∷ []) (omega arith))

pub run-append :
    (b : ℕ → ℕ) (h m n : ℕ) → h < 2 ^ 32 → run b h (m + n) ≡ run b h m ++ run b ((h + m) % 2 ^ 32) n
run-append b h zero n hw =
    let e : (h + 0) % 2 ^ 32 ≡ h = omega arith in
    let e' : 0 + n ≡ n = omega arith in rw (e, e') refl
run-append b h (suc m) n hw =
    let e : suc m + n ≡ suc (m + n) = omega arith in
    let e' : (h + suc m) % 2 ^ 32 ≡ ((h + 1) % 2 ^ 32 + m) % 2 ^ 32 = omega arith in
    rw (e, e') (ap (◌∷◌ (b (h % input_buf))) (run-append b ((h + 1) % 2 ^ 32) m n (omega arith)))

pub run_cong :
    (b b' : ℕ → ℕ) (h k : ℕ)
    → h < 2 ^ 32
    → ((i : ℕ) → i < k → b' ((h + i) % 2 ^ 32 % input_buf) ≡ b ((h + i) % 2 ^ 32 % input_buf))
    → run b' h k ≡ run b h k
run_cong b b' h zero hw same = refl
run_cong b b' h (suc k) hw same =
    let e : (h + 0) % 2 ^ 32 ≡ h = omega arith in
    ap₂ ◌∷◌ (rw e at (same 0 (omega arith))) (
      run_cong b b' ((h + 1) % 2 ^ 32) k (omega arith) (λ i lt.
        let e' : ((h + 1) % 2 ^ 32 + i) % 2 ^ 32 ≡ (h + suc i) % 2 ^ 32 = omega arith in
        rw e' (same (suc i) (omega arith))))

pub length-run : (b : ℕ → ℕ) (h k : ℕ) → length (run b h k) ≡ k
length-run b h zero = refl
length-run b h (suc k) = ap suc (length-run b ((h + 1) % 2 ^ 32) k)

-- The indices are 32-bit words in order and at most 128 apart, and no newline is being edited.
pub record IsInput (s : Input) : Type 0 where
  pub r_word : s.r < 2 ^ 32
  pub w_word : s.w < 2 ^ 32
  pub e_word : s.e < 2 ^ 32
  pub fits : gap s.r s.w + gap s.w s.e ≤ input_buf
  pub one_line :
      (i : ℕ) → i < gap s.w s.e → (s.buf ((s.w + i) % 2 ^ 32 % input_buf) == newline) ≡ false

-- The characters that can be read, and those of the line being typed.
abbrev pub ready : Input → List ℕ
ready s = run s.buf s.r (gap s.r s.w)

abbrev pub typed : Input → List ℕ
typed s = run s.buf s.w (gap s.w s.e)

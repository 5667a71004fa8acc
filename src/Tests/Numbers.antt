-- ===== src/Tests/Numbers.antt =====
-- A number printed and read.
use bf_scheduler.Common.{ℕ, ◌≡◌, refl, arith, true, List, [], ◌∷◌, done}
use bf_scheduler.Library.{digits_of, with_sign, printint, atoi}
use bf_scheduler.Library.Decimal.{atoi-printint}

atoi-printint_example : (cs : List ℕ) × (printint 1050 10 true ≡ done cs) × (atoi cs ≡ 1050)
atoi-printint_example = atoi-printint 1050 true (omega arith)

printed : printint 4294967254 10 true ≡ done (45 ∷ 52 ∷ 50 ∷ [])
unfolding printint digits_of with_sign
printed = refl

-- ===== src/Files/Write.antt =====
-- Contents of a file with bytes written to them, in one piece or in several.
use bf_scheduler.Common.{
  ℕ, zero, suc, ◌+◌, ◌-◌, ◌<◌, ◌≤◌, ◌≡◌, refl, arith, ltb, leb, ◌&&◌, if◌then◌else◌, List, [], ◌∷◌,
  length, Bool-cases, inl, inr, ◌∙◌,
}
use bf_scheduler.Files.{take, drop}

-- The contents `g` with the bytes `bs` written from offset `off` on.
abbrev pub written : (ℕ → ℕ) → ℕ → List ℕ → ℕ → ℕ
written g off [] a = g a
written g off (b ∷ bs) a = if leb off a && ltb a (off + 1) then b else written g (off + 1) bs a

pub length-take {ℓ} : {A : Type ℓ} (k : ℕ) (xs : List A) → k ≤ length xs → length (take k xs) ≡ k
length-take zero xs le = refl
length-take (suc k) [] le = ground arith
length-take (suc k) (x ∷ xs) le = ground (arith, length-take k xs)

pub length-drop {ℓ} : {A : Type ℓ} (k : ℕ) (xs : List A) → length (drop k xs) ≡ length xs - k
length-drop zero xs = omega arith
length-drop (suc k) [] = omega arith
length-drop (suc k) (x ∷ xs) = ground (arith, length-drop k xs)

pub written_before :
    (g : ℕ → ℕ) (off : ℕ) (bs : List ℕ) (a : ℕ) → a < off → written g off bs a ≡ g a
written_before g off [] a lt = refl
written_before g off (b ∷ bs) a lt = ground (arith, written_before g (off + 1) bs a)

pub written_cong :
    (f g : ℕ → ℕ) (off : ℕ) (bs : List ℕ) (a : ℕ)
    → f a ≡ g a
    → written f off bs a ≡ written g off bs a
written_cong f g off [] a e = e
written_cong f g off (b ∷ bs) a e = ground (arith, written_cong f g (off + 1) bs a e)

-- Two pieces one after the other are the whole.
pub written_pieces :
    (g : ℕ → ℕ) (k off : ℕ) (bs : List ℕ) (a : ℕ)
    → k ≤ length bs
    → written (written g off (take k bs)) (off + k) (drop k bs) a ≡ written g off bs a
written_pieces g zero off bs a le = let e : off + 0 ≡ off = omega arith in rw e refl
written_pieces g (suc k) off [] a le = ground arith
written_pieces g (suc k) off (b ∷ bs) a le =
    let e : off + suc k ≡ off + 1 + k = omega arith in
    rw e (elim (Bool-cases (leb off a && ltb a (off + 1))) [
      | inl here ↦
          ground (arith, written_before (written g off (b ∷ take k bs)) (off + 1 + k) (drop k bs) a)
      | inr there ↦
          (written_cong (written g off (b ∷ take k bs)) (written g (off + 1) (take k bs))
              (off + 1 + k) (drop k bs) a (rw there refl)
            ∙ written_pieces g k (off + 1) bs a (omega arith)
            ∙ rw there refl)
    ])

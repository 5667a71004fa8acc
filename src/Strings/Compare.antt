-- ===== src/Strings/Compare.antt =====
-- `strncmp` and `strlen`.
use bf_scheduler.Common.{
  ℕ, zero, suc, ◌+◌, ◌<◌, ◌≡◌, ◌↔◌, refl, false, ◌||◌, arith, ◌==◌, inl, inr, Bool-cases, ◌∙◌, sym,
}
use bf_scheduler.Common.Int.{pos}
use bf_scheduler.Strings.{Memory, strncmp, strncpy}
use bf_scheduler.Strings.Copy.{ends_before, ends_before_cong, Apart, strncpy_lem}

-- Two strings that agree up to `n` bytes or the end of the first.
abbrev pub Agree : Memory → ℕ → ℕ → ℕ → Type 0
Agree m p q n = (i : ℕ) → i < n → ends_before m p i ≡ false → m (p + i) ≡ m (q + i)

strncmp→Agree : (n p q : ℕ) (m : Memory) → strncmp p q n m ≡ pos 0 → Agree m p q n
unfolding strncmp
strncmp→Agree zero p q m e i lt out = absurd (omega arith)
strncmp→Agree (suc n) p q m e zero lt out =
    let e0 : p + 0 ≡ p = omega arith in
    let e1 : q + 0 ≡ q = omega arith in rw (e0, e1) (ground arith)
strncmp→Agree (suc n) p q m e (suc i) lt out =
    let e0 : p + suc i ≡ p + 1 + i = omega arith in
    let e1 : q + suc i ≡ q + 1 + i = omega arith in
    rw (e0, e1) (strncmp→Agree n (p + 1) (q + 1) m (ground arith) i (omega arith) (ground arith))

Agree→strncmp : (n p q : ℕ) (m : Memory) → Agree m p q n → strncmp p q n m ≡ pos 0
unfolding strncmp
Agree→strncmp zero p q m h = refl
Agree→strncmp (suc n) p q m h =
    let e0 : p + 0 ≡ p = omega arith in
    let e1 : q + 0 ≡ q = omega arith in
    let first : m p ≡ m q = rw (e0, e1) at (h 0 (omega arith) refl) in
    elim (Bool-cases (m p == 0)) [
      | inl end ↦ ground (arith, first)
      | inr more ↦
          let rest : Agree m (p + 1) (q + 1) n = λ i lt out.
            let e2 : p + suc i ≡ p + 1 + i = omega arith in
            let e3 : q + suc i ≡ q + 1 + i = omega arith in
            rw (e2, e3) at (h (suc i) (omega arith) (rw (more, ends_before) out)) in
          ground (arith, first, Agree→strncmp n (p + 1) (q + 1) m rest)
    ]

-- `strncmp` is 0 exactly if the strings agree, byte by byte, up to `n` bytes or the end of the first.
pub strncmp_iff : (p q n : ℕ) (m : Memory) → (strncmp p q n m ≡ pos 0) ↔ Agree m p q n
strncmp_iff p q n m = (strncmp→Agree n p q m, Agree→strncmp n p q m)

ends_before-suc :
    (m : Memory) (t i : ℕ) → ends_before m t (suc i) ≡ (ends_before m t i || (m (t + i) == 0))
ends_before-suc m t zero = let e : t + 0 ≡ t = omega arith in rw e (ground arith)
ends_before-suc m t (suc i) =
    let e : t + suc i ≡ t + 1 + i = omega arith in
    rw e (ground (arith, ends_before-suc m (t + 1) i))

-- A string that `strncpy` has stored in a field of `n` bytes compares equal to its source.
pub strncmp-strncpy :
    (d name n : ℕ) (m : Memory) → Apart d name n → strncmp name d n (strncpy d name n m) ≡ pos 0
strncmp-strncpy d name n m apart =
    let m' = strncpy d name n m in
    let kept : (i : ℕ) → i < n → m' (name + i) ≡ m (name + i) =
      λ i lt. (strncpy_lem n d name m 0 (name + i) apart).1 (ground arith) in
    Agree→strncmp n name d m' λ i lt out.
      let out' : ends_before m name i ≡ false =
        sym (
          ends_before_cong m m' name i
            (λ a lo hi. (strncpy_lem n d name m 0 a apart).1 (ground arith)))
        ∙ out in
      ground (arith, kept i lt, (strncpy_lem n d name m i 0 apart).0 lt, ends_before-suc m name i)

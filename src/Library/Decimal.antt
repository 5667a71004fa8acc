-- ===== src/Library/Decimal.antt =====
-- A number that is printed in decimal is read back.
use bf_scheduler.Common.{
  ℕ, zero, suc, ◌+◌, ◌-◌, ◌*◌, ◌/◌, ◌%◌, ◌^◌, ◌<◌, ◌≡◌, refl, arith, Bool, true, false, ◌&&◌, ◌==◌,
  ltb, leb, List, [], ◌∷◌, done, inl, inr, Bool-cases, ap, ◌∙◌,
}
use bf_scheduler.Library.{
  digit, buf_size, digits_of, with_sign, is_negative, printint, atoi_from, atoi,
}

-- The numbers of at most `k` decimal digits are below this.
abbrev power : ℕ → ℕ
power zero = 1
power (suc k) = 10 * power k

atoi_from-digit :
    (n d : ℕ) (cs : List ℕ)
    → n * 10 + d < 2 ^ 32
    → d < 10
    → atoi_from n (digit d ∷ cs) ≡ atoi_from (n * 10 + d) cs
unfolding atoi_from
atoi_from-digit n d cs small lt =
    let e : (n * 10 + (48 + d) - 48) % 2 ^ 32 ≡ n * 10 + d = omega arith in
    let first : ltb d 10 ≡ true = ground arith in
    let low : (leb 48 (48 + d) && leb (48 + d) 57) ≡ true = ground arith in rw (first, low, e) refl

room_left : (room x : ℕ) → x < power (suc room) → (x / 10 == 0) ≡ false → 0 < room
room_left zero x lt more = ground (arith, lt, more)
room_left (suc room) x lt more = omega arith

-- The digits of a number and what reading them comes to; `k` places are left.
digits_of-atoi_from :
    (room x : ℕ) (behind : List ℕ)
    → x < power room
    → 0 < room
    → x < 2 ^ 32
    → (left : ℕ) × (cs : List ℕ) × (digits_of 10 room x behind ≡ done (left, cs))
      × (atoi_from 0 cs ≡ atoi_from x behind)
unfolding digits_of
digits_of-atoi_from zero x behind lt some_room word = ground arith
digits_of-atoi_from (suc room) x behind lt some_room word = elim (Bool-cases (x / 10 == 0)) [
  | inl last ↦
      let e : 0 * 10 + x % 10 ≡ x = ground arith in
      (
        room,
        digit (x % 10) ∷ behind,
        rw (digits_of, last) refl,
        atoi_from-digit 0 (x % 10) behind (omega arith) (omega arith)
            ∙ ap (λ (n : ℕ). atoi_from n behind) e,
      )
  | inr more ↦
      let e : x / 10 * 10 + x % 10 ≡ x = omega arith in
      let (left, cs, run, same) =
        digits_of-atoi_from room (x / 10) (digit (x % 10) ∷ behind) (omega arith)
          (room_left room x lt more) (omega arith) in
      (
        left,
        cs,
        rw (digits_of, more) run,
        same
            ∙ atoi_from-digit (x / 10) (x % 10) behind (omega arith) (omega arith)
            ∙ ap (λ (n : ℕ). atoi_from n behind) e,
      )
]

-- A number below 2^31 that `printint` prints in decimal fits in its buffer, and `atoi` reads it back.
pub atoi-printint :
    (x : ℕ) (sgn : Bool)
    → x < 2 ^ 31
    → (cs : List ℕ) × (printint x 10 sgn ≡ done cs) × (atoi cs ≡ x)
unfolding printint atoi with_sign atoi_from
atoi-printint x sgn small =
    let positive : is_negative sgn x ≡ false = ground arith in
    let (left, cs, run, same) =
      digits_of-atoi_from buf_size x [] (omega arith) (omega arith) (omega arith) in
    (cs, rw (printint, positive, run) refl, same)

-- ===== src/Library.antt =====
-- printf.c and ulib.c: numbers in decimal, as user programs print and read them. What `putc` is called
-- with is the list of its characters, and a string is the list of its bytes before the NUL.
pub mod Decimal
use bf_scheduler.Common.{
  ℕ, zero, suc, ◌+◌, ◌-◌, ◌*◌, ◌/◌, ◌%◌, ◌^◌, Bool, true, false, ◌&&◌, ◌==◌, ltb, leb,
  if◌then◌else◌, List, [], ◌∷◌, Outcome, done, out_of_bounds, ◌>>=◌,
}

-- `digits[d]`
abbrev pub digit : ℕ → ℕ
digit d = if ltb d 10 then 48 + d else 55 + d

-- The length of `buf`.
abbrev pub buf_size : ℕ
buf_size = 16

-- The loop of `printint`, with `room` places of `buf` left: the characters behind those to come, as they
-- will be printed, and how many places are left. A full `buf` is an access out of bounds.
unfoldable pub digits_of : ℕ → ℕ → ℕ → List ℕ → Outcome (ℕ × List ℕ)
digits_of base zero x behind = out_of_bounds
digits_of base (suc room) x behind =
    let more = digits_of base room (x / base) (digit (x % base) ∷ behind) in
    if x / base == 0 then done (room, digit (x % base) ∷ behind) else more

-- The sign, if there is one.
unfoldable pub with_sign : Bool → ℕ × List ℕ → Outcome (List ℕ)
with_sign false (room, cs) = done cs
with_sign true (zero, cs) = out_of_bounds
with_sign true (suc room, cs) = done (45 ∷ cs)

abbrev pub is_negative : Bool → ℕ → Bool
is_negative sgn x = sgn && leb (2 ^ 31) x

-- `printint`, for the bit pattern `x` of the number.
unfoldable pub printint : ℕ → ℕ → Bool → Outcome (List ℕ)
printint x base sgn =
    let x' = if is_negative sgn x then 2 ^ 32 - x else x in
    digits_of base buf_size x' [] >>= λ r. with_sign (is_negative sgn x) r

-- `atoi`, with the number read so far.
unfoldable pub atoi_from : ℕ → List ℕ → ℕ
atoi_from n [] = n
atoi_from n (c ∷ cs) =
    let rest = atoi_from ((n * 10 + c - 48) % 2 ^ 32) cs in if leb 48 c && leb c 57 then rest else n

unfoldable pub atoi : List ℕ → ℕ
atoi cs = atoi_from 0 cs

-- ===== src/Strings.antt =====
-- string.c: routines on bytes in memory. A pointer is an address; no range wraps round the address
-- space. `int` values of bytes are 0 to 255.
pub mod Move
pub mod Copy
pub mod Compare
use bf_scheduler.Common.{
  ℕ, zero, suc, ◌+◌, ◌-◌, ◌*◌, ◌/◌, ◌%◌, ◌^◌, Bool, true, false, Option, none, some, not, ◌&&◌,
  ◌==◌, ltb, if◌then◌else◌, update,
}
use bf_scheduler.Common.Int.{ℤ, pos, negsuc, sub_ℕ}

abbrev pub Memory : Type 0
Memory = ℕ → ℕ

-- `rep stosb` and `rep stosl` of x86.h: `n` bytes, or `n` little-endian words.
unfoldable pub stosb : ℕ → ℕ → ℕ → Memory → Memory
stosb zero d c m = m
stosb (suc n) d c m = stosb n (d + 1) c (update m d (c % 256))

unfoldable pub store_word : Memory → ℕ → ℕ → Memory
store_word m d w =
    update
      (update (update (update m d (w % 256)) (d + 1) (w / 2 ^ 8 % 256)) (d + 2) (w / 2 ^ 16 % 256))
      (d + 3) (w / 2 ^ 24 % 256)

unfoldable pub stosl : ℕ → ℕ → ℕ → Memory → Memory
unfolding store_word
stosl zero d w m = m
stosl (suc n) d w m = stosl n (d + 4) w (store_word m d w)

-- `memset`, where `c` is the bit pattern of the `int`; the four shifted bytes do not overlap.
unfoldable pub memset : ℕ → ℕ → ℕ → Memory → Memory
unfolding stosb stosl
memset d c n m =
    if (d % 4 == 0) && (n % 4 == 0)
    then stosl (n / 4) d (c % 256 * 2 ^ 24 + c % 256 * 2 ^ 16 + c % 256 * 2 ^ 8 + c % 256) m
    else stosb n d c m

-- The loops of `memmove`, upwards and from the end down.
unfoldable pub move_up : ℕ → ℕ → ℕ → Memory → Memory
move_up zero d s m = m
move_up (suc n) d s m = move_up n (d + 1) (s + 1) (update m d (m s))

unfoldable pub move_down : ℕ → ℕ → ℕ → Memory → Memory
move_down zero d s m = m
move_down (suc n) d s m = move_down n d s (update m (d + n) (m (s + n)))

-- `memmove`
unfoldable pub memmove : ℕ → ℕ → ℕ → Memory → Memory
unfolding move_up move_down
memmove d s n m = if ltb s d && ltb d (s + n) then move_down n d s m else move_up n d s m

-- `memcmp`
unfoldable pub memcmp : ℕ → ℕ → ℕ → Memory → ℤ
memcmp p q zero m = pos 0
memcmp p q (suc n) m =
    let rest = memcmp (p + 1) (q + 1) n m in if not (m p == m q) then sub_ℕ (m p) (m q) else rest

-- `strncmp`
unfoldable pub strncmp : ℕ → ℕ → ℕ → Memory → ℤ
strncmp p q zero m = pos 0
strncmp p q (suc n) m =
    let rest = strncmp (p + 1) (q + 1) n m in
    if not (m p == 0) && (m p == m q) then rest else sub_ℕ (m p) (m q)

-- `strncpy`: the second loop, and both.
unfoldable pub zero_fill : ℕ → ℕ → Memory → Memory
zero_fill zero s m = m
zero_fill (suc n) s m = zero_fill n (s + 1) (update m s 0)

unfoldable pub strncpy : ℕ → ℕ → ℕ → Memory → Memory
strncpy s t zero m = m
strncpy s t (suc n) m =
    let m' = update m s (m t) in
    let rest = strncpy (s + 1) (t + 1) n m' in if m t == 0 then zero_fill n (s + 1) m' else rest

-- The loop of `safestrcpy` with `n` bytes left before the last, and what stands behind it.
unfoldable pub safe_copy : ℕ → ℕ → ℕ → Memory → Memory
safe_copy s t zero m = update m s 0
safe_copy s t (suc n) m =
    let m' = update m s (m t) in
    let rest = safe_copy (s + 1) (t + 1) n m' in if m t == 0 then update m' (s + 1) 0 else rest

-- `safestrcpy`; a negative `n` copies nothing either.
unfoldable pub safestrcpy : ℕ → ℕ → ℕ → Memory → Memory
unfolding safe_copy
safestrcpy s t zero m = m
safestrcpy s t (suc n) m = safe_copy s t n m

-- `strlen`, for a string with a NUL among its first `fuel` bytes.
unfoldable pub strlen : ℕ → ℕ → Memory → Option ℕ
strlen zero s m = none
strlen (suc fuel) s m =
    let rest = strlen fuel (s + 1) m in
    if m s == 0 then some 0 else elim rest [ none ↦ none | some n ↦ some (n + 1) ]

-- ===== src/Strings/Move.antt =====
-- `memmove` and `memset` byte by byte.
use bf_scheduler.Common.{
  ℕ, zero, suc, ◌+◌, ◌-◌, ◌*◌, ◌/◌, ◌%◌, ◌^◌, ◌≤◌, ◌<◌, ◌≡◌, refl, Bool, ◌&&◌, arith, ◌==◌, ltb,
  leb, if◌then◌else◌, update, ◌⊎◌, inl, inr, Bool-cases, ◌∙◌,
}
use bf_scheduler.Strings.{Memory, store_word, stosb, stosl, memset, move_up, move_down, memmove}

-- Whether the address `a` is one of the `n` from `d` on.
abbrev pub inside : ℕ → ℕ → ℕ → Bool
inside a d n = leb d a && ltb a (d + n)

move_up-inside :
    (n d s : ℕ) (m : Memory) (a : ℕ)
    → (d ≤ s) ⊎ (s + n ≤ d)
    → move_up n d s m a ≡ (if inside a d n then m (s + (a - d)) else m a)
unfolding move_up
move_up-inside zero d s m a h = ground arith
move_up-inside (suc n) d s m a h =
    ground (arith, move_up-inside n (d + 1) (s + 1) (update m d (m s)) a (omega arith))

move_down-inside :
    (n d s : ℕ) (m : Memory) (a : ℕ)
    → s ≤ d
    → move_down n d s m a ≡ (if inside a d n then m (s + (a - d)) else m a)
unfolding move_down
move_down-inside zero d s m a h = ground arith
move_down-inside (suc n) d s m a h =
    ground (arith, move_down-inside n d s (update m (d + n) (m (s + n))) a h)

-- `memmove` copies `n` bytes, however the two ranges overlap: afterwards the byte at `d + i` is the one
-- that was at `s + i`, and all others are as before.
pub memmove_lem :
    (d s n : ℕ) (m : Memory) (a : ℕ)
    → memmove d s n m a ≡ (if inside a d n then m (s + (a - d)) else m a)
unfolding memmove
memmove_lem d s n m a = elim (Bool-cases (ltb s d && ltb d (s + n))) [
  | inl over ↦ rw over (move_down-inside n d s m a (ground arith))
  | inr apart ↦ rw apart (move_up-inside n d s m a (ground arith))
]

stosb-inside :
    (n d c : ℕ) (m : Memory) (a : ℕ) → stosb n d c m a ≡ (if inside a d n then c % 256 else m a)
unfolding stosb
stosb-inside zero d c m a = ground arith
stosb-inside (suc n) d c m a = ground (arith, stosb-inside n (d + 1) c (update m d (c % 256)) a)

word_bytes :
    (b : ℕ)
    → b < 256
    → ((b * 2 ^ 24 + b * 2 ^ 16 + b * 2 ^ 8 + b) % 256 ≡ b)
      × ((b * 2 ^ 24 + b * 2 ^ 16 + b * 2 ^ 8 + b) / 2 ^ 8 % 256 ≡ b)
      × ((b * 2 ^ 24 + b * 2 ^ 16 + b * 2 ^ 8 + b) / 2 ^ 16 % 256 ≡ b)
      × ((b * 2 ^ 24 + b * 2 ^ 16 + b * 2 ^ 8 + b) / 2 ^ 24 % 256 ≡ b)
word_bytes b h = omega arith

store_word-inside :
    (m : Memory) (d w b a : ℕ)
    → (w % 256 ≡ b) × (w / 2 ^ 8 % 256 ≡ b) × (w / 2 ^ 16 % 256 ≡ b) × (w / 2 ^ 24 % 256 ≡ b)
    → store_word m d w a ≡ (if inside a d 4 then b else m a)
unfolding store_word
store_word-inside m d w b a h = ground arith

stosl-inside :
    (n d w b : ℕ) (m : Memory) (a : ℕ)
    → (w % 256 ≡ b) × (w / 2 ^ 8 % 256 ≡ b) × (w / 2 ^ 16 % 256 ≡ b) × (w / 2 ^ 24 % 256 ≡ b)
    → stosl n d w m a ≡ (if inside a d (4 * n) then b else m a)
unfolding stosl
stosl-inside zero d w b m a h = ground arith
stosl-inside (suc n) d w b m a h =
    ground (arith, store_word-inside m d w b a h, stosl-inside n (d + 4) w b (store_word m d w) a h)

-- `memset` sets `n` bytes to the low byte of `c` on both of its paths, and no others.
pub memset_lem :
    (d c n : ℕ) (m : Memory) (a : ℕ) → memset d c n m a ≡ (if inside a d n then c % 256 else m a)
unfolding memset
memset_lem d c n m a = elim (Bool-cases ((d % 4 == 0) && (n % 4 == 0))) [
  | inl words ↦
      let e : 4 * (n / 4) ≡ n = ground arith in
      rw words
        (stosl-inside (n / 4) d _ (c % 256) m a (word_bytes (c % 256) (omega arith)) ∙ rw e refl)
  | inr bytes ↦ rw bytes (stosb-inside n d c m a)
]

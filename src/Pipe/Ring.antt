-- ===== src/Pipe/Ring.antt =====
-- The bytes that a pipe holds, and what writing and reading one byte does to them.
use bf_scheduler.Common.{
  ℕ, zero, suc, ◌+◌, ◌-◌, ◌%◌, ◌^◌, ◌≤◌, ◌<◌, ◌≡◌, refl, arith, ◌==◌, false, update, update_self,
  List, [], ◌∷◌, ◌++◌, length, ap, ◌∙◌,
}
use mathlib.Core.Path.{ap₂}
use native.Mathlib.Numerals.{add-one}
use bf_scheduler.Pipe.{Pipe, pipe_size, put_byte, skip_byte}

-- The number of bytes in the pipe.
abbrev pub filled : Pipe → ℕ
filled p = (p.nwrite + 2 ^ 32 - p.nread) % 2 ^ 32

-- `k` bytes from the counter `h` on.
abbrev pub window : (ℕ → ℕ) → ℕ → ℕ → List ℕ
window data_at h zero = []
window data_at h (suc k) = data_at (h % pipe_size) ∷ window data_at ((h + 1) % 2 ^ 32) k

abbrev pub contents : Pipe → List ℕ
contents p = window p.data_at p.nread (filled p)

-- The counters are 32-bit words, and at most `PIPESIZE` apart.
pub record IsPipe (p : Pipe) : Type 0 where
  pub read_word : p.nread < 2 ^ 32
  pub write_word : p.nwrite < 2 ^ 32
  pub fits : filled p ≤ pipe_size

pub length-window : (d : ℕ → ℕ) (h k : ℕ) → length (window d h k) ≡ k
length-window d h zero = refl
length-window d h (suc k) = ap suc (length-window d ((h + 1) % 2 ^ 32) k)

-- One more byte at the end.
window-append :
    (d : ℕ → ℕ) (h k : ℕ)
    → h < 2 ^ 32
    → window d h (suc k) ≡ window d h k ++ d ((h + k) % 2 ^ 32 % pipe_size) ∷ []
window-append d h zero hw = ap (λ (x : ℕ). d (x % pipe_size) ∷ []) (omega arith)
window-append d h (suc k) hw = ap (◌∷◌ (d (h % pipe_size))) (
    window-append d ((h + 1) % 2 ^ 32) k (omega arith)
    ∙ ap (λ (x : ℕ). window d ((h + 1) % 2 ^ 32) k ++ d (x % pipe_size) ∷ []) (omega arith))

-- The byte behind the window is none of its bytes.
slot_ne :
    (h m : ℕ)
    → h < 2 ^ 32
    → 0 < m
    → m < pipe_size
    → (h % pipe_size == (h + m) % 2 ^ 32 % pipe_size) ≡ false
slot_ne h m hw pos lt = ground arith

window-update :
    (d : ℕ → ℕ) (h k c b : ℕ)
    → h < 2 ^ 32
    → ((i : ℕ) → i < k → ((h + i) % 2 ^ 32 % pipe_size == c) ≡ false)
    → window (update d c b) h k ≡ window d h k
window-update d h zero c b hw out = refl
window-update d h (suc k) c b hw out =
    ap₂ ◌∷◌
      (let e : h % pipe_size ≡ (h + 0) % 2 ^ 32 % pipe_size = omega arith in
        rw e (ground (arith, out 0 (omega arith))))
      (window-update d ((h + 1) % 2 ^ 32) k c b (omega arith) (λ i lt.
        let e : ((h + 1) % 2 ^ 32 + i) % 2 ^ 32 ≡ (h + suc i) % 2 ^ 32 = omega arith in
        rw e (out (suc i) (omega arith))))

module _ (p : Pipe) (v : IsPipe p) where
  -- The full test of `pipewrite`.
  pub full_iff : (p.nwrite == (p.nread + pipe_size) % 2 ^ 32) ≡ (filled p == pipe_size)
  full_iff = ground (arith, v)

  pub empty_iff : (p.nread == p.nwrite) ≡ (filled p == 0)
  empty_iff = ground (arith, v)

  module _ (b : ℕ) (room : filled p < pipe_size) where
    pub put_byte-filled : filled (put_byte p b) ≡ filled p + 1
    unfolding put_byte
    put_byte-filled = omega (arith, v.read_word, v.write_word)

    pub put_byte-IsPipe : IsPipe (put_byte p b)
    unfolding put_byte
    put_byte-IsPipe = record {
      read_word = v.read_word;
      write_word = omega arith;
      fits = omega (arith, put_byte-filled);
    }

    last_slot_ne :
        (i : ℕ)
        → i < filled p
        → ((p.nread + i) % 2 ^ 32 % pipe_size == p.nwrite % pipe_size) ≡ false
    last_slot_ne i lt = ground (arith, v.read_word, v.write_word)

    pub put_byte-contents : contents (put_byte p b) ≡ contents p ++ b ∷ []
    unfolding put_byte
    put_byte-contents =
        let at : (p.nread + filled p) % 2 ^ 32 ≡ p.nwrite =
          omega (arith, v.read_word, v.write_word) in
        ap (window (put_byte p b).data_at p.nread) (put_byte-filled ∙ add-one (filled p))
        ∙ window-append (put_byte p b).data_at p.nread (filled p) v.read_word
        ∙ ap₂ (λ w (x : ℕ). w ++ x ∷ [])
            (window-update p.data_at p.nread (filled p) (p.nwrite % pipe_size) b v.read_word
              (λ i lt. last_slot_ne i lt))
            (rw at (update_self p.data_at (p.nwrite % pipe_size) b))

  module _ (some_left : 0 < filled p) where
    pub skip_byte-filled : filled (skip_byte p) + 1 ≡ filled p
    unfolding skip_byte
    skip_byte-filled = omega (arith, v.read_word, v.write_word)

    pub skip_byte-IsPipe : IsPipe (skip_byte p)
    unfolding skip_byte
    skip_byte-IsPipe = record {
      read_word = omega arith;
      write_word = v.write_word;
      fits = omega (arith, skip_byte-filled, v.fits);
    }

    pub skip_byte-contents : contents p ≡ p.data_at (p.nread % pipe_size) ∷ contents (skip_byte p)
    unfolding skip_byte
    skip_byte-contents =
        let e : filled p ≡ suc (filled (skip_byte p)) = omega (arith, skip_byte-filled) in
        ap (window p.data_at p.nread) e

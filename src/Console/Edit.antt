-- ===== src/Console/Edit.antt =====
-- What a character does to the ring.
use bf_scheduler.Common.{
  ℕ, suc, ◌+◌, ◌-◌, ◌%◌, ◌^◌, ◌<◌, ◌≡◌, arith, false, ◌==◌, update_self, List, [], ◌∷◌, ◌++◌, ap,
  ◌∙◌, inl, inr, Bool-cases,
}
use mathlib.Core.Path.{ap₂}
use bf_scheduler.Console.{Input, input_buf, newline, step_back, last_char, put_char}
use bf_scheduler.Console.Ring.{run, gap, run-suc, run-append, run_cong, IsInput, ready, typed}

module _ (s : Input) (v : IsInput s) where
  -- One character less.
  pub step_back-gap : (s.e == s.w) ≡ false → gap s.w (step_back s).e + 1 ≡ gap s.w s.e
  step_back-gap more = ground (arith, v.w_word, v.e_word)

  pub step_back-IsInput : (s.e == s.w) ≡ false → IsInput (step_back s)
  step_back-IsInput more = record {
    r_word = v.r_word;
    w_word = v.w_word;
    e_word = omega arith;
    fits = omega (arith, step_back-gap more, v.fits);
    one_line = λ i lt. v.one_line i (omega (arith, step_back-gap more));
  }

  pub last_char-newline : (s.e == s.w) ≡ false → (last_char s == newline) ≡ false
  last_char-newline more =
      let e : (s.w + gap s.w (step_back s).e) % 2 ^ 32 ≡ (s.e + 2 ^ 32 - 1) % 2 ^ 32 =
        ground (arith, v.w_word, v.e_word) in
      rw e at (v.one_line (gap s.w (step_back s).e) (omega (arith, step_back-gap more)))

  -- One character more.
  pub put_char-gap : (c : ℕ) → gap s.w s.e < input_buf → gap s.w (put_char c s).e ≡ gap s.w s.e + 1
  unfolding put_char
  put_char-gap c room = omega (arith, v.w_word, v.e_word)

  pub gap_sum : gap s.r s.w + gap s.w s.e ≡ gap s.r s.e
  gap_sum = omega (arith, v.r_word, v.w_word, v.e_word, v.fits)

  put_char-kept :
      (c i : ℕ)
      → gap s.r s.e < input_buf
      → i < gap s.r s.e
      → (put_char c s).buf ((s.r + i) % 2 ^ 32 % input_buf) ≡ s.buf ((s.r + i) % 2 ^ 32 % input_buf)
  unfolding put_char
  put_char-kept c i room lt =
      let ne : ((s.r + i) % 2 ^ 32 % input_buf == s.e % input_buf) ≡ false =
        ground (arith, v.r_word, v.e_word) in
      ground (arith, ne)

  pub put_char-ready :
      (c : ℕ) → gap s.r s.e < input_buf → run (put_char c s).buf s.r (gap s.r s.w) ≡ ready s
  put_char-ready c room =
      run_cong s.buf (put_char c s).buf s.r (gap s.r s.w) v.r_word
        (λ i lt. put_char-kept c i room (omega (arith, gap_sum)))

  put_char-kept_typed :
      (c i : ℕ)
      → gap s.r s.e < input_buf
      → i < gap s.w s.e
      → (put_char c s).buf ((s.w + i) % 2 ^ 32 % input_buf) ≡ s.buf ((s.w + i) % 2 ^ 32 % input_buf)
  put_char-kept_typed c i room lt =
      let e : (s.r + (gap s.r s.w + i)) % 2 ^ 32 ≡ (s.w + i) % 2 ^ 32 =
        omega (arith, v.r_word, v.w_word) in
      rw e at (put_char-kept c (gap s.r s.w + i) room (omega (arith, gap_sum)))

  put_char-last : (c : ℕ) → (put_char c s).buf ((s.w + gap s.w s.e) % 2 ^ 32 % input_buf) ≡ c
  unfolding put_char
  put_char-last c =
      let e : (s.w + gap s.w s.e) % 2 ^ 32 ≡ s.e = omega (arith, v.w_word, v.e_word) in
      rw e (update_self s.buf (s.e % input_buf) c)

  pub put_char-typed :
      (c : ℕ)
      → gap s.r s.e < input_buf
      → run (put_char c s).buf s.w (gap s.w (put_char c s).e) ≡ typed s ++ c ∷ []
  put_char-typed c room =
      let e : gap s.w (put_char c s).e ≡ suc (gap s.w s.e) =
        omega (arith, put_char-gap c (omega (arith, gap_sum))) in
      ap (run (put_char c s).buf s.w) e
      ∙ run-suc (put_char c s).buf s.w (gap s.w s.e) v.w_word
      ∙ ap₂ (λ (xs : List ℕ) (x : ℕ). xs ++ x ∷ [])
          (run_cong s.buf (put_char c s).buf s.w (gap s.w s.e) v.w_word
            (λ i lt. put_char-kept_typed c i room lt))
          (put_char-last c)

  pub put_char-gap_read :
      (c : ℕ) → gap s.r s.e < input_buf → gap s.r (put_char c s).e ≡ gap s.r s.e + 1
  unfolding put_char
  put_char-gap_read c room = omega (arith, v.r_word, v.e_word)

  -- The line is not finished.
  pub put_char-IsInput :
      (c : ℕ) → gap s.r s.e < input_buf → (c == newline) ≡ false → IsInput (put_char c s)
  unfolding put_char
  put_char-IsInput c room ne = record {
    r_word = v.r_word;
    w_word = v.w_word;
    e_word = omega arith;
    fits = omega (arith, put_char-gap c (omega (arith, gap_sum)), gap_sum);
    one_line = λ i lt. elim (Bool-cases (i == gap s.w s.e)) [
      | inl at ↦
          let e : i ≡ gap s.w s.e = ground arith in
          ground (
            arith,
            put_char-last c,
            ap (λ (x : ℕ). (put_char c s).buf ((s.w + x) % 2 ^ 32 % input_buf)) e,
          )
      | inr old ↦
          let below : i < gap s.w s.e = ground (arith, put_char-gap c (omega (arith, gap_sum))) in
          ground (arith, put_char-kept_typed c i room below, v.one_line i below)
    ];
  }

  -- The line is finished.
  abbrev pub committed : ℕ → Input
  committed c = record (put_char c s) { w = (put_char c s).e }

  pub committed-ready :
      (c : ℕ) → gap s.r s.e < input_buf → ready (committed c) ≡ ready s ++ (typed s ++ c ∷ [])
  unfolding put_char
  committed-ready c room =
      let e : gap s.r (put_char c s).e ≡ gap s.r s.w + gap s.w (put_char c s).e =
        omega (arith, put_char-gap_read c room, put_char-gap c (omega (arith, gap_sum)), gap_sum) in
      let w : (s.r + gap s.r s.w) % 2 ^ 32 ≡ s.w = omega (arith, v.r_word, v.w_word) in
      ap (run (put_char c s).buf s.r) e
      ∙ run-append (put_char c s).buf s.r (gap s.r s.w) (gap s.w (put_char c s).e) v.r_word
      ∙ ap₂ (λ (xs ys : List ℕ). xs ++ ys) (put_char-ready c room)
          (ap (λ (x : ℕ). run (put_char c s).buf x (gap s.w (put_char c s).e)) w
            ∙ put_char-typed c room)

  pub committed-typed : (c : ℕ) → typed (committed c) ≡ []
  unfolding put_char
  committed-typed c =
      let e : gap (put_char c s).e (put_char c s).e ≡ 0 = omega arith in
      ap (run (put_char c s).buf (put_char c s).e) e

  pub committed-IsInput : (c : ℕ) → gap s.r s.e < input_buf → IsInput (committed c)
  unfolding put_char
  committed-IsInput c room =
      let e : gap (put_char c s).e (put_char c s).e ≡ 0 = omega arith in
      record {
        r_word = v.r_word;
        w_word = omega arith;
        e_word = omega arith;
        fits = omega (arith, put_char-gap_read c room, e);
        one_line = λ i lt. ground (arith, e);
      }

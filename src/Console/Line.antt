-- ===== src/Console/Line.antt =====
-- `consoleintr` is an editor of a line.
use bf_scheduler.Common.{
  ℕ, zero, suc, ◌+◌, ◌%◌, ◌^◌, ◌≤◌, ◌<◌, ◌≡◌, refl, arith, true, false, ◌||◌, ◌==◌, leb,
  if◌then◌else◌, List, [], ◌∷◌, ◌++◌, length, ap, ◌∙◌, sym, inl, inr, Bool-cases,
}
use mathlib.Core.Path.{ap₂}
use bf_scheduler.Console.{
  Input, input_buf, newline, return, control_d, control_p, control_u, control_h, delete, step_back,
  kill_line, backspace, put_char,
}
use bf_scheduler.Console.Ring.{run, gap, run-suc, length-run, IsInput, ready, typed}
use bf_scheduler.Console.Edit.{
  put_char-gap, step_back-gap, step_back-IsInput, last_char-newline, gap_sum, put_char-ready,
  put_char-typed, put_char-gap_read, put_char-IsInput, committed, committed-ready, committed-typed,
  committed-IsInput,
}

-- The lines that can be read, and the line being typed.
pub record Line : Type 0 where
  pub done_part : List ℕ
  pub edited : List ℕ

abbrev pub view : Input → Line
view s = record { done_part = ready s; edited = typed s }

abbrev pub drop_last : List ℕ → List ℕ
drop_last [] = []
drop_last (x ∷ []) = []
drop_last (x ∷ (y ∷ xs)) = x ∷ drop_last (y ∷ xs)

-- The line finished by ^D, a newline, or 128 characters.
abbrev pub finish : ℕ → Line → Line
finish c l =
    if (c == newline) || (c == control_d) || (length l.done_part + length l.edited == input_buf)
    then record { done_part = l.done_part ++ l.edited; edited = [] }
    else l

-- What a character does to the line.
unfoldable pub edit : ℕ → Line → Line
edit c l =
    let c' = if c == return then newline else c in
    if c == control_p
    then l
    else if c == control_u
    then record l { edited = [] }
    else if (c == control_h) || (c == delete)
    then record l { edited = drop_last l.edited }
    else if (c == 0) || leb input_buf (length l.done_part + length l.edited)
    then l
    else finish c' (record l { edited = l.edited ++ c' ∷ [] })

drop_last-append : (xs : List ℕ) (x : ℕ) → drop_last (xs ++ x ∷ []) ≡ xs
drop_last-append [] x = refl
drop_last-append (y ∷ []) x = refl
drop_last-append (y ∷ (z ∷ xs)) x = ap (◌∷◌ y) (drop_last-append (z ∷ xs) x)

-- A step that the line `l` describes.
pub record Shows (s : Input) (l : Line) : Type 0 where
  pub input : IsInput s
  pub same : view s ≡ l

module _ (s : Input) (v : IsInput s) where
  nothing_typed : (s.e == s.w) ≡ true → typed s ≡ []
  nothing_typed none =
      let e : gap s.w s.e ≡ 0 = ground (arith, v.w_word, v.e_word) in ap (run s.buf s.w) e

  step_back-typed : (s.e == s.w) ≡ false → typed (step_back s) ≡ drop_last (typed s)
  step_back-typed more =
      let e : gap s.w s.e ≡ suc (gap s.w (step_back s).e) = omega (arith, step_back-gap s v more) in
      sym (
        ap (λ (k : ℕ). drop_last (run s.buf s.w k)) e
        ∙ ap drop_last (run-suc s.buf s.w (gap s.w (step_back s).e) v.w_word)
        ∙ drop_last-append (typed (step_back s)) _)

  pub backspace-Shows : Shows (backspace s) (record (view s) { edited = drop_last (typed s) })
  unfolding backspace
  backspace-Shows = elim (Bool-cases (s.e == s.w)) [
    | inl none ↦ rw none (record {
      input = v;
      same =
          ap (λ (xs : List ℕ). record { done_part = ready s; edited = xs })
            (nothing_typed none ∙ sym (ap drop_last (nothing_typed none)));
    })
    | inr more ↦ rw more (record {
      input = step_back-IsInput s v more;
      same =
          ap (λ (xs : List ℕ). record { done_part = ready s; edited = xs }) (step_back-typed more);
    })
  ]

  pub total : length (ready s) + length (typed s) ≡ gap s.r s.e
  total =
      ap₂ ◌+◌ (length-run s.buf s.r (gap s.r s.w)) (length-run s.buf s.w (gap s.w s.e))
      ∙ gap_sum s v

-- The loop for ^U empties the line.
pub kill_line-Shows :
    (fuel : ℕ) (s : Input)
    → IsInput s
    → gap s.w s.e ≤ fuel
    → Shows (kill_line fuel s) (record (view s) { edited = [] })
unfolding kill_line
kill_line-Shows zero s v enough =
    let e : gap s.w s.e ≡ 0 = omega arith in
    record {
      input = v;
      same =
          ap (λ (xs : List ℕ). record { done_part = ready s; edited = xs }) (ap (run s.buf s.w) e);
    }
kill_line-Shows (suc fuel) s v enough = elim (Bool-cases (s.e == s.w)) [
  | inl none ↦ rw none (record {
    input = v;
    same =
        ap (λ (xs : List ℕ). record { done_part = ready s; edited = xs }) (nothing_typed s v none);
  })
  | inr more ↦
      rw (kill_line, more, last_char-newline s v more)
        (kill_line-Shows fuel (step_back s) (step_back-IsInput s v more)
          (omega (arith, step_back-gap s v more)))
]

module _ (c : ℕ) (s : Input) (v : IsInput s) (room : gap s.r s.e < input_buf) where
  -- Whether the line is finished, in the code and in the list.
  full_iff :
      ((put_char c s).e == (s.r + input_buf) % 2 ^ 32)
      ≡ (length (ready s) + length (typed s ++ c ∷ []) == input_buf)
  unfolding put_char
  full_iff =
      let len : length (typed s ++ c ∷ []) ≡ gap s.w (put_char c s).e =
        sym (ap length (put_char-typed s v c room))
        ∙ length-run (put_char c s).buf s.w (gap s.w (put_char c s).e) in
      let whole = total s v in
      let here = length-run s.buf s.w (gap s.w s.e) in
      let longer = put_char-gap s v c (omega (arith, gap_sum s v)) in
      ground (arith, len, whole, here, longer, v.r_word, v.e_word, put_char-gap_read s v c room)

  pub put_char-Shows :
      Shows
        (if (c == newline) || (c == control_d) || ((put_char c s).e == (s.r + input_buf) % 2 ^ 32)
          then committed s v c
          else put_char c s)
        (finish c (record { done_part = ready s; edited = typed s ++ c ∷ [] }))
  unfolding put_char
  put_char-Shows =
      elim (Bool-cases (
        (c == newline)
        || (c == control_d)
        || (length (ready s) + length (typed s ++ c ∷ []) == input_buf))) [
          | inl over ↦
              rw (full_iff, over)
                (record {
                  input = committed-IsInput s v c room;
                  same =
                      ap₂ (λ (xs ys : List ℕ). record { done_part = xs; edited = ys })
                        (committed-ready s v c room) (committed-typed s v c);
                })
          | inr more ↦
              rw (full_iff, more)
                (record {
                  input = put_char-IsInput s v c room (ground arith);
                  same =
                      ap₂ (λ (xs ys : List ℕ). record { done_part = xs; edited = ys })
                        (put_char-ready s v c room) (put_char-typed s v c room);
                })
        ]

-- ===== src/Console/Read.antt =====
-- `consoleread` takes the characters of one line.
use bf_scheduler.Common.{
  ℕ, zero, suc, ◌+◌, ◌%◌, ◌^◌, ◌≡◌, refl, arith, Bool, true, false, ◌==◌, ltb, if◌then◌else◌, List,
  [], ◌∷◌, ap, ◌∙◌, sym, inl, inr, Bool-cases,
}
use bf_scheduler.Console.{
  Input, input_buf, newline, control_d, ReadRun, ends, sleeps, fails, copied, consoleread,
}
use bf_scheduler.Console.Ring.{run, gap, IsInput, ready, typed}

-- How a read stops: with what was asked for, waiting for more, or because the reader is killed.
pub data Stop : Type 0 where
  complete : Stop
  waits : Stop
  dies : Stop

-- What reading at most `n` of `target` characters takes from a list: the characters, how the reader
-- stops, and those left. A reader that is killed stops where it would have to wait. ^D ends the input; it stays unless nothing was read before it.
pub record Taken : Type 0 where
  pub characters : List ℕ
  pub stop : Stop
  pub left : List ℕ

unfoldable pub take_line : Bool → ℕ → ℕ → List ℕ → Taken
take_line killed target zero xs = record { characters = []; stop = complete; left = xs }
take_line killed target (suc n) [] = record {
  characters = [];
  stop = if killed then dies else waits;
  left = [];
}
take_line killed target (suc n) (c ∷ xs) =
    let rest = take_line killed target n xs in
    if c == control_d
    then record {
      characters = [];
      stop = complete;
      left = if ltb (suc n) target then c ∷ xs else xs;
    }
    else if c == newline
    then record { characters = c ∷ []; stop = complete; left = xs }
    else record rest { characters = c ∷ rest.characters }

abbrev pub taken : ReadRun → Taken
taken (ends cs s) = record { characters = cs; stop = complete; left = ready s }
taken (sleeps cs n s) = record { characters = cs; stop = waits; left = ready s }
taken (fails cs s) = record { characters = cs; stop = dies; left = ready s }

abbrev pub input_of : ReadRun → Input
input_of (ends cs s) = s
input_of (sleeps cs n s) = s
input_of (fails cs s) = s

taken-copied :
    (c : ℕ) (r : ReadRun)
    → taken (copied c r) ≡ record (taken r) { characters = c ∷ (taken r).characters }
taken-copied c (ends cs s) = refl
taken-copied c (sleeps cs n s) = refl
taken-copied c (fails cs s) = refl

input_of-copied : (c : ℕ) (r : ReadRun) → input_of (copied c r) ≡ input_of r
input_of-copied c (ends cs s) = refl
input_of-copied c (sleeps cs n s) = refl
input_of-copied c (fails cs s) = refl

abbrev skipped : Input → Input
skipped s = record s { r = (s.r + 1) % 2 ^ 32 }

module _ (s : Input) (v : IsInput s) where
  skipped-gap : (s.r == s.w) ≡ false → gap s.r s.w ≡ suc (gap (skipped s).r s.w)
  skipped-gap more = ground (arith, v.r_word, v.w_word)

  skipped-IsInput : (s.r == s.w) ≡ false → IsInput (skipped s)
  skipped-IsInput more = record {
    r_word = omega arith;
    w_word = v.w_word;
    e_word = v.e_word;
    fits = omega (arith, skipped-gap more, v.fits);
    one_line = v.one_line;
  }

  skipped-ready : (s.r == s.w) ≡ false → ready s ≡ s.buf (s.r % input_buf) ∷ ready (skipped s)
  skipped-ready more = ap (run s.buf s.r) (skipped-gap more)

  nothing_ready : (s.r == s.w) ≡ true → ready s ≡ []
  nothing_ready none =
      let e : gap s.r s.w ≡ 0 = ground (arith, v.r_word, v.w_word) in ap (run s.buf s.r) e

-- With the indices in order and at most 128 apart, a run of `consoleread` copies the characters that can
-- be read up to a newline, which it copies too, up to a ^D, or `n` of them. If they are used up before,
-- it returns -1 in a process that is killed and sleeps in any other. The ^D is taken only if no character was read before it. The line being typed stays, and
-- the indices are in order.
pub consoleread-take_line :
    (killed : Bool) (target n : ℕ) (s : Input)
    → IsInput s
    → (taken (consoleread killed target n s) ≡ take_line killed target n (ready s))
      × (typed (input_of (consoleread killed target n s)) ≡ typed s)
      × IsInput (input_of (consoleread killed target n s))
unfolding consoleread take_line
consoleread-take_line killed target zero s v = (refl, refl, v)
consoleread-take_line killed target (suc n) s v = elim (Bool-cases (s.r == s.w)) [
  | inl none ↦
      let e = nothing_ready s v none in
      elim (Bool-cases killed) [
        | inl dead ↦ (
          rw (none, dead)
              (ap (λ (xs : List ℕ). record { characters = []; stop = dies; left = xs }) e
                ∙ sym (ap (take_line true target (suc n)) e)),
          rw (none, dead) refl,
          rw (none, dead) v,
        )
        | inr alive ↦ (
          rw (none, alive)
              (ap (λ (xs : List ℕ). record { characters = []; stop = waits; left = xs }) e
                ∙ sym (ap (take_line false target (suc n)) e)),
          rw (none, alive) refl,
          rw (none, alive) v,
        )
      ]
  | inr more ↦
      let e = skipped-ready s v more in
      let v' = skipped-IsInput s v more in
      let c : ℕ = s.buf (s.r % input_buf) in
      let spec : take_line killed target (suc n) (ready s)
          ≡ take_line killed target (suc n) (c ∷ ready (skipped s)) =
        ap (take_line killed target (suc n)) e in
      let (same, line, rest) = consoleread-take_line killed target n (skipped s) v' in
      elim (Bool-cases (c == control_d)) [
        | inl eof ↦ elim (Bool-cases (ltb (suc n) target)) [
          | inl later ↦ (
            rw (more, eof, later)
                (ap (λ (xs : List ℕ). record { characters = []; stop = complete; left = xs }) e
                  ∙ sym (spec ∙ rw (eof, later) refl)),
            rw (more, eof, later) refl,
            rw (more, eof, later) v,
          )
          | inr first ↦ (
            rw (more, eof, first) (sym (spec ∙ rw (eof, first) refl)),
            rw (more, eof, first) refl,
            rw (more, eof, first) v',
          )
        ]
        | inr char ↦ elim (Bool-cases (c == newline)) [
          | inl end ↦ (
            rw (more, char, end) (sym (spec ∙ rw (char, end) refl)),
            rw (more, char, end) refl,
            rw (more, char, end) v',
          )
          | inr go ↦ (
            rw (more, char, go)
                (taken-copied c (consoleread killed target n (skipped s))
                  ∙ ap (λ (t : Taken). record t { characters = c ∷ t.characters }) same
                  ∙ sym (spec ∙ rw (char, go) refl)),
            rw (more, char, go)
                (ap typed (input_of-copied c (consoleread killed target n (skipped s))) ∙ line),
            rw (more, char, go, input_of-copied c (consoleread killed target n (skipped s))) rest,
          )
        ]
      ]
]

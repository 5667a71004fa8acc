-- ===== src/Console/Keys.antt =====
-- `consoleintr` edits the line as `edit` says.
use bf_scheduler.Common.{
  ℕ, ◌+◌, ◌%◌, ◌^◌, ◌<◌, ◌≡◌, refl, arith, Bool, true, false, not, ◌&&◌, ◌||◌, ◌==◌, ltb, leb,
  if◌then◌else◌, List, [], ◌∷◌, ◌++◌, length, ap, ◌∙◌, inl, inr, Bool-cases,
}
use bf_scheduler.Console.{
  Input, input_buf, newline, return, control_d, control_p, control_u, control_h, delete, put_char,
  type_char, handle_char, consoleintr,
}
use bf_scheduler.Console.Ring.{gap, IsInput, ready, typed}
use bf_scheduler.Console.Edit.{put_char-ready}
use bf_scheduler.Console.Line.{
  Line, view, finish, edit, Shows, backspace-Shows, total, kill_line-Shows, put_char-Shows,
}

-- A result of the code that the line `l` describes; without a wakeup there is nothing new to read.
pub record Handled (s : Input) (wake : Bool) (s' : Input) (l : Line) : Type 0 where
  pub shows : Shows s' l
  pub no_news : wake ≡ false → ready s' ≡ ready s

-- The character that is stored.
abbrev stored : ℕ → ℕ
stored c = if c == return then newline else c

type_char-Handled :
    (c : ℕ) (s : Input)
    → IsInput s
    → Handled s (type_char c s).0 (type_char c s).1 (
        if (c == 0) || leb input_buf (length (ready s) + length (typed s))
        then view s
        else finish (stored c) (record (view s) { edited = typed s ++ stored c ∷ [] }))
unfolding type_char put_char
type_char-Handled c s v =
    let all = total s v in
    elim (Bool-cases ((c == 0) || leb input_buf (length (ready s) + length (typed s)))) [
      | inl ignored ↦
          let no : (not (c == 0) && ltb (gap s.r s.e) input_buf) ≡ false = ground (arith, all) in
          rw (type_char, ignored, no)
            (record { shows = record { input = v; same = refl }; no_news = λ e. refl })
      | inr taken ↦
          let yes : (not (c == 0) && ltb (gap s.r s.e) input_buf) ≡ true = ground (arith, all) in
          let room : gap s.r s.e < input_buf = ground arith in
          let shows = put_char-Shows (stored c) s v room in
          rw (type_char, taken, yes)
            (elim (Bool-cases (
              (stored c == newline)
              || (stored c == control_d)
              || ((put_char (stored c) s).e == (s.r + input_buf) % 2 ^ 32))) [
                | inl over ↦
                    rw over (record { shows = rw over at shows; no_news = λ e. ground arith })
                | inr more ↦ rw more (record {
                  shows = rw more at shows;
                  no_news = λ e. put_char-ready s v (stored c) room;
                })
              ])
    ]

handle_char-Handled :
    (c : ℕ) (s : Input)
    → IsInput s
    → Handled s (handle_char c s).1 (handle_char c s).2 (edit c (view s))
unfolding handle_char edit
handle_char-Handled c s v = elim (Bool-cases (c == control_p)) [
  | inl list ↦ rw list (record { shows = record { input = v; same = refl }; no_news = λ e. refl })
  | inr no_p ↦ elim (Bool-cases (c == control_u)) [
    | inl kill ↦
        let shows = kill_line-Shows input_buf s v (omega (arith, v.fits)) in
        rw (no_p, kill)
          (record { shows = shows; no_news = λ e. ap (λ (l : Line). l.done_part) shows.same })
    | inr no_u ↦ elim (Bool-cases ((c == control_h) || (c == delete))) [
      | inl back ↦
          let shows = backspace-Shows s v in
          rw (no_p, no_u, back)
            (record { shows = shows; no_news = λ e. ap (λ (l : Line). l.done_part) shows.same })
      | inr other ↦ rw (no_p, no_u, other) (type_char-Handled c s v)
    ]
  ]
]

-- The characters one after the other.
abbrev pub edit_all : List ℕ → Line → Line
edit_all [] l = l
edit_all (c ∷ cs) l = edit_all cs (edit c l)

-- With the indices in order, at most 128 apart, and no newline in the line being typed, this also holds
-- after `consoleintr`. The characters that can be read and the line being typed are those of an editor
-- in which ^H and DEL drop the last character, ^U the whole line, ^P and NUL nothing, other characters are
-- added while fewer than 128 are stored, a carriage return as a newline, and a newline, ^D or the 128th
-- character finishes the line. If the reader is not woken up there is nothing new to read.
pub consoleintr-Handled :
    (cs : List ℕ) (s : Input)
    → IsInput s
    → Handled s (consoleintr cs s).1 (consoleintr cs s).2 (edit_all cs (view s))
unfolding consoleintr
consoleintr-Handled [] s v = record {
  shows = record { input = v; same = refl };
  no_news = λ e. refl;
}
consoleintr-Handled (c ∷ cs) s v =
    let first = handle_char-Handled c s v in
    let rest = consoleintr-Handled cs (handle_char c s).2 first.shows.input in
    record {
      shows = record {
        input = rest.shows.input;
        same = rest.shows.same ∙ ap (edit_all cs) first.shows.same;
      };
      no_news = λ e. rest.no_news (ground arith) ∙ first.no_news (ground arith);
    }

-- ===== src/Tests/Keyboard.antt =====
-- Typing and reading on a ring whose counters are about to wrap round.
use bf_scheduler.Common.{◌≡◌, refl, arith, true, false, [], ◌∷◌, if◌then◌else◌, ◌==◌, ◌-◌, ◌^◌}
use bf_scheduler.Console.{
  Input, newline, fails, sleeps, consoleintr, consoleread, handle_char, type_char, put_char,
  backspace,
}
use bf_scheduler.Console.Ring.{IsInput, ready, typed}
use bf_scheduler.Console.Line.{view}
use bf_scheduler.Console.Keys.{Handled, edit_all, consoleintr-Handled}
use bf_scheduler.Console.Read.{taken, input_of, take_line, consoleread-take_line}

-- `ab` finished by a newline, and then `c`.
abbrev input : Input
input = record {
  buf = λ i. if i == 126 then 97 else if i == 127 then 98 else if i == 0 then newline else 99;
  r = 2 ^ 32 - 2;
  w = 1;
  e = 2;
}

input-IsInput : IsInput input
input-IsInput = record {
  r_word = omega arith;
  w_word = omega arith;
  e_word = omega arith;
  fits = omega arith;
  one_line = λ i lt. let e : i ≡ 0 = omega arith in rw e refl;
}

consoleintr-Handled_example :
    Handled input
      (consoleintr (8 ∷ 100 ∷ 13 ∷ []) input).1
      (consoleintr (8 ∷ 100 ∷ 13 ∷ []) input).2
      (edit_all (8 ∷ 100 ∷ 13 ∷ []) (view input))
consoleintr-Handled_example = consoleintr-Handled (8 ∷ 100 ∷ 13 ∷ []) input input-IsInput

consoleread-take_line_example :
    (taken (consoleread false 10 10 input) ≡ take_line false 10 10 (ready input))
    × (typed (input_of (consoleread false 10 10 input)) ≡ typed input)
    × IsInput (input_of (consoleread false 10 10 input))
consoleread-take_line_example = consoleread-take_line false 10 10 input input-IsInput

-- A process that is killed gets -1 for an empty line, any other sleeps.
abbrev empty_input : Input
empty_input = record input { r = 1 }

killed_reader :
    (consoleread true 10 10 empty_input ≡ fails [] empty_input)
    × (consoleread false 10 10 empty_input ≡ sleeps [] 10 empty_input)
unfolding consoleread
killed_reader = (refl, refl)

typed_line : ready (consoleintr (8 ∷ 100 ∷ 13 ∷ []) input).2 ≡ 97 ∷ 98 ∷ 10 ∷ 100 ∷ 10 ∷ []
unfolding consoleintr handle_char type_char put_char backspace
typed_line = refl

-- ===== src/Console.antt =====
-- console.c: the line that is being typed. The three indices are 32-bit counters into a ring; a run of
-- `consoleintr` is given the characters that `getc` returns, and what it prints is left out.
pub mod Ring
pub mod Edit
pub mod Line
pub mod Keys
pub mod Read
use bf_scheduler.Common.{
  ℕ, zero, suc, ◌+◌, ◌-◌, ◌%◌, ◌^◌, Bool, true, false, not, ◌&&◌, ◌||◌, ◌==◌, ltb, if◌then◌else◌,
  update, List, [], ◌∷◌,
}

-- `INPUT_BUF`
abbrev pub input_buf : ℕ
input_buf = 128

-- The characters that the code tells apart: `C('D')`, `C('H')`, `C('P')`, `C('U')`, and so on.
abbrev pub control_d : ℕ
control_d = 4

abbrev pub control_h : ℕ
control_h = 8

abbrev pub newline : ℕ
newline = 10

abbrev pub return : ℕ
return = 13

abbrev pub control_p : ℕ
control_p = 16

abbrev pub control_u : ℕ
control_u = 21

abbrev pub delete : ℕ
delete = 127

-- `input`
pub record Input : Type 0 where
  pub buf : ℕ → ℕ
  pub r : ℕ
  pub w : ℕ
  pub e : ℕ

-- `input.e--` and `input.buf[(input.e-1) % INPUT_BUF]`
abbrev pub step_back : Input → Input
step_back s = record s { e = (s.e + 2 ^ 32 - 1) % 2 ^ 32 }

abbrev pub last_char : Input → ℕ
last_char s = s.buf ((s.e + 2 ^ 32 - 1) % 2 ^ 32 % input_buf)

-- The loop for ^U, which stops after at most `INPUT_BUF` rounds.
unfoldable pub kill_line : ℕ → Input → Input
kill_line zero s = s
kill_line (suc fuel) s =
    let rest = kill_line fuel (step_back s) in
    if not (s.e == s.w) && not (last_char s == newline) then rest else s

unfoldable pub backspace : Input → Input
backspace s = if s.e == s.w then s else step_back s

-- `input.buf[input.e++ % INPUT_BUF] = c;`
unfoldable pub put_char : ℕ → Input → Input
put_char c s = record s { buf = update s.buf (s.e % input_buf) c; e = (s.e + 1) % 2 ^ 32 }

-- The default case: whether the reader is woken up, and the state.
unfoldable pub type_char : ℕ → Input → Bool × Input
type_char c s =
    let c' = if c == return then newline else c in
    let s' = put_char c' s in
    if not (c == 0) && ltb ((s.e + 2 ^ 32 - s.r) % 2 ^ 32) input_buf
    then (if (c' == newline) || (c' == control_d) || (s'.e == (s'.r + input_buf) % 2 ^ 32)
        then (true, record s' { w = s'.e })
        else (false, s'))
    else (false, s)

-- The body of the loop of `consoleintr`: whether the process list is asked for, whether the reader is
-- woken up, and the state.
unfoldable pub handle_char : ℕ → Input → Bool × Bool × Input
handle_char c s =
    if c == control_p
    then (true, false, s)
    else if c == control_u
    then (false, false, kill_line input_buf s)
    else if (c == control_h) || (c == delete)
    then (false, false, backspace s)
    else (let (wake, s') = type_char c s in (false, wake, s'))

-- `consoleintr`, for the characters that `getc` returns before a negative number.
unfoldable pub consoleintr : List ℕ → Input → Bool × Bool × Input
consoleintr [] s = (false, false, s)
consoleintr (c ∷ cs) s =
    let (dump, wake, s') = handle_char c s in
    let (dump', wake', s'') = consoleintr cs s' in (dump || dump', wake || wake', s'')

-- A run of the loop of `consoleread` up to its end, its next sleep, with `n` of `target` bytes left, or
-- the return of -1: the bytes that it has copied.
pub data ReadRun : Type 0 where
  ends : List ℕ → Input → ReadRun
  sleeps : List ℕ → ℕ → Input → ReadRun
  fails : List ℕ → Input → ReadRun

abbrev pub copied : ℕ → ReadRun → ReadRun
copied c (ends cs s) = ends (c ∷ cs) s
copied c (sleeps cs n s) = sleeps (c ∷ cs) n s
copied c (fails cs s) = fails (c ∷ cs) s

-- `consoleread` of a process that is `killed` or not.
unfoldable pub consoleread : Bool → ℕ → ℕ → Input → ReadRun
consoleread killed target zero s = ends [] s
consoleread killed target (suc n) s =
    let c = s.buf (s.r % input_buf) in
    let s' = record s { r = (s.r + 1) % 2 ^ 32 } in
    let rest = consoleread killed target n s' in
    if s.r == s.w
    then (if killed then fails [] s else sleeps [] (suc n) s)
    else if c == control_d
    then ends [] (if ltb (suc n) target then s else s')
    else if c == newline
    then ends (c ∷ []) s'
    else copied c rest

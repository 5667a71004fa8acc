-- ===== src/Arguments.antt =====
-- syscall.c: the arguments of a system call, read from the memory of the process. `sz` is the size of
-- that memory and `esp` the saved stack pointer.
pub mod Bounds
use bf_scheduler.Common.{
  ℕ, zero, suc, ◌+◌, ◌-◌, ◌*◌, ◌%◌, ◌^◌, Bool, Option, none, some, ◌||◌, ◌==◌, ltb, leb,
  if◌then◌else◌,
}
use bf_scheduler.Common.Int.{ℤ, pos, pos_part, ltb_ℤ}
use bf_scheduler.Strings.{Memory}
use bf_scheduler.Pages.{load_word}

-- `fetchint`: the word, or none for -1.
unfoldable pub fetchint : Memory → ℕ → ℕ → Option ℕ
fetchint m sz addr =
    if leb sz addr || ltb sz ((addr + 4) % 2 ^ 32) then none else some (load_word m addr)

-- The loop of `fetchstr` over `n` bytes.
unfoldable pub fetch_bytes : Memory → ℕ → ℕ → Option ℕ
fetch_bytes m zero s = none
fetch_bytes m (suc n) s =
    if m s == 0
    then some 0
    else elim (fetch_bytes m n (s + 1)) [ none ↦ none | some len ↦ some (suc len) ]

-- `fetchstr`: the length of the string at `addr`.
unfoldable pub fetchstr : Memory → ℕ → ℕ → Option ℕ
fetchstr m sz addr = if leb sz addr then none else fetch_bytes m (sz - addr) addr

-- `argint`
unfoldable pub argint : Memory → ℕ → ℕ → ℕ → Option ℕ
argint m sz esp n = fetchint m sz ((esp + 4 + 4 * n) % 2 ^ 32)

-- `argptr`: the pointer.
unfoldable pub argptr : Memory → ℕ → ℕ → ℕ → ℤ → Option ℕ
argptr m sz esp n size = elim (argint m sz esp n) [
  | none ↦ none
  | some i ↦
      if ltb_ℤ size (pos 0) || leb sz i || ltb sz ((i + pos_part size) % 2 ^ 32)
      then none
      else some i
]

-- `argstr`: the pointer and the length.
unfoldable pub argstr : Memory → ℕ → ℕ → ℕ → Option (ℕ × ℕ)
argstr m sz esp n = elim (argint m sz esp n) [
  | none ↦ none
  | some addr ↦ elim (fetchstr m sz addr) [ none ↦ none | some len ↦ some (addr, len) ]
]

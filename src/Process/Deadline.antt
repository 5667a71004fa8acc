-- ===== src/Process/Deadline.antt =====
-- The virtual deadline of bfs.h and proc.c, in C's arithmetic on `uint` and `int`.
use bf_scheduler.Common.{
  ℕ, ◌+◌, ◌-◌, ◌*◌, ◌%◌, ◌^◌, ◌<◌, ◌≡◌, ◌↔◌, sym, ◌∙◌, arith, ltb, if◌then◌else◌,
}
use bf_scheduler.Common.Int.{ℤ, pos, negsuc, ◌+ℤ◌, ◌*ℤ◌, ◌≤ℤ◌, ◌<ℤ◌, pos_part, neg_part}

-- `BFS_DEFAULT_QUANTUM`, `BFS_NICE_FIRST_LEVEL` and `BFS_NICE_LAST_LEVEL`
abbrev pub default_quantum : ℕ
default_quantum = 50

abbrev pub nice_first_level : ℤ
nice_first_level = negsuc 19

abbrev pub nice_last_level : ℤ
nice_last_level = pos 19

-- An `int` as a `uint`, and back.
abbrev pub to_uint : ℤ → ℕ
to_uint (pos n) = n % 2 ^ 32
to_uint (negsuc n) = 2 ^ 32 - 1 - n % 2 ^ 32

abbrev pub to_int : ℕ → ℤ
to_int w = if ltb w (2 ^ 31) then pos w else negsuc (2 ^ 32 - 1 - w)

-- `ticks + PRIO_RATIO(niceness) * BFS_DEFAULT_QUANTUM`. The macro is the bare text `n + 21`, so the
-- product takes only the 21.
unfoldable pub virtual_deadline : ℕ → ℤ → ℤ
virtual_deadline ticks niceness =
    to_int ((ticks + to_uint niceness + 21 * default_quantum) % 2 ^ 32)

-- The deadline as the comment in `struct proc` has it: the time plus the product of the priority
-- ratio and the quantum.
unfoldable pub documented_deadline : ℕ → ℤ → ℤ
unfolding ◌+ℤ◌ ◌*ℤ◌
documented_deadline ticks niceness = pos ticks +ℤ (niceness +ℤ pos 21) *ℤ pos default_quantum

-- A niceness that `nicefork` accepts.
abbrev pub IsNice : ℤ → Type 0
IsNice n = (nice_first_level ≤ℤ n) × (n ≤ℤ nice_last_level)

-- Before the clock nears 2^31 the deadline is the time plus the niceness plus 1050.
pub virtual_deadline-add :
    (ticks : ℕ) (n : ℤ)
    → IsNice n
    → ticks < 2 ^ 31 - 2000
    → virtual_deadline ticks n ≡ pos (ticks + 1050) +ℤ n
unfolding virtual_deadline ◌+ℤ◌
virtual_deadline-add ticks n nice small = ground arith

-- The documented deadline, written without products of integers.
documented_deadline-eq :
    (ticks : ℕ) (n : ℤ)
    → IsNice n
    → documented_deadline ticks n ≡ pos (ticks + 50 * (21 + pos_part n - neg_part n))
unfolding documented_deadline
documented_deadline-eq ticks (pos m) nice = ground arith
documented_deadline-eq ticks (negsuc m) nice = ground arith

virtual_deadline-eq :
    (ticks : ℕ) (n : ℤ)
    → IsNice n
    → ticks < 2 ^ 31 - 2000
    → virtual_deadline ticks n ≡ pos (ticks + 1050 + pos_part n - neg_part n)
unfolding virtual_deadline
virtual_deadline-eq ticks (pos m) nice small = ground arith
virtual_deadline-eq ticks (negsuc m) nice small = ground arith

pos_inj : {a b : ℕ} → pos a ≡ pos b → a ≡ b
pos_inj e = ground arith

zero_of_parts : (n : ℤ) → pos_part n ≡ neg_part n → n ≡ pos 0
zero_of_parts n e = ground arith

-- For a niceness in its range, before the clock nears the largest `int`, the deadline is the
-- documented one if the niceness is 0 and only then.
pub documented_deadline-eq_iff :
    (ticks : ℕ) (n : ℤ)
    → IsNice n
    → ticks < 2 ^ 31 - 2000
    → (virtual_deadline ticks n ≡ documented_deadline ticks n) ↔ (n ≡ pos 0)
documented_deadline-eq_iff ticks n nice small = (
  λ e.
      let same : ticks + 1050 + pos_part n - neg_part n
          ≡ ticks + 50 * (21 + pos_part n - neg_part n) =
        pos_inj (
          sym (virtual_deadline-eq ticks n nice small) ∙ e ∙ documented_deadline-eq ticks n nice) in
      zero_of_parts n (omega arith),
  λ e.
      virtual_deadline-eq ticks n nice small
      ∙ ground arith
      ∙ sym (documented_deadline-eq ticks n nice),
)

-- For nicenesses in their range, at one time before the clock nears the largest `int`, a nicer
-- process has the later deadline, by no more than 39.
pub virtual_deadline_mono :
    (ticks : ℕ) (m n : ℤ)
    → IsNice m
    → IsNice n
    → ticks < 2 ^ 31 - 2000
    → m <ℤ n
    → (virtual_deadline ticks m <ℤ virtual_deadline ticks n)
      × (virtual_deadline ticks n ≤ℤ virtual_deadline ticks m +ℤ pos 39)
unfolding virtual_deadline ◌+ℤ◌
virtual_deadline_mono ticks m n hm hn small lt = (ground arith, ground arith)

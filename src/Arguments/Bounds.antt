-- ===== src/Arguments/Bounds.antt =====
-- Pointers that pass the checks stay in the memory of the process.
use bf_scheduler.Common.{
  ℕ, zero, suc, ◌+◌, ◌-◌, ◌*◌, ◌%◌, ◌^◌, ◌≤◌, ◌<◌, ◌≡◌, ◌↔◌, refl, arith, false, some, ◌==◌, inl,
  inr, Bool-cases, Option-cases, ap, ◌∙◌, leb,
}
use bf_scheduler.Common.Int.{pos}
use bf_scheduler.Strings.{Memory}
use bf_scheduler.Pages.{load_word}
use bf_scheduler.Arguments.{fetchint, fetch_bytes, fetchstr, argint, argptr}

-- The `n`th word on the stack of the process is `i`, and lies in its memory.
pub record IsArgument (m : Memory) (sz esp n i : ℕ) : Type 0 where
  pub inside_memory : (esp + 4 + 4 * n) % 2 ^ 32 + 4 ≤ sz
  pub word : load_word m ((esp + 4 + 4 * n) % 2 ^ 32) ≡ i

argint_iff :
    (m : Memory) (sz esp n i : ℕ)
    → sz ≤ 2 ^ 31
    → (argint m sz esp n ≡ some i) ↔ IsArgument m sz esp n i
unfolding argint fetchint
argint_iff m sz esp n i small = (
  λ h. record { inside_memory = ground arith; word = ground arith },
  λ a. ground (arith, a.inside_memory, a.word),
)

-- In a memory of at most 2 GB, `argptr` for a size below 2^31 returns exactly the arguments that point
-- to a block of that size inside the memory, from its first byte to its last.
pub argptr_iff :
    (m : Memory) (sz esp n size i : ℕ)
    → sz ≤ 2 ^ 31
    → size < 2 ^ 31
    → (argptr m sz esp n (pos size) ≡ some i)
      ↔ (IsArgument m sz esp n i × (i < sz) × (i + size ≤ sz))
unfolding argptr
argptr_iff m sz esp n size i small int =
    let (read, write) = argint_iff m sz esp n i small in
    elim (Option-cases (argint m sz esp n)) [
      | inl failed ↦ (λ h. ground (arith, failed), λ h. ground (arith, failed, write h.0))
      | inr (j, got) ↦ (
        λ h.
            let same : j ≡ i = ground (arith, got) in
            (read (got ∙ ap some same), ground (arith, got, same), ground (arith, got, same)),
        λ h. ground (arith, got, write h.0),
      )
    ]

fetch_bytes-zero : (m : Memory) (n s : ℕ) → fetch_bytes m (suc n) s ≡ some 0 → m s ≡ 0
unfolding fetch_bytes
fetch_bytes-zero m n s h = elim (Bool-cases (m s == 0)) [
  | inl at ↦ ground arith
  | inr byte ↦ elim (Option-cases (fetch_bytes m n (s + 1))) [
    | inl e ↦ ground (arith, e)
    | inr (j, e) ↦ ground (arith, e)
  ]
]

fetch_bytes-suc :
    (m : Memory) (n s len : ℕ)
    → fetch_bytes m (suc n) s ≡ some (suc len)
    → ((m s == 0) ≡ false) × (fetch_bytes m n (s + 1) ≡ some len)
unfolding fetch_bytes
fetch_bytes-suc m n s len h = elim (Bool-cases (m s == 0)) [
  | inl at ↦ ground (arith, at)
  | inr byte ↦ elim (Option-cases (fetch_bytes m n (s + 1))) [
    | inl e ↦ ground (arith, e)
    | inr (j, e) ↦ (byte, ground (arith, e))
  ]
]

fetch_bytes_iff :
    (m : Memory) (n s len : ℕ)
    → (fetch_bytes m n s ≡ some len)
      ↔ ((len < n) × (m (s + len) ≡ 0) × ((i : ℕ) → i < len → (m (s + i) == 0) ≡ false))
unfolding fetch_bytes
fetch_bytes_iff m zero s len = (λ h. ground arith, λ h. ground arith)
fetch_bytes_iff m (suc n) s zero =
    let e : s + 0 ≡ s = omega arith in
    rw e (λ h. (omega arith, fetch_bytes-zero m n s h, λ i lt. ground arith), λ h. ground arith)
fetch_bytes_iff m (suc n) s (suc len) =
    let (read, write) = fetch_bytes_iff m n (s + 1) len in
    let e : s + suc len ≡ s + 1 + len = omega arith in
    rw e (
      λ h.
          let (first, rest) = fetch_bytes-suc m n s len h in
          let (lt, nul, before) = read rest in
          (
            omega arith,
            nul,
            λ i il. elim (Bool-cases (i == 0)) [
              | inl at ↦ let e0 : s + i ≡ s = ground arith in rw e0 first
              | inr later ↦
                  let e1 : s + i ≡ s + 1 + (i - 1) = ground arith in
                  rw e1 (before (i - 1) (ground arith))
            ],
          ),
      λ (lt, nul, before).
          let first : (m s == 0) ≡ false =
            (let e0 : s + 0 ≡ s = omega arith in rw e0 at (before 0 (omega arith))) in
          let rest : fetch_bytes m n (s + 1) ≡ some len = write (
            omega arith,
            nul,
            λ i il.
                let e1 : s + suc i ≡ s + 1 + i = omega arith in
                rw e1 at (before (suc i) (omega arith)),
          ) in
          rw (fetch_bytes, first, rest) refl,
    )

-- `fetchstr` returns a length exactly if a string of that length, with its NUL, lies at the address
-- inside the memory of the process.
pub fetchstr_iff :
    (m : Memory) (sz addr len : ℕ)
    → (fetchstr m sz addr ≡ some len) ↔ (
        (addr + len < sz)
        × (m (addr + len) ≡ 0)
        × ((i : ℕ) → i < len → (m (addr + i) == 0) ≡ false))
unfolding fetchstr
fetchstr_iff m sz addr len = elim (Bool-cases (leb sz addr)) [
  | inl out ↦ (λ h. ground (arith, out), λ h. ground (arith, h.0))
  | inr within ↦
      let (read, write) = fetch_bytes_iff m (sz - addr) addr len in
      (
        λ h. let (lt, nul, before) = read (ground arith) in (ground arith, nul, before),
        λ (lt, nul, before). ground (arith, write (omega arith, nul, before)),
      )
]

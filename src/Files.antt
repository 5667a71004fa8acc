-- ===== src/Files.antt =====
-- file.c: the table of open files. Each function runs its section under `ftable.lock` as one step, and
-- a pointer to a `struct file` is the index in the table. `readi` and `writei` are arguments.
pub mod Table
pub mod Write
use bf_scheduler.Common.{
  ℕ, zero, suc, ◌+◌, ◌-◌, ◌*◌, ◌/◌, ◌%◌, ◌^◌, Bool, Option, none, some, ◌==◌, ltb, not,
  if◌then◌else◌, update, List, [], ◌∷◌, ◌++◌, length, Outcome, done, panicked, ◌>>=◌,
}
use bf_scheduler.Common.Int.{ℤ, pos, pos_part, ltb_ℤ, eqb_ℤ}
use bf_scheduler.SkipList.{minus_one}

-- `NFILE`
abbrev pub nfile : ℕ
nfile = 100

-- `type` of `struct file`, and the object that it says the file stands for.
pub data FileType : Type 0 where
  fd_none fd_pipe fd_inode : FileType

-- `struct file`; `pipe` and `ip` are pointers.
pub record File : Type 0 where
  pub type : FileType
  pub ref : ℕ
  pub readable : Bool
  pub writable : Bool
  pub pipe : ℕ
  pub ip : ℕ
  pub off : ℕ

abbrev pub Table : Type 0
Table = ℕ → File

-- The loop of `filealloc`, over the `n` files from `i` on.
unfoldable pub alloc_from : Table → ℕ → ℕ → Option ℕ
alloc_from t zero i = none
alloc_from t (suc n) i =
    let rest = alloc_from t n (suc i) in if (t i).ref == 0 then some i else rest

-- `filealloc`
unfoldable pub filealloc : Table → Option ℕ × Table
filealloc t = elim (alloc_from t nfile 0) [
  | none ↦ (none, t)
  | some i ↦ (some i, update t i (record (t i) { ref = 1 }))
]

-- `filedup`
unfoldable pub filedup : Table → ℕ → Outcome Table
filedup t i =
    if (t i).ref == 0 then panicked else done (update t i (record (t i) { ref = (t i).ref + 1 }))

-- What `fileclose` does after its section: nothing, `pipeclose`, or `iput` in a transaction.
pub data Closing : Type 0 where
  keeps : Closing
  closes_pipe : ℕ → Bool → Closing
  puts_inode : ℕ → Closing

abbrev pub closing : File → Closing
closing f = elim f.type [
  | fd_none ↦ keeps
  | fd_pipe ↦ closes_pipe f.pipe f.writable
  | fd_inode ↦ puts_inode f.ip
]

-- `fileclose`
unfoldable pub fileclose : Table → ℕ → Outcome (Closing × Table)
fileclose t i =
    if (t i).ref == 0
    then panicked
    else if ltb 0 ((t i).ref - 1)
    then done (keeps, update t i (record (t i) { ref = (t i).ref - 1 }))
    else done (closing (t i), update t i (record (t i) { ref = 0; type = FileType.fd_none }))

-- `max` of `filewrite`: `((MAXOPBLOCKS-1-1-2) / 2) * 512`
abbrev pub write_max : ℕ
write_max = (10 - 1 - 1 - 2) / 2 * 512

-- `n1` in a round of its loop with `n` bytes left.
unfoldable pub piece_size : ℕ → ℕ
piece_size n = if ltb write_max n then write_max else n

-- The `k` first elements of a list, and the others.
abbrev pub take {ℓ} : {A : Type ℓ} → ℕ → List A → List A
take zero xs = []
take (suc k) [] = []
take (suc k) (x ∷ xs) = x ∷ take k xs

abbrev pub drop {ℓ} : {A : Type ℓ} → ℕ → List A → List A
drop zero xs = xs
drop (suc k) [] = []
drop (suc k) (x ∷ xs) = drop k xs

-- A transaction with `writei` of the file's inode: the bytes at an offset.
abbrev pub Writer {ℓ} : Type ℓ → Type ℓ
Writer S = S → ℕ → List ℕ → Outcome (ℤ × S)

-- The loop of `filewrite` for the bytes that are left: whether all were written, the offset, and the
-- state of the file system.
unfoldable pub write_loop {ℓ} :
    {S : Type ℓ} → Writer S → ℕ → List ℕ → ℕ → S → Outcome (Bool × ℕ × S)
write_loop writei fuel [] off s = done (Bool.true, off, s)
write_loop writei zero (b ∷ bs) off s = Outcome.out_of_fuel
write_loop writei (suc fuel) (b ∷ bs) off s =
    let n1 = piece_size (length (b ∷ bs)) in
    writei s off (take n1 (b ∷ bs)) >>= λ (r, s').
    let off' = if ltb_ℤ (pos 0) r then (off + pos_part r) % 2 ^ 32 else off in
    let rest = write_loop writei fuel (drop n1 (b ∷ bs)) off' s' in
    if ltb_ℤ r (pos 0)
    then done (Bool.false, off', s')
    else if eqb_ℤ r (pos n1)
    then rest
    else panicked

-- `filewrite`, with `pipewrite` for pipes: the result, the file and the state.
unfoldable pub filewrite {ℓ} :
    {S : Type ℓ} → (S → ℕ → List ℕ → ℤ × S) → Writer S → File → List ℕ → S → Outcome (ℤ × File × S)
filewrite pipewrite writei f bs s = if not f.writable then done (minus_one, f, s) else elim f.type [
  | fd_none ↦ panicked
  | fd_pipe ↦ (let (r, s') = pipewrite s f.pipe bs in done (r, f, s'))
  | fd_inode ↦
      (write_loop writei (length bs) bs f.off s >>= λ (all, off, s').
      done (if all then pos (length bs) else minus_one, record f { off = off }, s'))
]

-- `fileread`, with `piperead` and `readi`: the result, the bytes, the file and the state.
unfoldable pub fileread {ℓ} :
    {S : Type ℓ}
    → (S → ℕ → ℕ → (ℤ × List ℕ) × S)
    → (S → ℕ → ℕ → (ℤ × List ℕ) × S)
    → File
    → ℕ
    → S
    → Outcome ((ℤ × List ℕ) × File × S)
fileread piperead readi f n s =
    if not f.readable then done ((minus_one, []), f, s) else elim f.type [
      | fd_none ↦ panicked
      | fd_pipe ↦ (let (r, s') = piperead s f.pipe n in done (r, f, s'))
      | fd_inode ↦
          (let ((r, bs), s') = readi s f.off n in
            done (
              (r, bs),
              (if ltb_ℤ (pos 0) r then record f { off = (f.off + pos_part r) % 2 ^ 32 } else f),
              s',
            ))
    ]

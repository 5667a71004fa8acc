-- ===== src/Log.antt =====
-- log.c: the redo log of the file system. A disk block is the sequence of its 32-bit words. The
-- buffer cache and the disk are seen through `Store`.
pub mod Loops
pub mod Shape
pub mod Finish
pub mod Crash
pub mod Atomic
pub mod Absorb
use bf_scheduler.Common.{
  ℕ, zero, suc, ◌+◌, ◌-◌, ◌*◌, ◌^◌, Bool, true, false, Option, none, some, ◌||◌, ◌==◌, ltb, leb,
  if◌then◌else◌, update, Outcome, done, out_of_bounds, panicked, ◌>>=◌,
}
use bf_scheduler.Common.Int.{ℤ, pos, negsuc, ◌+ℤ◌, eqb_ℤ, ltb_ℤ, ◌*ℤ◌}

-- `MAXOPBLOCKS` and `LOGSIZE`
abbrev pub max_op_blocks : ℕ
max_op_blocks = 10

abbrev pub log_size : ℕ
log_size = max_op_blocks * 3

abbrev pub Block : Type 0
Block = ℕ → ℕ

-- What `bread` returns for each block, what the disk holds, and the number of writes that still
-- reach the disk before the machine fails.
pub record Store : Type 0 where
  pub mem : ℕ → Block
  pub disk : ℕ → Block
  pub power : ℕ

-- `bwrite` of block `b` with the contents `d`.
unfoldable pub write_block : Store → ℕ → Block → Store
write_block s b d = record {
  mem = update s.mem b d;
  disk = if s.power == 0 then s.disk else update s.disk b d;
  power = s.power - 1;
}

-- `struct logheader`
pub record LogHeader : Type 0 where
  pub n : ℕ
  pub block : ℕ → ℕ

-- The header as the words of a block, and a header read from a block. A count with the sign bit set
-- is negative, so the loops over it do nothing.
abbrev pub encode : LogHeader → Block → Block
encode lh d zero = lh.n
encode lh d (suc i) = if ltb i lh.n then lh.block i else d (suc i)

abbrev pub count_of : ℕ → ℕ
count_of w = if ltb w (2 ^ 31) then w else 0

-- `install_trans`, for the first `t` blocks.
unfoldable pub install_trans : ℕ → LogHeader → ℕ → Store → Store
install_trans start lh zero s = s
install_trans start lh (suc t) s =
    let s' = install_trans start lh t s in write_block s' (lh.block t) (s'.mem (start + t + 1))

-- `write_log`, for the first `t` blocks.
unfoldable pub write_log : ℕ → LogHeader → ℕ → Store → Store
write_log start lh zero s = s
write_log start lh (suc t) s =
    let s' = write_log start lh t s in write_block s' (start + t + 1) (s'.mem (lh.block t))

-- `write_head`
unfoldable pub write_head : ℕ → LogHeader → Store → Store
unfolding write_block
write_head start lh s = write_block s start (encode lh (s.mem start))

-- `read_head`: more blocks than `LOGSIZE` overrun the header in memory.
unfoldable pub read_head : ℕ → LogHeader → Store → Outcome LogHeader
read_head start lh s =
    let n = count_of (s.mem start 0) in
    if ltb log_size n
    then out_of_bounds
    else done (record { n = n; block = λ i. if ltb i n then s.mem start (suc i) else lh.block i })

abbrev pub cleared : LogHeader → LogHeader
cleared lh = record lh { n = 0 }

-- The last steps of `recover_from_log` and of `commit`.
unfoldable pub finish : ℕ → LogHeader → Store → LogHeader × Store
finish start lh s = (cleared lh, write_head start (cleared lh) (install_trans start lh lh.n s))

-- `recover_from_log`
unfoldable pub recover_from_log : ℕ → LogHeader → Store → Outcome (LogHeader × Store)
recover_from_log start lh s = read_head start lh s >>= λ lh'. done (finish start lh' s)

-- `commit`
unfoldable pub commit : ℕ → LogHeader → Store → LogHeader × Store
commit start lh s =
    if ltb 0 lh.n
    then finish start lh (write_head start lh (write_log start lh lh.n s))
    else (lh, s)

-- `struct log`, less the device. `outstanding` is a C `int`.
pub record Log : Type 0 where
  pub start : ℕ
  pub size : ℕ
  pub outstanding : ℤ
  pub committing : Bool
  pub lh : LogHeader

-- One turn of the loop of `begin_op`, under the lock: nothing if it has to sleep.
unfoldable pub begin_op : Log → Option Log
unfolding ◌+ℤ◌ ◌*ℤ◌
begin_op l =
    if l.committing
    then none
    else if ltb_ℤ (pos log_size) (pos l.lh.n +ℤ (l.outstanding +ℤ pos 1) *ℤ pos max_op_blocks)
    then none
    else some (record l { outstanding = l.outstanding +ℤ pos 1 })

-- The first section of `end_op`: whether this call has to commit.
unfoldable pub leave_op : Log → Outcome (Bool × Log)
unfolding ◌+ℤ◌
leave_op l =
    let left = l.outstanding +ℤ negsuc 0 in
    if l.committing
    then panicked
    else if eqb_ℤ left (pos 0)
    then done (true, record l { outstanding = left; committing = true })
    else done (false, record l { outstanding = left })

-- `end_op`
unfoldable pub end_op : Log → Store → Outcome (Log × Store)
end_op l s = leave_op l >>= λ (last, l').
    let (lh', s') = commit l'.start l'.lh s in
    done (if last then (record l' { lh = lh'; committing = false }, s') else (l', s))

-- The index at which `log_write` puts a block number: where it is, or behind the others.
unfoldable pub slot_of : ℕ → LogHeader → ℕ → ℕ → ℕ
slot_of zero lh b i = i
slot_of (suc k) lh b i = let rest = slot_of k lh b (suc i) in if lh.block i == b then i else rest

-- `log_write` of the block `b`
unfoldable pub log_write : Log → ℕ → Outcome Log
log_write l b =
    if leb log_size l.lh.n || leb l.size (l.lh.n + 1)
    then panicked
    else if ltb_ℤ l.outstanding (pos 1)
    then panicked
    else let i = slot_of l.lh.n l.lh b 0 in
      done (record l {
        lh = record {
          n = if i == l.lh.n then l.lh.n + 1 else l.lh.n;
          block = update l.lh.block i b;
        };
      })

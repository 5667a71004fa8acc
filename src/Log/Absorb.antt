-- ===== src/Log/Absorb.antt =====
-- `begin_op` reserves room in the log, and `log_write` fills it.
use bf_scheduler.Common.{
  ℕ, zero, suc, ◌+◌, ◌≤◌, ◌<◌, ◌≡◌, refl, false, some, arith, ◌==◌, ==→eq, if◌then◌else◌, update,
  List, [], ◌∷◌, length, All, ◌∙◌, ap, sym, Bool-cases, inl, inr, Outcome, done, ◌>>=◌,
}
use bf_scheduler.Common.Int.{pos, ◌≤ℤ◌, ◌+ℤ◌, ◌*ℤ◌}
use bf_scheduler.Log.{Log, LogHeader, log_size, max_op_blocks, begin_op, slot_of, log_write}
use bf_scheduler.Log.Loops.{IsHome, IsTransaction}

-- The index is the first that holds the number, or the end.
record IsSlot (lh : LogHeader) (b i k j : ℕ) : Type 0 where
  lower : i ≤ j
  upper : j ≤ i + k
  misses : (l : ℕ) → i ≤ l → l < j → (lh.block l == b) ≡ false
  hits : j < i + k → lh.block j ≡ b

slot_of-IsSlot : (k : ℕ) (lh : LogHeader) (b i : ℕ) → IsSlot lh b i k (slot_of k lh b i)
unfolding slot_of
slot_of-IsSlot zero lh b i = record {
  lower = omega arith;
  upper = omega arith;
  misses = λ l lo hi. absurd (omega arith);
  hits = λ lt. absurd (omega arith);
}
slot_of-IsSlot (suc k) lh b i = elim (Bool-cases (lh.block i == b)) [
  | inl hit ↦ rw hit (record {
    lower = omega arith;
    upper = omega arith;
    misses = λ l lo hi. absurd (omega arith);
    hits = λ lt. ==→eq _ _ hit;
  })
  | inr miss ↦
      let f = slot_of-IsSlot k lh b (suc i) in
      rw miss (record {
        lower = omega (arith, f.lower);
        upper = omega (arith, f.upper);
        misses = λ l lo hi. elim (Bool-cases (l == i)) [
          | inl here ↦ rw (==→eq l i here) miss
          | inr later ↦ f.misses l (ground arith) hi
        ];
        hits = λ lt. f.hits (omega arith);
      })
]

-- What `log_write` of `b` does to the header.
pub record Written (start b : ℕ) (l l' : Log) : Type 0 where
  pub transaction : IsTransaction start l'.lh
  pub listed : (i : ℕ) × (i < l'.lh.n) × (l'.lh.block i ≡ b)
  pub kept : (i : ℕ) → i < l.lh.n → l'.lh.block i ≡ l.lh.block i
  pub grows : (l.lh.n ≤ l'.lh.n) × (l'.lh.n ≤ l.lh.n + 1)
  pub same : (l'.outstanding ≡ l.outstanding) × (l'.size ≡ l.size)

-- The header after `log_write` holds no number twice.
write-once :
    {start : ℕ} {lh : LogHeader}
    → IsTransaction start lh
    → (b i : ℕ) → IsSlot lh b 0 lh.n i
    → (j m : ℕ) → j < m
    → m < (if i == lh.n then lh.n + 1 else lh.n)
    → (update lh.block i b j == update lh.block i b m) ≡ false
write-once {lh = lh} tr b i f j m lt le = elim (Bool-cases (i == lh.n)) [
  | inl end ↦ elim (Bool-cases (m == i)) [
    | inl last ↦ ground (arith, f.misses j (omega arith) (ground arith), ==→eq m i last)
    | inr before ↦ ground (arith, tr.once j m lt (ground (arith, f.upper)), f.upper)
  ]
  | inr inner ↦
      let same : (x : ℕ) → update lh.block i b x ≡ lh.block x = λ x. elim (Bool-cases (x == i)) [
        | inl here ↦ rw here (sym (ap lh.block (==→eq x i here) ∙ f.hits (ground (arith, f.upper))))
        | inr other ↦ rw other refl
      ] in
      rw (same j, same m) (tr.once j m lt (ground arith))
]

-- Inside an operation, with room in the log, `log_write` does not panic: the block is listed once,
-- behind the others if it was not listed before, and the listed blocks stay a transaction.
pub log_write-Written :
    (start b : ℕ) (l : Log)
    → IsTransaction start l.lh
    → IsHome start b
    → l.lh.n < log_size
    → l.lh.n + 1 < l.size
    → pos 1 ≤ℤ l.outstanding
    → (l' : Log) × (log_write l b ≡ done l') × Written start b l l'
unfolding log_write
log_write-Written start b l tr home room sized open_op =
    let i = slot_of l.lh.n l.lh b 0 in
    let f = slot_of-IsSlot l.lh.n l.lh b 0 in
    (
      record l {
        lh = record {
          n = if i == l.lh.n then l.lh.n + 1 else l.lh.n;
          block = update l.lh.block i b;
        };
      },
      ground arith,
      record {
        transaction = record {
          fits = ground (arith, tr.fits);
          home = λ j lt. ground (arith, tr.home j, f.upper);
          once = λ j m lt le. write-once tr b i f j m lt le;
        };
        listed = (i, ground (arith, f.upper), ground arith);
        kept = λ j lt. elim (Bool-cases (j == i)) [
          | inl here ↦ ground (arith, f.hits, ==→eq j i here)
          | inr other ↦ rw other refl
        ];
        grows = (ground arith, ground arith);
        same = (refl, refl);
      },
    )

-- The writes of one operation in a row.
abbrev pub log_writes : Log → List ℕ → Outcome Log
log_writes l [] = done l
log_writes l (b ∷ bs) = log_write l b >>= λ l'. log_writes l' bs

log_writes_room :
    (start : ℕ) (bs : List ℕ) (l : Log)
    → IsTransaction start l.lh
    → All (IsHome start) bs
    → l.lh.n + length bs ≤ log_size
    → l.lh.n + length bs < l.size
    → pos 1 ≤ℤ l.outstanding
    → (l' : Log) × (log_writes l bs ≡ done l')
      × IsTransaction start l'.lh
      × (l'.lh.n ≤ l.lh.n + length bs)
log_writes_room start [] l tr homes room sized open_op = (l, refl, tr, omega arith)
log_writes_room start (b ∷ bs) l tr homes room sized open_op =
    let (l1, run, w) = log_write-Written start b l tr homes.0 (omega arith) (omega arith) open_op in
    let (l2, run', tr', few) =
      log_writes_room start bs l1 w.transaction homes.1 (omega (arith, w.grows))
        (ground (arith, w.same, w.grows)) (ground (arith, w.same)) in
    (l2, rw run run', tr', omega (arith, few, w.grows))

-- `begin_op` lets an operation in only while nothing is committing, and then the log has room for
-- `MAXOPBLOCKS` blocks of every operation that is open, the new one included. In a log that holds a
-- transaction the new operation may write `MAXOPBLOCKS` blocks outside the log if the log area has more
-- blocks than are then listed: no `log_write` panics, the log holds a transaction after them, and at
-- most as many blocks more as were written.
pub begin_op-log_writes :
    (start : ℕ) (l l' : Log) (bs : List ℕ)
    → begin_op l ≡ some l'
    → IsTransaction start l.lh
    → pos 0 ≤ℤ l.outstanding
    → l.lh.n + length bs < l.size
    → All (IsHome start) bs
    → length bs ≤ max_op_blocks
    → (l.committing ≡ false)
      × (l'.outstanding ≡ l.outstanding +ℤ pos 1)
      × (pos l.lh.n +ℤ l'.outstanding *ℤ pos max_op_blocks ≤ℤ pos log_size)
      × ((l'' : Log) × (log_writes l' bs ≡ done l'')
          × IsTransaction start l''.lh
          × (l''.lh.n ≤ l.lh.n + length bs))
unfolding begin_op ◌+ℤ◌ ◌*ℤ◌
begin_op-log_writes start l l' bs admitted tr none_yet sized homes few =
    let lh : l'.lh ≡ l.lh = ground arith in
    let size : l'.size ≡ l.size = ground arith in
    let n : l'.lh.n ≡ l.lh.n = ap (λ (h : LogHeader). h.n) lh in
    let room : l.lh.n + length bs ≤ log_size = ground arith in
    let (l'', run, after, most) =
      log_writes_room start bs l' (rw lh tr) homes (omega (arith, n, room))
        (omega (arith, n, size, sized)) (ground arith) in
    (ground arith, ground arith, ground arith, (l'', run, after, omega (arith, most, n)))

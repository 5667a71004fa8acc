-- ===== src/Log/Crash.antt =====
-- A commit is atomic: whenever the machine fails, recovery finds all of the transaction or none.
use bf_scheduler.Common.{
  ℕ, suc, ◌+◌, ◌≤◌, ◌≡◌, refl, false, arith, ◌==◌, ltb, leb, if◌then◌else◌, ◌∙◌, Bool-cases, ◌⊎◌,
  inl, inr, done,
}
use bf_scheduler.Log.{
  Block, Store, LogHeader, write_head, read_head, finish, recover_from_log, install_trans,
}
use bf_scheduler.Log.Loops.{IsTransaction}
use bf_scheduler.Log.Shape.{
  IsOld, IsCommitted, IsDone, SameBlocks, SameBlocks-IsTransaction, SameBlocks-IsCommitted,
  IsCommitted-SameBlocks, IsDone-SameBlocks,
}
use bf_scheduler.Log.Finish.{finish-IsDone, finish-IsCommitted}

-- The machine started again with an empty cache, and power for `p` writes.
abbrev pub powered : (ℕ → Block) → ℕ → Store
powered d p = record { mem = d; disk = d; power = p }

-- A run of recovery, and what it leaves on the disk.
pub record Recovered (start : ℕ) (lh0 : LogHeader) (d : ℕ → Block) (p : ℕ)
    (P : (ℕ → Block) → Type 0) : Type 0 where
  pub header : LogHeader
  pub store : Store
  pub run : recover_from_log start lh0 (powered d p) ≡ done (header, store)
  pub shape : P store.disk

-- With no transaction in the log only the header block is written, with the same count.
module _ (start : ℕ) (lh0 : LogHeader) (d : ℕ → Block) (p : ℕ) where
  recover-clean :
      d start 0 ≡ 0
      → Recovered start lh0 d p
          (λ d'. (d' start 0 ≡ 0) × ((b : ℕ) → (b == start) ≡ false → d' b ≡ d b))
  unfolding recover_from_log read_head finish write_head install_trans
  recover-clean e =
      let lh : LogHeader = record {
        n = 0;
        block = λ i. if ltb i 0 then d start (suc i) else lh0.block i;
      } in
      record {
        header = lh;
        store = (finish start lh (powered d p)).1;
        run = rw e refl;
        shape = (ground arith, λ b ne. ground arith);
      }

  module _ {lh : LogHeader} {new old : ℕ → Block} (tr : IsTransaction start lh) where
    recover-IsCommitted :
        IsCommitted start lh new old d
        → Recovered start lh0 d p (λ d'.
          (lh.n + 1 ≤ p → IsDone start lh new old d')
          × (p ≤ lh.n → IsCommitted start lh new old d'))
    unfolding recover_from_log read_head
    recover-IsCommitted c =
        let lh' : LogHeader = record {
          n = lh.n;
          block = λ i. if ltb i lh.n then d start (suc i) else lh0.block i;
        } in
        let same : SameBlocks lh lh' = record {
          same_n = refl;
          same_block = λ i lt. ground (arith, c.names i lt);
        } in
        record {
          header = (finish start lh' (powered d p)).0;
          store = (finish start lh' (powered d p)).1;
          run = rw c.head (ground (arith, tr.fits));
          shape = (
            λ le. IsDone-SameBlocks same (
                finish-IsDone (powered d p) (SameBlocks-IsTransaction same tr)
                  (SameBlocks-IsCommitted same c) c.copies le),
            λ le. IsCommitted-SameBlocks same (
                finish-IsCommitted (powered d p) (SameBlocks-IsTransaction same tr)
                  (SameBlocks-IsCommitted same c) c.copies le),
          );
        }

-- Old, committed or done.
abbrev pub Between : ℕ → LogHeader → (ℕ → Block) → (ℕ → Block) → (ℕ → Block) → Type 0
Between start lh new old d =
    IsOld start old d ⊎ (IsCommitted start lh new old d ⊎ IsDone start lh new old d)

-- All or nothing.
abbrev pub Atomic : ℕ → LogHeader → (ℕ → Block) → (ℕ → Block) → (ℕ → Block) → Type 0
Atomic start lh new old d = IsOld start old d ⊎ IsDone start lh new old d

still-IsOld :
    {start : ℕ} {old : ℕ → Block} (d d' : ℕ → Block)
    → IsOld start old d
    → (d' start 0 ≡ 0) × ((b : ℕ) → (b == start) ≡ false → d' b ≡ d b)
    → IsOld start old d'
still-IsOld d d' o (head, same) = record {
  head = head;
  others = λ b h. same b (ground arith) ∙ o.others b h;
}

module _ {start : ℕ} {lh : LogHeader} {new old : ℕ → Block} (tr : IsTransaction start lh) where
  still-IsDone :
      (d d' : ℕ → Block)
      → IsDone start lh new old d
      → (d' start 0 ≡ 0) × ((b : ℕ) → (b == start) ≡ false → d' b ≡ d b)
      → IsDone start lh new old d'
  still-IsDone d d' o (head, same) = record {
    head = head;
    listed = λ i lt. same (lh.block i) (ground (arith, tr.home i lt)) ∙ o.listed i lt;
    others = λ b h out. same b (ground arith) ∙ o.others b h out;
  }

  -- Recovery with any power keeps to the three shapes, and with enough ends in old or done.
  pub recover-Between :
      (lh0 : LogHeader) (d : ℕ → Block) (p : ℕ)
      → Between start lh new old d
      → Recovered start lh0 d p
          (λ d'. Between start lh new old d' × (lh.n + 1 ≤ p → Atomic start lh new old d'))
  recover-Between lh0 d p (inl o) =
      let r = recover-clean start lh0 d p o.head in
      let o' = still-IsOld d r.store.disk o r.shape in
      record { header = r.header; store = r.store; run = r.run; shape = (inl o', λ le. inl o') }
  recover-Between lh0 d p (inr (inr o)) =
      let r = recover-clean start lh0 d p o.head in
      let o' = still-IsDone d r.store.disk o r.shape in
      record {
        header = r.header;
        store = r.store;
        run = r.run;
        shape = (inr (inr o'), λ le. inr o');
      }
  recover-Between lh0 d p (inr (inl c)) =
      let r = recover-IsCommitted start lh0 d p tr c in
      record {
        header = r.header;
        store = r.store;
        run = r.run;
        shape = (
          elim (Bool-cases (leb (lh.n + 1) p)) [
            | inl enough ↦ inr (inr (r.shape.0 (ground arith)))
            | inr short ↦ inr (inl (r.shape.1 (ground arith)))
          ],
          λ le. inr (r.shape.0 le),
        );
      }

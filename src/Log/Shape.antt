-- ===== src/Log/Shape.antt =====
-- The three shapes that the disk goes through while a transaction `lh` of the block contents `new`
-- replaces the contents `old`.
use bf_scheduler.Common.{ℕ, suc, ◌+◌, ◌<◌, ◌≡◌, false, ◌==◌, arith, sym, ◌∙◌, ap}
use bf_scheduler.Log.{Block, LogHeader}
use bf_scheduler.Log.Loops.{IsHome, IsTransaction}

-- No transaction in the log, and the old contents.
pub record IsOld (start : ℕ) (old d : ℕ → Block) : Type 0 where
  pub head : d start 0 ≡ 0
  pub others : (b : ℕ) → IsHome start b → d b ≡ old b

-- The whole transaction in the log; its blocks may hold anything.
pub record IsCommitted (start : ℕ) (lh : LogHeader) (new old d : ℕ → Block) : Type 0 where
  pub head : d start 0 ≡ lh.n
  pub names : (i : ℕ) → i < lh.n → d start (suc i) ≡ lh.block i
  pub copies : (i : ℕ) → i < lh.n → d (start + i + 1) ≡ new i
  pub others :
      (b : ℕ) → IsHome start b → ((i : ℕ) → i < lh.n → (b == lh.block i) ≡ false) → d b ≡ old b

-- No transaction in the log, and the new contents.
pub record IsDone (start : ℕ) (lh : LogHeader) (new old d : ℕ → Block) : Type 0 where
  pub head : d start 0 ≡ 0
  pub listed : (i : ℕ) → i < lh.n → d (lh.block i) ≡ new i
  pub others :
      (b : ℕ) → IsHome start b → ((i : ℕ) → i < lh.n → (b == lh.block i) ≡ false) → d b ≡ old b

-- Two headers with the same blocks.
pub record SameBlocks (lh lh' : LogHeader) : Type 0 where
  pub same_n : lh'.n ≡ lh.n
  pub same_block : (i : ℕ) → i < lh.n → lh'.block i ≡ lh.block i

module _ {start : ℕ} {lh lh' : LogHeader} (same : SameBlocks lh lh') where
  pub SameBlocks-IsTransaction : IsTransaction start lh → IsTransaction start lh'
  SameBlocks-IsTransaction tr = record {
    fits = omega (arith, tr.fits, same.same_n);
    home = λ i lt. ground (arith, same.same_n, same.same_block i, tr.home i);
    once = λ i j lt le.
        ground (arith, same.same_n, same.same_block i, same.same_block j, tr.once i j lt);
  }

  pub SameBlocks-IsCommitted :
      {new old d : ℕ → Block} → IsCommitted start lh new old d → IsCommitted start lh' new old d
  SameBlocks-IsCommitted c = record {
    head = c.head ∙ sym same.same_n;
    names = λ i lt.
        c.names i (omega (arith, same.same_n))
        ∙ sym (same.same_block i (omega (arith, same.same_n)));
    copies = λ i lt. c.copies i (omega (arith, same.same_n));
    others = λ b h out. c.others b h (λ i lt.
        ground (arith, same.same_n, same.same_block i lt, out i (omega (arith, same.same_n))));
  }

  pub IsCommitted-SameBlocks :
      {new old d : ℕ → Block} → IsCommitted start lh' new old d → IsCommitted start lh new old d
  IsCommitted-SameBlocks c = record {
    head = c.head ∙ same.same_n;
    names = λ i lt. c.names i (omega (arith, same.same_n)) ∙ same.same_block i lt;
    copies = λ i lt. c.copies i (omega (arith, same.same_n));
    others = λ b h out. c.others b h (λ i lt. ground (
      arith,
      same.same_n,
      same.same_block i (omega (arith, same.same_n)),
      out i (omega (arith, same.same_n)),
    ));
  }

  pub IsDone-SameBlocks :
      {new old d : ℕ → Block} → IsDone start lh' new old d → IsDone start lh new old d
  IsDone-SameBlocks {d = d} c = record {
    head = c.head;
    listed = λ i lt. ap d (sym (same.same_block i lt)) ∙ c.listed i (omega (arith, same.same_n));
    others = λ b h out. c.others b h (λ i lt. ground (
      arith,
      same.same_n,
      same.same_block i (omega (arith, same.same_n)),
      out i (omega (arith, same.same_n)),
    ));
  }

-- ===== src/Log/Finish.antt =====
-- Installing a committed transaction and clearing the log, with enough power and without.
use bf_scheduler.Common.{ℕ, suc, ◌+◌, ◌≤◌, ◌<◌, ◌≡◌, false, arith, ◌==◌, ◌∙◌, ap}
use bf_scheduler.Log.{Block, Store, LogHeader, install_trans, write_head, finish}
use bf_scheduler.Log.Loops.{
  IsHome, IsTransaction, in_log_ne, install_trans-power, install_trans-disk, install_trans-listed,
}
use bf_scheduler.Log.Shape.{IsCommitted, IsDone}

module _ {start : ℕ} {lh : LogHeader} {new old : ℕ → Block} (s : Store)
    (tr : IsTransaction start lh) (c : IsCommitted start lh new old s.disk)
    (cached : (i : ℕ) → i < lh.n → s.mem (start + i + 1) ≡ new i) where
  abbrev installed : Store
  installed = install_trans start lh lh.n s

  head_kept : installed.disk start ≡ s.disk start
  head_kept =
      install_trans-disk start lh lh.n s start
        (λ i lt. in_log_ne tr start i (omega arith) (omega arith) lt)

  other_kept :
      (b : ℕ)
      → IsHome start b
      → ((i : ℕ) → i < lh.n → (b == lh.block i) ≡ false)
      → installed.disk b ≡ old b
  other_kept b h out = install_trans-disk start lh lh.n s b out ∙ c.others b h out

  -- With power for all its writes.
  pub finish-IsDone : lh.n + 1 ≤ s.power → IsDone start lh new old (finish start lh s).1.disk
  unfolding finish write_head
  finish-IsDone p = record {
    head = ground (arith, install_trans-power start lh lh.n s);
    listed = λ i lt. ground (
      arith,
      install_trans-power start lh lh.n s,
      install_trans-listed start lh lh.n s tr (omega arith) (omega arith) i lt,
      cached i lt,
      tr.home i lt,
    );
    others = λ b h out. ground (arith, install_trans-power start lh lh.n s, other_kept b h out);
  }

  -- With less, the log keeps the transaction.
  pub finish-IsCommitted : s.power ≤ lh.n → IsCommitted start lh new old (finish start lh s).1.disk
  unfolding finish write_head
  finish-IsCommitted p = record {
    head =
        ground
          (arith, install_trans-power start lh lh.n s, ap (λ (b : Block). b 0) head_kept, c.head);
    names = λ i lt. ground (
      arith,
      install_trans-power start lh lh.n s,
      ap (λ (b : Block). b (suc i)) head_kept,
      c.names i lt,
    );
    copies = λ i lt. ground (
      arith,
      install_trans-power start lh lh.n s,
      install_trans-disk start lh lh.n s (start + i + 1)
          (λ j l. in_log_ne tr (start + i + 1) j (omega arith) (omega (arith, tr.fits)) l),
      c.copies i lt,
    );
    others = λ b h out. ground (arith, install_trans-power start lh lh.n s, other_kept b h out);
  }

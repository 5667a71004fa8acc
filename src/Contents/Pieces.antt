-- ===== src/Contents/Pieces.antt =====
-- The loop of `filewrite`, a transaction for each piece.
use bf_scheduler.Common.{
  ℕ, zero, suc, ◌+◌, ◌-◌, ◌*◌, ◌%◌, ◌^◌, ◌≤◌, ◌<◌, ◌≡◌, refl, arith, Bool, true, List, [], ◌∷◌,
  length, ap, sym, ◌∙◌, done,
}
use mathlib.Core.Path.{subst}
use bf_scheduler.Common.Int.{ℤ, pos}
use bf_scheduler.Files.{FileType, File, take, drop, write_max, piece_size, write_loop, filewrite}
use bf_scheduler.Files.Write.{written, length-take, length-drop, written_cong, written_pieces}
use bf_scheduler.Blocks.{Superblock, block_size}
use bf_scheduler.Contents.{max_file}
use bf_scheduler.Contents.Layout.{contents}
use bf_scheduler.Contents.Transact.{FileState, transact, IsWritable, transact-Written}

abbrev pub bytes_of : FileState → ℕ → ℕ
bytes_of s a = contents s.disk s.inode a

module _ (sb : Superblock) (has_write : ℕ → Bool) where
  -- One round writes one piece.
  write_loop-piece :
      (fuel : ℕ) (b : ℕ) (bs : List ℕ) (off k : ℕ) (s s' : FileState)
      → piece_size (length (b ∷ bs)) ≡ k
      → 0 < k
      → transact sb has_write s off (take k (b ∷ bs)) ≡ done (pos k, s')
      → write_loop (transact sb has_write) (suc fuel) (b ∷ bs) off s
        ≡ write_loop (transact sb has_write) fuel (drop k (b ∷ bs)) ((off + k) % 2 ^ 32) s'
  unfolding write_loop
  write_loop-piece fuel b bs off k s s' size positive r = rw (size, r) (ground arith)

  write_loop_all :
      (fuel : ℕ) (bs : List ℕ) (off : ℕ) (s : FileState)
      → length bs ≤ fuel
      → IsWritable sb off (length bs) s
      → (s' : FileState) × (write_loop (transact sb has_write) fuel bs off s
          ≡ done (true, off + length bs, s'))
        × ((a : ℕ) → a < max_file * block_size → bytes_of s' a ≡ written (bytes_of s) off bs a)
  unfolding write_loop piece_size
  write_loop_all fuel [] off s le w = (s, ground arith, λ a lt. refl)
  write_loop_all zero (b ∷ bs) off s le w = ground arith
  write_loop_all (suc fuel) (b ∷ bs) off s le w =
      let k : ℕ = piece_size (length (b ∷ bs)) in
      let piece : List ℕ = take k (b ∷ bs) in
      let rest : List ℕ = drop k (b ∷ bs) in
      let positive : 0 < k = ground arith in
      let bound : k ≤ length (b ∷ bs) = ground arith in
      let small : k ≤ write_max = ground arith in
      let len : length piece ≡ k = length-take k (b ∷ bs) bound in
      let left : length rest ≡ length (b ∷ bs) - k = length-drop k (b ∷ bs) in
      let all : length piece + length rest ≡ length (b ∷ bs) = omega (arith, len, left, bound) in
      let (s1, run, bytes, w') =
        transact-Written sb has_write off (length rest) piece s (ap piece_size all ∙ sym len)
          (omega (arith, len, small)) (subst (λ (x : ℕ). IsWritable sb off x s) (sym all) w) in
      let run' : transact sb has_write s off piece ≡ done (pos k, s1) =
        run ∙ ap (λ (n : ℕ). done (pos n, s1)) len in
      let wrap : (off + k) % 2 ^ 32 ≡ off + k = omega (arith, bound, w.fits) in
      let (s', run2, same) =
        write_loop_all fuel rest (off + k) s1 (omega (arith, left, positive, le))
          (subst (λ (x : ℕ). IsWritable sb (off + x) (length rest) s1) len w') in
      let total : off + k + length rest ≡ off + length (b ∷ bs) = omega (arith, left, bound) in
      (
        s',
        write_loop-piece fuel b bs off k s s1 refl positive run'
            ∙ ap (λ (x : ℕ). write_loop (transact sb has_write) fuel rest x s1) wrap
            ∙ run2
            ∙ ap (λ (x : ℕ). done (true, x, s')) total,
        λ a lt.
            same a lt
            ∙ written_cong (bytes_of s1) (written (bytes_of s) off piece) (off + k) rest a
                (bytes a lt)
            ∙ written_pieces (bytes_of s) k off (b ∷ bs) a bound,
      )

  -- `filewrite` to a writable file whose inode is no device and is laid out right, from an offset that
  -- is not behind its end, of bytes that end within `MAXFILE` blocks, where no other operation uses the
  -- log of 30 blocks. With two free blocks on the disk for each block that the bytes touch, for each 1536
  -- bytes and for one block more, no `log_write` panics in any of the transactions, and it returns the
  -- number of bytes; they stand in the file in order from the old offset on, all else is as before, and
  -- the offset stands behind them.
  pub filewrite_lem :
      (pipewrite : FileState → ℕ → List ℕ → ℤ × FileState) (f : File) (bs : List ℕ) (s : FileState)
      → f.writable ≡ true
      → f.type ≡ FileType.fd_inode
      → IsWritable sb f.off (length bs) s
      → (s' : FileState) × (filewrite pipewrite (transact sb has_write) f bs s
          ≡ done (pos (length bs), record f { off = f.off + length bs }, s'))
        × ((a : ℕ) → a < max_file * block_size → bytes_of s' a ≡ written (bytes_of s) f.off bs a)
  unfolding filewrite
  filewrite_lem pipewrite f bs s may inode w =
      let (s', run, same) = write_loop_all (length bs) bs f.off s (omega arith) w in
      (s', ground (arith, may, inode, run), same)

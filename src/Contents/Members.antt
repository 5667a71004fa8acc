-- ===== src/Contents/Members.antt =====
-- The blocks of a file as the addresses of its inode and of its indirect block.
use bf_scheduler.Common.{
  ℕ, zero, suc, ◌+◌, ◌-◌, ◌≤◌, ◌<◌, ◌≡◌, refl, arith, Bool, true, false, not, ◌==◌, ◌&&◌, ◌||◌, sym,
  ap, ◌∙◌,
}
use bf_scheduler.Blocks.{Superblock, Disk}
use bf_scheduler.Contents.{FileInode, ndirect, nindirect, max_file}
use bf_scheduler.Contents.Free.{held, IsApart, IsApart-cong, held_cong, entry}
use bf_scheduler.Contents.Layout.{addr_of, IsFile}

-- Whether `c` is a block of the file, its indirect block included.
abbrev pub is_block_of : Disk → FileInode → ℕ → Bool
is_block_of d ip c =
    held (addr_of d ip) max_file 0 c || (not (ip.addrs ndirect == 0) && (ip.addrs ndirect == c))

pub held_none :
    (f : ℕ → ℕ) (n i c : ℕ)
    → ((k : ℕ) → i ≤ k → k < i + n → (f k == 0) ≡ false → (f k == c) ≡ false)
    → held f n i c ≡ false
unfolding held
held_none f zero i c ne = refl
held_none f (suc n) i c ne = ground (
  arith,
  ne i (omega arith) (omega arith),
  held_none f n (suc i) c (λ k lo hi. ne k (omega arith) (omega arith)),
)

held_append : (f : ℕ → ℕ) (m n i c : ℕ) → held f (m + n) i c ≡ (held f m i c || held f n (i + m) c)
unfolding held
held_append f zero n i c =
    let e : 0 + n ≡ n = omega arith in let e' : i + 0 ≡ i = omega arith in rw (e, e') refl
held_append f (suc m) n i c =
    let e : suc m + n ≡ suc (m + n) = omega arith in
    let e' : i + suc m ≡ suc i + m = omega arith in
    rw (e, e') (ground (arith, held_append f m n (suc i) c))

held_shift :
    (f g : ℕ → ℕ) (n i j c : ℕ)
    → ((k : ℕ) → k < n → f (i + k) ≡ g (j + k))
    → held f n i c ≡ held g n j c
unfolding held
held_shift f g zero i j c same = refl
held_shift f g (suc n) i j c same =
    let first : f i ≡ g j = ap f (omega arith) ∙ same 0 (omega arith) ∙ ap g (omega arith) in
    ground (
      arith,
      first,
      held_shift f g n (suc i) (suc j) c
          (λ k lt. ap f (omega arith) ∙ same (suc k) (omega arith) ∙ ap g (omega arith)),
    )

module _ {sb : Superblock} {d : Disk} {ip : FileInode} (f : IsFile sb d ip) where
  pub addr_direct : (k : ℕ) → k < ndirect → addr_of d ip k ≡ ip.addrs k
  unfolding addr_of
  addr_direct k lt = ground arith

  pub addr_entry :
      (j : ℕ)
      → (ip.addrs ndirect == 0) ≡ false
      → addr_of d ip (ndirect + j) ≡ entry d (ip.addrs ndirect) j
  unfolding addr_of
  addr_entry j there = let e : ndirect + j - ndirect ≡ j = omega arith in ground (arith, there, e)

  addr_none : (j : ℕ) → (ip.addrs ndirect == 0) ≡ true → addr_of d ip (ndirect + j) ≡ 0
  unfolding addr_of
  addr_none j null = ground (arith, null)

  all-IsApart : (n i : ℕ) → i + n ≤ max_file → IsApart sb d (addr_of d ip) n i
  all-IsApart n i le = record {
    in_range = λ k lo hi nz. (f.owned k (omega arith) nz).in_range;
    in_use = λ k lo hi nz. (f.owned k (omega arith) nz).in_use;
    apart = λ k l klo khi llo lhi kl nz. f.apart k l (omega arith) (omega arith) kl nz;
  }

  pub direct-IsApart : IsApart sb d ip.addrs ndirect 0
  direct-IsApart =
      IsApart-cong (λ k lo hi. sym (addr_direct k (omega arith)))
        (all-IsApart ndirect 0 (omega arith))

  -- The blocks of the file are those of the direct addresses, of the entries, and the indirect block.
  pub is_block_of-cases :
      (c : ℕ)
      → (ip.addrs ndirect == 0) ≡ false
      → is_block_of d ip c ≡ (
          held ip.addrs ndirect 0 c
          || (held (entry d (ip.addrs ndirect)) nindirect 0 c || (c == ip.addrs ndirect)))
  is_block_of-cases c there = ground (
    arith,
    there,
    held_append (addr_of d ip) ndirect nindirect 0 c,
    held_cong ip.addrs (addr_of d ip) ndirect 0 c (λ k lo hi. addr_direct k (omega arith)),
    held_shift (addr_of d ip) (entry d (ip.addrs ndirect)) nindirect (0 + ndirect) 0 c (λ k lt.
        ap (addr_of d ip) (omega arith)
        ∙ addr_entry k there
        ∙ ap (entry d (ip.addrs ndirect)) (omega arith)),
  )

  pub is_block_of-direct :
      (c : ℕ)
      → (ip.addrs ndirect == 0) ≡ true
      → is_block_of d ip c ≡ (held ip.addrs ndirect 0 c || false)
  is_block_of-direct c null = ground (
    arith,
    null,
    held_append (addr_of d ip) ndirect nindirect 0 c,
    held_cong ip.addrs (addr_of d ip) ndirect 0 c (λ k lo hi. addr_direct k (omega arith)),
    held_none (addr_of d ip) nindirect (0 + ndirect) c (λ k lo hi nz. ground (
      arith,
      ap (addr_of d ip) {x = ndirect + (k - ndirect)} {y = k} (omega arith),
      addr_none (k - ndirect) null,
    )),
  )

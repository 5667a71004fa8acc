-- ===== src/Contents/Free.antt =====
-- The loops of `itrunc` free the blocks at their addresses, and no other.
use bf_scheduler.Common.{
  ℕ, zero, suc, ◌+◌, ◌*◌, ◌≤◌, ◌<◌, ◌≡◌, refl, arith, Bool, true, false, not, ◌==◌, ltb, leb, ◌&&◌,
  ◌||◌, if◌then◌else◌, inl, inr, Bool-cases, ap, ◌∙◌, done,
}
use bf_scheduler.Strings.{Memory}
use bf_scheduler.Pages.{load_word}
use bf_scheduler.Blocks.{Superblock, Disk, bitmap_block}
use bf_scheduler.Blocks.Alloc.{used, Released, bfree-Released}
use bf_scheduler.Contents.{FileInode, set_addr, free_direct, free_entries}

-- Whether `c` is one of the `n` addresses from `i` on; 0 is none.
unfoldable pub held : (ℕ → ℕ) → ℕ → ℕ → ℕ → Bool
held f zero i c = false
held f (suc n) i c = (not (f i == 0) && (f i == c)) || held f n (suc i) c

-- The blocks that `mine` says, and no other, become free; only blocks of the bitmap change.
pub record Freed (sb : Superblock) (d : Disk) (mine : ℕ → Bool) (d' : Disk) : Type 0 where
  pub cleared : (c : ℕ) → used sb d' c ≡ (if mine c then false else used sb d c)
  pub others :
      (c : ℕ)
      → ((b : ℕ) → b < sb.size → (c == bitmap_block sb b) ≡ false)
      → d'.data_of c ≡ d.data_of c

-- The `n` addresses from `i` on are those of blocks in use, no two the same.
pub record IsApart (sb : Superblock) (d : Disk) (f : ℕ → ℕ) (n i : ℕ) : Type 0 where
  pub in_range : (k : ℕ) → i ≤ k → k < i + n → (f k == 0) ≡ false → f k < sb.size
  pub in_use : (k : ℕ) → i ≤ k → k < i + n → (f k == 0) ≡ false → used sb d (f k) ≡ true
  pub apart :
      (k l : ℕ)
      → i ≤ k
      → k < i + n
      → i ≤ l
      → l < i + n
      → (k == l) ≡ false
      → (f k == 0) ≡ false
      → (f k == f l) ≡ false

pub Freed-none :
    (sb : Superblock) (d : Disk) (mine : ℕ → Bool) → ((c : ℕ) → mine c ≡ false) → Freed sb d mine d
Freed-none sb d mine none_mine = record {
  cleared = λ c. rw (none_mine c) refl;
  others = λ c away. refl;
}

pub Freed-Released :
    (sb : Superblock) (d d' : Disk) (b : ℕ)
    → b < sb.size
    → Released sb d b d'
    → Freed sb d (λ c. c == b) d'
Freed-Released sb d d' b lt r = record {
  cleared = r.cleared;
  others = λ c away. r.others c (away b lt);
}

pub Freed-trans :
    {sb : Superblock} {d d' d'' : Disk} {mine mine' : ℕ → Bool} (all : ℕ → Bool)
    → Freed sb d mine d'
    → Freed sb d' mine' d''
    → ((c : ℕ) → all c ≡ (mine c || mine' c))
    → Freed sb d all d''
Freed-trans all f f' h = record {
  cleared = λ c. ground (arith, f'.cleared c, f.cleared c, h c);
  others = λ c away. f'.others c away ∙ f.others c away;
}

-- The addresses behind a freed one.
IsApart-Released :
    {sb : Superblock} {d d' : Disk} {f : ℕ → ℕ} {n i : ℕ}
    → IsApart sb d f (suc n) i
    → (f i == 0) ≡ false
    → Released sb d (f i) d'
    → IsApart sb d' f n (suc i)
IsApart-Released {f} {i} a ne r = record {
  in_range = λ k lo hi nz. a.in_range k (omega arith) (omega arith) nz;
  in_use = λ k lo hi nz. ground (
    arith,
    r.cleared (f k),
    a.in_use k (omega arith) (omega arith) nz,
    a.apart k i (omega arith) (omega arith) (omega arith) (omega arith) (ground arith) nz,
  );
  apart = λ k l klo khi llo lhi kl nz.
      a.apart k l (omega arith) (omega arith) (omega arith) (omega arith) kl nz;
}

IsApart-skip :
    {sb : Superblock} {d : Disk} {f : ℕ → ℕ} {n i : ℕ}
    → IsApart sb d f (suc n) i
    → IsApart sb d f n (suc i)
IsApart-skip a = record {
  in_range = λ k lo hi nz. a.in_range k (omega arith) (omega arith) nz;
  in_use = λ k lo hi nz. a.in_use k (omega arith) (omega arith) nz;
  apart = λ k l klo khi llo lhi kl nz.
      a.apart k l (omega arith) (omega arith) (omega arith) (omega arith) kl nz;
}

pub IsApart-cong :
    {sb : Superblock} {d : Disk} {f g : ℕ → ℕ} {n i : ℕ}
    → ((k : ℕ) → i ≤ k → k < i + n → g k ≡ f k)
    → IsApart sb d f n i
    → IsApart sb d g n i
IsApart-cong same a = record {
  in_range = λ k lo hi nz. rw (same k lo hi) (a.in_range k lo hi (rw (same k lo hi) at nz));
  in_use = λ k lo hi nz. rw (same k lo hi) (a.in_use k lo hi (rw (same k lo hi) at nz));
  apart = λ k l klo khi llo lhi kl nz.
      rw (same k klo khi, same l llo lhi)
        (a.apart k l klo khi llo lhi kl (rw (same k klo khi) at nz));
}

pub held_cong :
    (f g : ℕ → ℕ) (n i c : ℕ)
    → ((k : ℕ) → i ≤ k → k < i + n → g k ≡ f k)
    → held g n i c ≡ held f n i c
unfolding held
held_cong f g zero i c same = refl
held_cong f g (suc n) i c same =
    rw
      (
        same i (omega arith) (omega arith),
        held_cong f g n (suc i) c (λ k lo hi. same k (omega arith) (omega arith)),
      )
      refl

-- The direct addresses.
pub free_direct-Freed :
    (sb : Superblock) (n i : ℕ) (ip : FileInode) (d : Disk)
    → IsApart sb d ip.addrs n i
    → (ip' : FileInode) × (d' : Disk) × (free_direct sb n i ip d ≡ done (ip', d'))
      × Freed sb d (held ip.addrs n i) d'
      × ((k : ℕ) → ip'.addrs k ≡ (if leb i k && ltb k (i + n) then 0 else ip.addrs k))
      × (ip' ≡ record ip { addrs = ip'.addrs })
unfolding free_direct held
free_direct-Freed sb zero i ip d a =
    (ip, d, refl, Freed-none sb d (held ip.addrs zero i) (λ c. refl), λ k. ground arith, refl)
free_direct-Freed sb (suc n) i ip d a = elim (Bool-cases (ip.addrs i == 0)) [
  | inl null ↦
      let (ip', d', run, f, addrs, fields) = free_direct-Freed sb n (suc i) ip d (IsApart-skip a) in
      (
        ip',
        d',
        rw (free_direct, null) run,
        Freed-trans (held ip.addrs (suc n) i) (Freed-none sb d (λ c. false) (λ c. refl)) f
            (λ c. rw null refl),
        λ k. ground (arith, addrs k),
        fields,
      )
  | inr there ↦
      let (d1, free, r) =
        bfree-Released sb d (ip.addrs i) (a.in_use i (omega arith) (omega arith) there) in
      let ip1 : FileInode = set_addr ip i 0 in
      let same : (k : ℕ) → suc i ≤ k → k < suc i + n → ip1.addrs k ≡ ip.addrs k =
        λ k lo hi. ground arith in
      let (ip', d', run, f, addrs, fields) =
        free_direct-Freed sb n (suc i) ip1 d1 (IsApart-cong same (IsApart-Released a there r)) in
      (
        ip',
        d',
        rw (free_direct, there, free) run,
        Freed-trans (held ip.addrs (suc n) i)
            (Freed-Released sb d d1 (ip.addrs i) (a.in_range i (omega arith) (omega arith) there) r)
            f (λ c. ground (arith, there, held_cong ip.addrs ip1.addrs n (suc i) c same)),
        λ k. ground (arith, addrs k),
        fields,
      )
]

-- The addresses in the indirect block.
abbrev pub entry : Disk → ℕ → ℕ → ℕ
entry d ind j = load_word (d.data_of ind) (4 * j)

pub free_entries-Freed :
    (sb : Superblock) (ind n j : ℕ) (d : Disk)
    → ((b : ℕ) → b < sb.size → (ind == bitmap_block sb b) ≡ false)
    → IsApart sb d (entry d ind) n j
    → (d' : Disk) × (free_entries sb ind n j d ≡ done d') × Freed sb d (held (entry d ind) n j) d'
unfolding free_entries held
free_entries-Freed sb ind zero j d away a = (d, refl, Freed-none sb d _ (λ c. refl))
free_entries-Freed sb ind (suc n) j d away a = elim (Bool-cases (entry d ind j == 0)) [
  | inl null ↦
      let (d', run, f) = free_entries-Freed sb ind n (suc j) d away (IsApart-skip a) in
      (
        d',
        rw (free_entries, null) run,
        Freed-trans (held (entry d ind) (suc n) j) (Freed-none sb d (λ c. false) (λ c. refl)) f
            (λ c. rw null refl),
      )
  | inr there ↦
      let lt = a.in_range j (omega arith) (omega arith) there in
      let (d1, free, r) =
        bfree-Released sb d (entry d ind j) (a.in_use j (omega arith) (omega arith) there) in
      let same : (k : ℕ) → suc j ≤ k → k < suc j + n → entry d1 ind k ≡ entry d ind k = λ k lo hi.
        ap (λ (m : Memory). load_word m (4 * k)) (r.others ind (away (entry d ind j) lt)) in
      let (d', run, f) =
        free_entries-Freed sb ind n (suc j) d1 away
          (IsApart-cong same (IsApart-Released a there r)) in
      (
        d',
        rw (free_entries, there, free) run,
        Freed-trans (held (entry d ind) (suc n) j) (Freed-Released sb d d1 (entry d ind j) lt r) f
            (λ c. ground (arith, there, held_cong (entry d ind) (entry d1 ind) n (suc j) c same)),
      )
]

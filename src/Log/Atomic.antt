-- ===== src/Log/Atomic.antt =====
-- A commit that fails at any moment, and the reboots after it.
use bf_scheduler.Common.{
  ℕ, ◌+◌, ◌-◌, ◌*◌, ◌≤◌, ◌<◌, ◌≡◌, refl, arith, leb, List, [], ◌∷◌, ◌∙◌, ap, Bool-cases, inl, inr,
  Outcome, done, ◌>>=◌,
}
use bf_scheduler.Log.{
  Block, Store, LogHeader, log_size, write_log, write_head, finish, recover_from_log, commit,
}
use bf_scheduler.Log.Loops.{
  IsTransaction, write_log-power, write_log-disk, write_log-copy, install_trans-power,
  install_trans_dead,
}
use bf_scheduler.Log.Shape.{IsOld, IsCommitted, IsDone}
use bf_scheduler.Log.Finish.{finish-IsDone, finish-IsCommitted}
use bf_scheduler.Log.Crash.{Between, Atomic, powered, recover-Between}

-- `commit` of a transaction whose new contents are in the cache, with the log on the disk empty.
module _ {start : ℕ} {lh : LogHeader} (tr : IsTransaction start lh) (s : Store)
    (head : s.disk start 0 ≡ 0) where
  abbrev contents : ℕ → Block
  contents i = s.mem (lh.block i)

  abbrev logged : Store
  logged = write_log start lh lh.n s

  logged-IsOld : IsOld start s.disk logged.disk
  logged-IsOld = record {
    head =
        ap (λ (b : Block). b 0) (write_log-disk start lh lh.n s start (inl (omega arith))) ∙ head;
    others = λ b h. write_log-disk start lh lh.n s b (ground (arith, tr.fits));
  }

  -- The power fails before the header is written.
  commit_dead : 0 < lh.n → s.power ≤ lh.n → (b : ℕ) → (commit start lh s).1.disk b ≡ logged.disk b
  unfolding commit finish write_head
  commit_dead pos p b = ground (
    arith,
    write_log-power start lh lh.n s,
    install_trans-power start lh lh.n (write_head start lh logged),
    install_trans_dead start lh lh.n (write_head start lh logged) b,
  )

  head-IsCommitted :
      lh.n + 1 ≤ s.power → IsCommitted start lh contents s.disk (write_head start lh logged).disk
  unfolding write_head
  head-IsCommitted p = record {
    head = ground (arith, write_log-power start lh lh.n s);
    names = λ i lt. ground (arith, write_log-power start lh lh.n s);
    copies = λ i lt. ground (
      arith,
      write_log-power start lh lh.n s,
      (write_log-copy start lh lh.n s tr (omega arith) i lt).1 (omega arith),
    );
    others = λ b h out. ground (
      arith,
      write_log-power start lh lh.n s,
      write_log-disk start lh lh.n s b (ground (arith, tr.fits)),
    );
  }

  head-cached : (i : ℕ) → i < lh.n → (write_head start lh logged).mem (start + i + 1) ≡ contents i
  unfolding write_head
  head-cached i lt = ground (arith, (write_log-copy start lh lh.n s tr (omega arith) i lt).0)

  head-power : (write_head start lh logged).power ≡ s.power - lh.n - 1
  unfolding write_head
  head-power = omega (arith, write_log-power start lh lh.n s)

  commit_run : 0 < lh.n → commit start lh s ≡ finish start lh (write_head start lh logged)
  unfolding commit
  commit_run pos = ground arith

  commit-Between : 0 < lh.n → Between start lh contents s.disk (commit start lh s).1.disk
  commit-Between pos = elim (Bool-cases (leb s.power lh.n)) [
    | inl dead ↦ inl (record {
      head = ap (λ (b : Block). b 0) (commit_dead pos (ground arith) start) ∙ logged-IsOld.head;
      others = λ b h. commit_dead pos (ground arith) b ∙ logged-IsOld.others b h;
    })
    | inr alive ↦ inr (
        rw (commit_run pos) (elim (Bool-cases (leb (lh.n + 1) (write_head start lh logged).power)) [
          | inl enough ↦ inr (
              finish-IsDone (write_head start lh logged) tr (head-IsCommitted (ground arith))
                head-cached (ground arith))
          | inr short ↦ inl (
              finish-IsCommitted (write_head start lh logged) tr (head-IsCommitted (ground arith))
                head-cached (ground arith))
        ]))
  ]

  -- A `commit` of at least one block, with power for all its writes, leaves the listed blocks on
  -- the disk as they were in the cache, all other blocks outside the log as they were, and an empty
  -- log.
  pub commit-IsDone :
      0 < lh.n
      → 2 * (lh.n + 1) ≤ s.power
      → IsDone start lh contents s.disk (commit start lh s).1.disk
  commit-IsDone pos p = rw (commit_run pos) (
      finish-IsDone (write_head start lh logged) tr (head-IsCommitted (omega arith)) head-cached
        (omega (arith, head-power)))

-- Reboots that fail again, each with its power; what the header in memory holds at a reboot is `lh0`.
unfoldable pub reboots : ℕ → LogHeader → List ℕ → (ℕ → Block) → Outcome (ℕ → Block)
reboots start lh0 [] d = done d
reboots start lh0 (p ∷ ps) d =
    recover_from_log start lh0 (powered d p) >>= λ (lh, s). reboots start lh0 ps s.disk

reboots-Between :
    {start : ℕ} {lh : LogHeader} {new old : ℕ → Block}
    → IsTransaction start lh
    → (lh0 : LogHeader) (ps : List ℕ) (d : ℕ → Block) → Between start lh new old d
    → (d' : ℕ → Block) × (reboots start lh0 ps d ≡ done d') × Between start lh new old d'
unfolding reboots
reboots-Between tr lh0 [] d b = (d, refl, b)
reboots-Between tr lh0 (p ∷ ps) d b =
    let r = recover-Between tr lh0 d p b in
    let (d', run, b') = reboots-Between tr lh0 ps r.store.disk r.shape.0 in (d', rw r.run run, b')

-- A commit is atomic. The log on the disk is empty and `lh` lists the blocks to write. Whatever number
-- of the commit's writes reach the disk, and however many recoveries fail again after it, a recovery
-- that has the power for its writes ends with an empty log and all blocks outside the log as they
-- were before the commit, or with the listed ones, and only these, as they were in the cache.
pub commit-Atomic :
    {start : ℕ} {lh : LogHeader} (s : Store) (lh0 : LogHeader) (ps : List ℕ) (p : ℕ)
    → IsTransaction start lh
    → s.disk start 0 ≡ 0
    → 0 < lh.n
    → log_size + 1 ≤ p
    → (d : ℕ → Block) × (lh' : LogHeader) × (s' : Store) × (reboots start lh0 ps
          (commit start lh s).1.disk
        ≡ done d)
      × (recover_from_log start lh0 (powered d p) ≡ done (lh', s'))
      × Atomic start lh (λ i. s.mem (lh.block i)) s.disk s'.disk
commit-Atomic s lh0 ps p tr head pos enough =
    let (d, run, b) = reboots-Between tr lh0 ps _ (commit-Between tr s head pos) in
    let r = recover-Between tr lh0 d p b in
    (d, r.header, r.store, run, r.run, r.shape.1 (omega (arith, tr.fits)))

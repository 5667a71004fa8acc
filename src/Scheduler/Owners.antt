-- ===== src/Scheduler/Owners.antt =====
-- Queues whose entries are those of processes: each process has at most one, so there is room.
use bf_scheduler.Common.{
  ℕ, suc, ◌≤◌, ◌<◌, ◌≡◌, refl, true, false, List, [], ◌∷◌, arith, ◌==◌, All, Bool-cases, inl, inr,
  ◌∙◌, sym, ap, ◌∉◌, Distinct, length,
}
use bf_scheduler.Common.Pigeonhole.{length-le_of_bounds}
use bf_scheduler.Common.Int.{ℤ, ltb_ℤ}
use bf_scheduler.SkipList.{nproc}
use bf_scheduler.SkipList.Insert.Queue.{insert_entry}
use bf_scheduler.SkipList.Delete.Entries.{delete_entry, has_entry, same_entry}
use bf_scheduler.Process.{unused, same_state, Proc}
use bf_scheduler.Scheduler.Queue.{same_entry→eq, same_entry_refl, NoDuplicates}
use mathlib.Core.Path.{subst}

-- The entry that the scheduler makes for a process.
abbrev pub entry_of : Proc → ℤ × ℤ
entry_of p = (p.vdeadline, p.pid)

-- A process of the table, not UNUSED, with this entry.
pub record Owner (proc : ℕ → Proc) (e : ℤ × ℤ) : Type 0 where
  pub index : ℕ
  pub index_lt : index < nproc
  pub used : same_state (proc index).state unused ≡ false
  pub is_entry : entry_of (proc index) ≡ e

module _ {κ} (P : ℤ × ℤ → Type κ) where
  pub All-insert_entry : (d : ℤ × ℤ) (q : List (ℤ × ℤ)) → P d → All P q → All P (insert_entry d q)
  unfolding insert_entry
  All-insert_entry d [] p h = (p, tt)
  All-insert_entry d (x ∷ q) p h = elim (Bool-cases (ltb_ℤ x.0 d.0)) [
    | inl lower ↦ rw lower (h.0, All-insert_entry d q p h.1)
    | inr other ↦ rw other (p, h)
  ]

  pub All-delete_entry : (d : ℤ × ℤ) (q : List (ℤ × ℤ)) → All P q → All P (delete_entry d q)
  unfolding delete_entry
  All-delete_entry d [] h = tt
  All-delete_entry d (x ∷ q) h = elim (Bool-cases (same_entry x d)) [
    | inl here ↦ rw here h.1
    | inr later ↦ rw later (h.0, All-delete_entry d q h.1)
  ]

  pub All_has_entry : (e : ℤ × ℤ) (q : List (ℤ × ℤ)) → All P q → has_entry e q ≡ true → P e
  unfolding has_entry
  All_has_entry e [] h m = absurd (cc)
  All_has_entry e (x ∷ q) h m = elim (Bool-cases (same_entry x e)) [
    | inl here ↦ subst P (same_entry→eq x e here) h.0
    | inr later ↦ All_has_entry e q h.1 (ground arith)
  ]

module _ (proc : ℕ → Proc) where
  -- The owners, counted from 1.
  owners : (q : List (ℤ × ℤ)) → All (Owner proc) q → List ℕ
  owners [] h = []
  owners (x ∷ q) h = suc h.0.index ∷ owners q h.1

  length-owners : (q : List (ℤ × ℤ)) (h : All (Owner proc) q) → length (owners q h) ≡ length q
  unfolding owners
  length-owners [] h = refl
  length-owners (x ∷ q) h = ap suc (length-owners q h.1)

  owners-bounds :
      (q : List (ℤ × ℤ)) (h : All (Owner proc) q) → All (λ b. (1 ≤ b) × (b ≤ nproc)) (owners q h)
  unfolding owners
  owners-bounds [] h = tt
  owners-bounds (x ∷ q) h = ((omega arith, omega (arith, h.0.index_lt)), owners-bounds q h.1)

  not-mem-owners :
      (i : ℕ) (q : List (ℤ × ℤ)) (h : All (Owner proc) q)
      → has_entry (entry_of (proc i)) q ≡ false
      → suc i ∉ owners q h
  unfolding owners has_entry
  not-mem-owners i [] h out = refl
  not-mem-owners i (x ∷ q) h out = elim (Bool-cases (suc i == suc h.0.index)) [
    | inl same ↦
        let at : i ≡ h.0.index = ground arith in
        let x_is : x ≡ entry_of (proc i) =
          sym h.0.is_entry ∙ ap (λ j. entry_of (proc j)) (sym at) in
        let match : same_entry x (entry_of (proc i)) ≡ true =
          ap (λ y. same_entry y (entry_of (proc i))) x_is ∙ same_entry_refl (entry_of (proc i)) in
        absurd (ground (arith, match))
    | inr other ↦ rw other (not-mem-owners i q h.1 (ground arith))
  ]

  owners-Distinct :
      (q : List (ℤ × ℤ)) (h : All (Owner proc) q) → NoDuplicates q → Distinct (owners q h)
  unfolding owners
  owners-Distinct [] h nd = tt
  owners-Distinct (x ∷ q) h nd = (
    not-mem-owners h.0.index q h.1 (ap (λ e. has_entry e q) h.0.is_entry ∙ nd.0),
    owners-Distinct q h.1 nd.1,
  )

  -- A process without an entry finds room for one.
  pub length-lt-nproc :
      (i : ℕ) (q : List (ℤ × ℤ))
      → i < nproc
      → All (Owner proc) q
      → NoDuplicates q
      → has_entry (entry_of (proc i)) q ≡ false
      → length q < nproc
  length-lt-nproc i q lt h nd out = omega (
    arith,
    length-le_of_bounds nproc (suc i ∷ owners q h)
        (not-mem-owners i q h out, owners-Distinct q h nd)
        ((omega arith, omega arith), owners-bounds q h),
    length-owners q h,
  )

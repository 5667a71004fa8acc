-- ===== src/Scheduler/Queue.antt =====
-- Laws of the abstract queue: membership, no duplicates, and the least deadline first.
use bf_scheduler.Common.{
  ◌≡◌, refl, true, false, not, List, [], ◌∷◌, arith, ◌&&◌, ◌||◌, Bool-cases, inl, inr, ◌∙◌, sym, ap,
}
use bf_scheduler.Common.Int.{ℤ, ltb_ℤ, eqb_ℤ→eq, eqb_ℤ_refl}
use bf_scheduler.SkipList.Insert.Queue.{insert_entry}
use bf_scheduler.SkipList.Delete.Entries.{delete_entry, has_entry, same_entry}

pub same_entry→eq : (x e : ℤ × ℤ) → same_entry x e ≡ true → x ≡ e
same_entry→eq x e h = ground (arith, eqb_ℤ→eq x.0 e.0, eqb_ℤ→eq x.1 e.1)

pub same_entry_refl : (e : ℤ × ℤ) → same_entry e e ≡ true
same_entry_refl e = ground (arith, eqb_ℤ_refl e.0, eqb_ℤ_refl e.1)

pub same_entry_sym : (x e : ℤ × ℤ) → same_entry x e ≡ same_entry e x
same_entry_sym x e = ground arith

same_entry_trans :
    (x y z : ℤ × ℤ) → same_entry x y ≡ true → same_entry y z ≡ true → same_entry x z ≡ true
same_entry_trans x y z p q = ground arith

abbrev pub NoDuplicates : List (ℤ × ℤ) → Type 0
NoDuplicates [] = Unit
NoDuplicates (x ∷ q) = (has_entry x q ≡ false) × NoDuplicates q

pub has_entry-insert_entry :
    (e d : ℤ × ℤ) (q : List (ℤ × ℤ))
    → has_entry e (insert_entry d q) ≡ (same_entry d e || has_entry e q)
unfolding has_entry insert_entry
has_entry-insert_entry e d [] = refl
has_entry-insert_entry e d (x ∷ q) = elim (Bool-cases (ltb_ℤ x.0 d.0)) [
  | inl lower ↦ rw lower (ground (arith, has_entry-insert_entry e d q))
  | inr other ↦ rw other refl
]

pub NoDuplicates-insert_entry :
    (d : ℤ × ℤ) (q : List (ℤ × ℤ))
    → has_entry d q ≡ false
    → NoDuplicates q
    → NoDuplicates (insert_entry d q)
unfolding has_entry insert_entry
NoDuplicates-insert_entry d [] out nd = (refl, tt)
NoDuplicates-insert_entry d (x ∷ q) out nd = elim (Bool-cases (ltb_ℤ x.0 d.0)) [
  | inl lower ↦ rw lower (
    has_entry-insert_entry x d q ∙ ground (arith, same_entry_sym d x),
    NoDuplicates-insert_entry d q (ground arith) nd.1,
  )
  | inr other ↦ rw other (out, nd)
]

pub has_entry-delete_entry :
    (e d : ℤ × ℤ) (q : List (ℤ × ℤ))
    → NoDuplicates q
    → has_entry e (delete_entry d q) ≡ (has_entry e q && not (same_entry d e))
unfolding has_entry delete_entry
has_entry-delete_entry e d [] nd = refl
has_entry-delete_entry e d (x ∷ q) nd = elim (Bool-cases (same_entry x d)) [
  | inl here ↦ elim (Bool-cases (same_entry d e)) [
    | inl match ↦
        rw (here, match)
          (ap (λ y. has_entry y q) (sym (same_entry→eq d e match) ∙ sym (same_entry→eq x d here))
            ∙ nd.0
            ∙ ground arith)
    | inr other ↦
        rw (here, other) (ground (arith, ap (λ y. same_entry y e) (same_entry→eq x d here)))
  ]
  | inr later ↦
      rw (later, has_entry-delete_entry e d q nd.1)
        (ground (arith, same_entry_trans x e d, same_entry_sym e d))
]

pub NoDuplicates-delete_entry :
    (d : ℤ × ℤ) (q : List (ℤ × ℤ)) → NoDuplicates q → NoDuplicates (delete_entry d q)
unfolding has_entry delete_entry
NoDuplicates-delete_entry d [] nd = tt
NoDuplicates-delete_entry d (x ∷ q) nd = elim (Bool-cases (same_entry x d)) [
  | inl here ↦ rw here nd.1
  | inr later ↦
      rw later (
        has_entry-delete_entry x d q nd.1 ∙ ground (arith, nd.0),
        NoDuplicates-delete_entry d q nd.1,
      )
]

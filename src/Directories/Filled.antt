-- ===== src/Directories/Filled.antt =====
-- An entry that `dirlink` has filled in is found.
use bf_scheduler.Common.{
  ℕ, suc, ◌+◌, ◌*◌, ◌^◌, ◌≤◌, ◌<◌, ◌≡◌, refl, arith, true, false, none, some, inl, inr, sym, ap,
  ◌∙◌,
}
use bf_scheduler.Common.Int.{pos, eqb_ℤ}
use bf_scheduler.Strings.{Memory, strncpy}
use bf_scheduler.Strings.Copy.{Apart, strncpy_lem}
use bf_scheduler.Strings.Compare.{strncmp-strncpy}
use bf_scheduler.Paths.{dir_size}
use bf_scheduler.Contents.{load_short, bytes_at}
use bf_scheduler.Contents.Layout.{contents}
use bf_scheduler.Files.Write.{written, written_before}
use bf_scheduler.Directories.{dirent_size, DirState, fill_entry}
use bf_scheduler.Directories.Entry.{
  same_name, is_match, first_match, same_name_cong, strncmp-same_name, written-bytes_at,
}
use bf_scheduler.Directories.Slot.{first_match-none, first_match-some, is_match_cong}

-- The entry that `dirlink` fills in.
module _ (name de inum : ℕ) (m : Memory) (apart : Apart (de + 2) name dir_size)
    (away : Apart name de dirent_size) where
  fill_entry-name : (k : ℕ) → k < dir_size → fill_entry name de inum m (name + k) ≡ m (name + k)
  unfolding fill_entry
  fill_entry-name k lt =
      let kept : strncpy (de + 2) name dir_size m (name + k) ≡ m (name + k) =
        (strncpy_lem dir_size (de + 2) name m 0 (name + k) apart).1 (ground arith) in
      ground (arith, kept)

  fill_entry-inum : inum < 2 ^ 16 → load_short (fill_entry name de inum m) de ≡ inum
  unfolding fill_entry
  fill_entry-inum small = ground arith

  fill_entry-same_name :
      same_name (fill_entry name de inum m) name (fill_entry name de inum m) (de + 2) dir_size
      ≡ true
  unfolding fill_entry
  fill_entry-same_name =
      let copy : Memory = strncpy (de + 2) name dir_size m in
      same_name_cong (fill_entry name de inum m) copy (fill_entry name de inum m) copy name (de + 2)
        (de + 2) dir_size (λ k lt. ground arith) (λ k lt. ground arith)
      ∙ sym (strncmp-same_name copy name (de + 2) dir_size)
      ∙ ap (λ r. eqb_ℤ r (pos 0)) (strncmp-strncpy (de + 2) name dir_size m apart)

-- The name in an entry written at the place `16 j` of a directory without the name.
module _ (m : Memory) (d : DirState) (name de inum n n' j : ℕ) (g' : Memory)
    (away : Apart name de dirent_size) (small : inum < 2 ^ 16) (positive : 0 < inum)
    (within : j < n') (le : j ≤ n)
    (bytes : (a : ℕ)
      → a < dirent_size * suc j
      → g' a
        ≡ written
            (contents d.disk d.dir)
            (dirent_size * j)
            (bytes_at (fill_entry name de inum m) de dirent_size)
            a)
    (absent : first_match m name (contents d.disk d.dir) n 0 ≡ none) where
  beside : Apart (de + 2) name dir_size
  beside = elim away [ inl before ↦ inr (omega arith) | inr behind ↦ inl (omega arith) ]

  at_slot :
      (k : ℕ) → k < dirent_size → g' (dirent_size * j + k) ≡ fill_entry name de inum m (de + k)
  at_slot k lt =
      bytes (dirent_size * j + k) (omega arith)
      ∙ written-bytes_at (contents d.disk d.dir) (fill_entry name de inum m) (dirent_size * j) de
          dirent_size k lt

  pub slot_inum : load_short g' (dirent_size * j) ≡ inum
  slot_inum =
      let e : dirent_size * j + 0 ≡ dirent_size * j = omega arith in
      let e' : de + 0 ≡ de = omega arith in
      let low : g' (dirent_size * j) ≡ fill_entry name de inum m de =
        rw (e, e') at (at_slot 0 (omega arith)) in
      ground (arith, low, at_slot 1 (omega arith))
      ∙ fill_entry-inum name de inum m beside away small

  slot_match : is_match (fill_entry name de inum m) name g' (dirent_size * j) ≡ true
  slot_match =
      let same =
        same_name_cong (fill_entry name de inum m) (fill_entry name de inum m) g'
          (fill_entry name de inum m) name (dirent_size * j + 2) (de + 2) dir_size (λ k lt. refl)
          (λ k lt.
            ap g' (omega arith)
            ∙ at_slot (2 + k) (omega arith)
            ∙ ap (fill_entry name de inum m) (omega arith)) in
      ground (arith, slot_inum, same, fill_entry-same_name name de inum m beside away)

  before_slot :
      (i : ℕ) → i < j → is_match (fill_entry name de inum m) name g' (0 + dirent_size * i) ≡ false
  before_slot i lt =
      is_match_cong (fill_entry name de inum m) m g' (contents d.disk d.dir) name
        (0 + dirent_size * i) (fill_entry-name name de inum m beside away)
        (λ k kl.
          bytes (0 + dirent_size * i + k) (omega arith)
          ∙ written_before (contents d.disk d.dir) (dirent_size * j)
              (bytes_at (fill_entry name de inum m) de dirent_size) (0 + dirent_size * i + k)
              (omega arith))
      ∙ first_match-none m (contents d.disk d.dir) name n 0 absent i (omega arith)

  pub slot_found : first_match (fill_entry name de inum m) name g' n' 0 ≡ some (dirent_size * j)
  slot_found =
      let e : 0 + dirent_size * j ≡ dirent_size * j = omega arith in
      first_match-some (fill_entry name de inum m) g' name n' 0 j within before_slot
        (rw e slot_match)
      ∙ ap (λ (o : ℕ). some o) e

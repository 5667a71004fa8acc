-- ===== src/Paths/Lookup.antt =====
-- `namex` follows the elements of the path.
use bf_scheduler.Common.{
  ℕ, zero, suc, ◌<◌, ◌≡◌, ◌↔◌, refl, arith, Bool, true, false, Option, none, some, not, ◌&&◌, ◌==◌,
  if◌then◌else◌, List, [], ◌∷◌, length, inl, inr, Bool-cases, Option-cases, ◌∙◌, done,
}
use bf_scheduler.Files.{take}
use bf_scheduler.Paths.{dir_size, slash, root, Dirs, is_empty, enter, skipelem, namex_loop, namex}
use bf_scheduler.Paths.Elements.{elements, Skipped, no_element, element, skipelem-Skipped}

abbrev pub no_more : List (List ℕ) → Bool
no_more [] = true
no_more (x ∷ xs) = false

-- The directory tree followed from `ip` along names: the inode they lead to with the last name, or for
-- `parent` the directory of the last name and that name.
unfoldable pub resolve : Dirs → Bool → ℕ → List ℕ → List (List ℕ) → Option (ℕ × List ℕ)
resolve d parent ip name [] = if parent then none else some (ip, name)
resolve d parent ip name (c ∷ cs) =
    if not (d.is_dir ip)
    then none
    else if parent && no_more cs
    then some (ip, take dir_size c)
    else elim (d.dirlookup ip (take dir_size c)) [
      | none ↦ none
      | some next ↦ resolve d parent next (take dir_size c) cs
    ]

is_empty-no_more :
    (rest : List ℕ) (others : List (List ℕ))
    → ((rest ≡ []) ↔ (others ≡ []))
    → is_empty rest ≡ no_more others
is_empty-no_more [] [] h = refl
is_empty-no_more [] (c ∷ cs) h = ground (arith, h.0 refl)
is_empty-no_more (x ∷ rest) [] h = ground (arith, h.1 refl)
is_empty-no_more (x ∷ rest) (c ∷ cs) h = refl

abbrev Follows : Dirs → Bool → ℕ → Type 0
Follows d parent fuel =
    (ip : ℕ) (name path : List ℕ)
    → length path < fuel
    → namex_loop d parent fuel ip name path ≡ done (resolve d parent ip name (elements path))

-- One round, by what `skipelem` returns.
namex_loop_round :
    (d : Dirs) (parent : Bool) (fuel ip : ℕ) (name path : List ℕ) (r : Option (List ℕ × List ℕ))
    → Follows d parent fuel
    → length path < suc fuel
    → skipelem path ≡ r
    → Skipped path r
    → namex_loop d parent (suc fuel) ip name path ≡ done (resolve d parent ip name (elements path))
unfolding namex_loop resolve enter
namex_loop_round d parent fuel ip name path none ih lt e (no_element none_left) =
    rw (namex_loop, e, none_left) refl
namex_loop_round d parent fuel ip name path (some r) ih lt e
      (element first rest others whole left ends less) =
    rw (namex_loop, e, enter, whole, resolve, is_empty-no_more rest others ends)
      (elim (Bool-cases (d.is_dir ip)) [
        | inr file ↦ rw file refl
        | inl dir ↦ rw dir (elim (Bool-cases (parent && no_more others)) [
          | inl last ↦ rw last refl
          | inr more ↦ rw more (elim (Option-cases (d.dirlookup ip (take dir_size first))) [
            | inl absent ↦ rw absent refl
            | inr (next, found) ↦
                rw found (ih next (take dir_size first) rest (omega arith) ∙ rw left refl)
          ])
        ])
      ])

namex_loop-resolve :
    (d : Dirs) (parent : Bool) (fuel ip : ℕ) (name path : List ℕ)
    → length path < fuel
    → namex_loop d parent fuel ip name path ≡ done (resolve d parent ip name (elements path))
unfolding namex_loop
namex_loop-resolve d parent zero ip name path lt = ground arith
namex_loop-resolve d parent (suc fuel) ip name path lt =
    namex_loop_round d parent fuel ip name path (skipelem path) (namex_loop-resolve d parent fuel)
      lt refl (skipelem-Skipped path)

-- Where a path starts: at the root if it begins with a slash, and otherwise at `cwd`.
abbrev pub start_of : ℕ → List ℕ → ℕ
start_of cwd [] = cwd
start_of cwd (x ∷ path) = if x == slash then root else cwd

-- `namex` ends on every path. It starts at the root or the working directory and follows the non-empty
-- words between the slashes, each cut to `DIRSIZ` bytes; it fails at an inode that is no directory and
-- at a name that is not in it, and for `nameiparent` at a path without words.
pub namex-resolve :
    (d : Dirs) (parent : Bool) (cwd : ℕ) (path : List ℕ)
    → namex d parent cwd path ≡ done (resolve d parent (start_of cwd path) [] (elements path))
unfolding namex
namex-resolve d parent cwd [] = namex_loop-resolve d parent 1 cwd [] [] (omega arith)
namex-resolve d parent cwd (x ∷ path) =
    namex_loop-resolve d parent _ (start_of cwd (x ∷ path)) [] (x ∷ path) (omega arith)

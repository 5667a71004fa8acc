-- ===== src/Paths.antt =====
-- `skipelem`, `namex`, `namei` and `nameiparent` of fs.c. A path is the list of its bytes, less the NUL
-- at its end, and `name` is read as a string of at most `DIRSIZ` bytes. Directories are seen through
-- `Dirs`; locks and reference counts of the inodes on the way are left out.
pub mod Elements
pub mod Lookup
use bf_scheduler.Common.{
  ℕ, zero, suc, Bool, true, false, Option, none, some, not, ◌&&◌, ◌==◌, if◌then◌else◌, List, [],
  ◌∷◌, length, Outcome, done, out_of_fuel,
}
use bf_scheduler.Files.{take}

-- `DIRSIZ` and `/`
abbrev pub dir_size : ℕ
dir_size = 14

abbrev pub slash : ℕ
slash = 47

-- `while(*path == '/') path++;`
unfoldable pub skip_slashes : List ℕ → List ℕ
skip_slashes [] = []
skip_slashes (x ∷ path) = let rest = skip_slashes path in if x == slash then rest else x ∷ path

-- `while(*path != '/' && *path != 0) path++;`: the bytes passed, and the path behind them.
unfoldable pub split_elem : List ℕ → List ℕ × List ℕ
split_elem [] = ([], [])
split_elem (x ∷ path) =
    let (s, rest) = split_elem path in if x == slash then ([], x ∷ path) else (x ∷ s, rest)

-- `skipelem`: the name and the rest of the path.
unfoldable pub skipelem : List ℕ → Option (List ℕ × List ℕ)
unfolding skip_slashes split_elem
skipelem path = elim (skip_slashes path) [
  | [] ↦ none
  | x ∷ p ↦ some (take dir_size (split_elem (x ∷ p)).0, skip_slashes (split_elem (x ∷ p)).1)
]

-- What `namex` asks of inodes: `ip->type == T_DIR`, and `dirlookup`.
pub record Dirs : Type 0 where
  pub is_dir : ℕ → Bool
  pub dirlookup : ℕ → List ℕ → Option ℕ

abbrev pub is_empty : List ℕ → Bool
is_empty [] = true
is_empty (x ∷ xs) = false

-- What one round of the loop of `namex` does with an element.
pub data Round : Type 0 where
  fails : Round
  stops : Round
  goes_on : ℕ → Round

unfoldable pub enter : Dirs → Bool → ℕ → List ℕ → List ℕ → Round
enter d parent ip name path =
    if not (d.is_dir ip)
    then fails
    else if parent && is_empty path
    then stops
    else elim (d.dirlookup ip name) [ none ↦ fails | some next ↦ goes_on next ]

-- The loop of `namex`: the inode, and the name that the loop has left.
unfoldable pub namex_loop : Dirs → Bool → ℕ → ℕ → List ℕ → List ℕ → Outcome (Option (ℕ × List ℕ))
namex_loop d parent zero ip name path = out_of_fuel
namex_loop d parent (suc fuel) ip name path = elim (skipelem path) [
  | none ↦ done (if parent then none else some (ip, name))
  | some (name', path') ↦ elim (enter d parent ip name' path') [
    | fails ↦ done none
    | stops ↦ done (some (ip, name'))
    | goes_on next ↦ namex_loop d parent fuel next name' path'
  ]
]

-- `ROOTINO`
abbrev pub root : ℕ
root = 1

-- `namex`, where `cwd` is the working directory of the process.
unfoldable pub namex : Dirs → Bool → ℕ → List ℕ → Outcome (Option (ℕ × List ℕ))
namex d parent cwd [] = namex_loop d parent 1 cwd [] []
namex d parent cwd (x ∷ path) =
    namex_loop d parent (suc (length (x ∷ path))) (if x == slash then root else cwd) [] (x ∷ path)

-- ===== src/Paths/Elements.antt =====
-- The elements of a path, and that `skipelem` takes them off one by one.
use bf_scheduler.Common.{
  ℕ, ◌≤◌, ◌<◌, ◌≡◌, ◌↔◌, refl, arith, true, false, Option, none, some, ◌==◌, if◌then◌else◌, List,
  [], ◌∷◌, length, ◌⊎◌, inl, inr, Bool-cases, ap, ◌∙◌, sym,
}
use bf_scheduler.Files.{take}
use bf_scheduler.Paths.{dir_size, slash, skip_slashes, split_elem, skipelem}

-- A word before the words of the rest, unless it is empty.
abbrev pub close : List ℕ → List (List ℕ) → List (List ℕ)
close [] ws = ws
close (x ∷ w) ws = (x ∷ w) ∷ ws

-- The word that a path begins with, up to the first slash, and the words behind it.
unfoldable pub words : List ℕ → List ℕ × List (List ℕ)
words [] = ([], [])
words (x ∷ path) =
    if x == slash
    then ([], close (words path).0 (words path).1)
    else (x ∷ (words path).0, (words path).1)

-- The non-empty words between the slashes of a path.
unfoldable pub elements : List ℕ → List (List ℕ)
unfolding words
elements path = close (words path).0 (words path).1

words_nil : words [] ≡ ([], [])
unfolding words
words_nil = refl

elements_nil : elements [] ≡ []
unfolding elements words
elements_nil = refl

words-slash : (x : ℕ) (path : List ℕ) → (x == slash) ≡ true → words (x ∷ path) ≡ ([], elements path)
unfolding words elements
words-slash x path at = ground (arith, at)

words_letter :
    (x : ℕ) (path : List ℕ)
    → (x == slash) ≡ false
    → words (x ∷ path) ≡ (x ∷ (words path).0, (words path).1)
unfolding words
words_letter x path word = ground (arith, word)

elements-slash : (x : ℕ) (path : List ℕ) → (x == slash) ≡ true → elements (x ∷ path) ≡ elements path
unfolding elements
elements-slash x path at =
    ap (λ (w : List ℕ × List (List ℕ)). close w.0 w.1) (words-slash x path at)

elements_letter :
    (x : ℕ) (path : List ℕ)
    → (x == slash) ≡ false
    → elements (x ∷ path) ≡ (x ∷ (words path).0) ∷ (words path).1
unfolding elements
elements_letter x path word =
    ap (λ (w : List ℕ × List (List ℕ)). close w.0 w.1) (words_letter x path word)

-- Slashes in front do not matter, and behind them the path is empty or begins with another byte.
skip_slashes-elements :
    (path : List ℕ)
    → (elements (skip_slashes path) ≡ elements path)
      × ((skip_slashes path ≡ [])
          ⊎ ((x : ℕ) × (p : List ℕ) × (skip_slashes path ≡ x ∷ p) × ((x == slash) ≡ false)))
unfolding skip_slashes
skip_slashes-elements [] = (refl, inl refl)
skip_slashes-elements (x ∷ path) = elim (Bool-cases (x == slash)) [
  | inl at ↦
      let (e, front) = skip_slashes-elements path in
      rw at (e ∙ sym (elements-slash x path at), front)
  | inr word ↦ rw word (refl, inr (x, path, refl, word))
]

split_elem-words :
    (path : List ℕ)
    → ((split_elem path).0 ≡ (words path).0) × (elements (split_elem path).1 ≡ (words path).1)
unfolding split_elem
split_elem-words [] = (
  sym (ap (λ (w : List ℕ × List (List ℕ)). w.0) words_nil),
  elements_nil ∙ sym (ap (λ (w : List ℕ × List (List ℕ)). w.1) words_nil),
)
split_elem-words (x ∷ path) = elim (Bool-cases (x == slash)) [
  | inl at ↦ rw (at, words-slash x path at) (refl, elements-slash x path at)
  | inr word ↦
      rw (word, words_letter x path word)
        (ap (◌∷◌ x) (split_elem-words path).0, (split_elem-words path).1)
]

skip_slashes-le : (path : List ℕ) → length (skip_slashes path) ≤ length path
unfolding skip_slashes
skip_slashes-le [] = omega arith
skip_slashes-le (x ∷ path) = ground (arith, skip_slashes-le path)

split_elem-le : (path : List ℕ) → length (split_elem path).1 ≤ length path
unfolding split_elem
split_elem-le [] = omega arith
split_elem-le (x ∷ path) = ground (arith, split_elem-le path)

-- Behind a byte that is no slash.
split_elem-cons :
    (x : ℕ) (p : List ℕ)
    → (x == slash) ≡ false
    → (split_elem (x ∷ p) ≡ (x ∷ (words p).0, (split_elem p).1))
      × (elements (split_elem p).1 ≡ (words p).1)
unfolding split_elem
split_elem-cons x p word = (
  rw word (ap (λ (w : List ℕ). (x ∷ w, (split_elem p).1)) (split_elem-words p).0),
  (split_elem-words p).1,
)

skip_slashes-nil_iff : (path : List ℕ) → (skip_slashes path ≡ []) ↔ (elements path ≡ [])
skip_slashes-nil_iff path =
    let (e, front) = skip_slashes-elements path in
    elim front [
      | inl none_left ↦ (λ h. sym e ∙ ap elements none_left ∙ elements_nil, λ h. none_left)
      | inr (x, p, eq, word) ↦
          let some_left : elements path ≡ (x ∷ (words p).0) ∷ (words p).1 =
            sym e ∙ ap elements eq ∙ elements_letter x p word in
          (λ h. ground (arith, eq, h), λ h. ground (arith, some_left, h))
    ]

-- The results of `skipelem`.
pub data Skipped (path : List ℕ) : Option (List ℕ × List ℕ) → Type 0 where
  no_element : elements path ≡ [] → Skipped path none
  element :
      (name rest : List ℕ) (others : List (List ℕ))
      → elements path ≡ name ∷ others
      → elements rest ≡ others
      → ((rest ≡ []) ↔ (others ≡ []))
      → length rest < length path
      → Skipped path (some (take dir_size name, rest))

-- `skipelem` fails exactly if the path has no element. Otherwise it returns the first one, cut to
-- `DIRSIZ` bytes, and a shorter path with the other elements, which is empty if there are none.
pub skipelem-Skipped : (path : List ℕ) → Skipped path (skipelem path)
unfolding skipelem
skipelem-Skipped path =
    let (e, front) = skip_slashes-elements path in
    elim front [
      | inl none_left ↦
          rw (skipelem, none_left) (no_element (sym e ∙ ap elements none_left ∙ elements_nil))
      | inr (x, p, eq, word) ↦
          let (cut, rest) = split_elem-cons x p word in
          let (same, _) = skip_slashes-elements (split_elem p).1 in
          rw (skipelem, eq, cut)
            (element (x ∷ (words p).0) (skip_slashes (split_elem p).1) (words p).1
              (sym e ∙ ap elements eq ∙ elements_letter x p word) (same ∙ rest)
              (rw rest at (skip_slashes-nil_iff (split_elem p).1))
              (ground (
                arith,
                skip_slashes-le path,
                eq,
                skip_slashes-le (split_elem p).1,
                split_elem-le p,
              )))
    ]

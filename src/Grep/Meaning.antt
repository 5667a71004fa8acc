-- ===== src/Grep/Meaning.antt =====
-- What a regular expression means, and that the matcher decides it.
use bf_scheduler.Common.{
  ℕ, ◌≡◌, ◌↔◌, refl, arith, Bool, true, not, ◌&&◌, ◌||◌, ◌==◌, if◌then◌else◌, List, [], ◌∷◌, ◌++◌,
  inl, inr, Bool-cases, ap, ◌∙◌,
}
use bf_scheduler.Grep.{dot, star, caret, dollar, matchstar, matchhere, match_from, match_re}

-- The character of an expression stands for a byte.
abbrev pub fits : ℕ → ℕ → Bool
fits r x = (r == dot) || (r == x)

abbrev pub all_fit : ℕ → List ℕ → Bool
all_fit r [] = true
all_fit r (x ∷ xs) = fits r x && all_fit r xs

-- Whether `r` before `re` is a single character: no star follows, and it is not a `$` at the end.
abbrev pub is_single : ℕ → List ℕ → Bool
is_single r [] = not (r == dollar)
is_single r (s ∷ re) = not (s == star)

-- The expression `re` matches a front part of the text.
pub data Matches : List ℕ → List ℕ → Type 0 where
  whole : {text : List ℕ} → Matches [] text
  line_end : {r : ℕ} → (r == dollar) ≡ true → Matches (r ∷ []) []
  single :
      {r x : ℕ} {re text : List ℕ}
      → is_single r re ≡ true
      → fits r x ≡ true
      → Matches re text
      → Matches (r ∷ re) (x ∷ text)
  starred :
      {r s : ℕ} {re text : List ℕ} (u v : List ℕ)
      → (s == star) ≡ true
      → text ≡ u ++ v
      → all_fit r u ≡ true
      → Matches re v
      → Matches (r ∷ s ∷ re) text

-- `matchstar` looks for a run of the character.
matchstar-run :
    (r : ℕ) (here : List ℕ → Bool) (text : List ℕ)
    → matchstar r here text ≡ true
    → (u : List ℕ) × (v : List ℕ) × (text ≡ u ++ v) × (all_fit r u ≡ true) × (here v ≡ true)
unfolding matchstar
matchstar-run r here [] h = ([], [], refl, refl, h)
matchstar-run r here (x ∷ text) h = elim (Bool-cases (here (x ∷ text))) [
  | inl now ↦ ([], x ∷ text, refl, refl, now)
  | inr later ↦
      let (u, v, e, run, m) = matchstar-run r here text (ground (arith, later)) in
      (x ∷ u, v, ap (◌∷◌ x) e, ground (arith, later), m)
]

run-matchstar :
    (r : ℕ) (here : List ℕ → Bool) (u v : List ℕ)
    → all_fit r u ≡ true
    → here v ≡ true
    → matchstar r here (u ++ v) ≡ true
unfolding matchstar
run-matchstar r here [] [] run m = m
run-matchstar r here [] (x ∷ v) run m = ground (arith, m)
run-matchstar r here (x ∷ u) v run m = ground (arith, run-matchstar r here u v)

matchhere→Matches : (re text : List ℕ) → matchhere re text ≡ true → Matches re text
unfolding matchhere
matchhere→Matches [] text h = whole
matchhere→Matches (r ∷ []) [] h = line_end (ground arith)
matchhere→Matches (r ∷ []) (x ∷ text) h = single (ground arith) (ground arith) whole
matchhere→Matches (r ∷ s ∷ re) [] h =
    let (u, v, e, run, m) = matchstar-run r (matchhere re) [] (ground arith) in
    starred u v (ground arith) e run (matchhere→Matches re v m)
matchhere→Matches (r ∷ s ∷ re) (x ∷ text) h = elim (Bool-cases (s == star)) [
  | inl many ↦
      let (u, v, e, run, m) = matchstar-run r (matchhere re) (x ∷ text) (ground (arith, many)) in
      starred u v many e run (matchhere→Matches re v m)
  | inr one ↦
      single (ground (arith, one)) (ground (arith, one))
        (matchhere→Matches (s ∷ re) text (ground (arith, one)))
]

-- A starred character at the front.
matchhere-starred :
    (r s : ℕ) (re text : List ℕ)
    → (s == star) ≡ true
    → matchhere (r ∷ s ∷ re) text ≡ matchstar r (matchhere re) text
unfolding matchhere
matchhere-starred r s re [] many = rw many refl
matchhere-starred r s re (x ∷ text) many = rw many refl

Matches→matchhere : (re text : List ℕ) → Matches re text → matchhere re text ≡ true
unfolding matchhere
Matches→matchhere [] text m = refl
Matches→matchhere (r ∷ []) [] (line_end e) = ground arith
Matches→matchhere (r ∷ []) (x ∷ text) (single one fit m) = ground arith
Matches→matchhere (r ∷ s ∷ re) (x ∷ text) (single one fit m) =
    ground (arith, Matches→matchhere (s ∷ re) text m)
Matches→matchhere (r ∷ s ∷ re) text (starred u v many e run m) =
    matchhere-starred r s re text many
    ∙ ap (matchstar r (matchhere re)) e
    ∙ run-matchstar r (matchhere re) u v run (Matches→matchhere re v m)

match_from→Matches :
    (re text : List ℕ)
    → match_from re text ≡ true
    → (u : List ℕ) × (v : List ℕ) × (text ≡ u ++ v) × Matches re v
unfolding match_from
match_from→Matches re [] h = ([], [], refl, matchhere→Matches re [] h)
match_from→Matches re (x ∷ text) h = elim (Bool-cases (matchhere re (x ∷ text))) [
  | inl now ↦ ([], x ∷ text, refl, matchhere→Matches re (x ∷ text) now)
  | inr later ↦
      let (u, v, e, m) = match_from→Matches re text (ground (arith, later)) in
      (x ∷ u, v, ap (◌∷◌ x) e, m)
]

Matches→match_from : (re u v : List ℕ) → Matches re v → match_from re (u ++ v) ≡ true
unfolding match_from
Matches→match_from re [] [] m = Matches→matchhere re [] m
Matches→match_from re [] (x ∷ v) m = ground (arith, Matches→matchhere re (x ∷ v) m)
Matches→match_from re (x ∷ u) v m = ground (arith, Matches→match_from re u v m)

-- What an expression means for a line: with `^` the rest of it matches a front part, otherwise it
-- matches somewhere.
abbrev pub Found : List ℕ → List ℕ → Type 0
Found [] text = (u : List ℕ) × (v : List ℕ) × (text ≡ u ++ v) × Matches [] v
Found (r ∷ re) text =
    if r == caret
    then Matches re text
    else ((u : List ℕ) × (v : List ℕ) × (text ≡ u ++ v) × Matches (r ∷ re) v)

-- `match` finds exactly the lines that the expression describes: it matches from the start of the line
-- behind a `^`, and from some place of the line otherwise.
pub match_re_iff : (re text : List ℕ) → (match_re re text ≡ true) ↔ Found re text
unfolding match_re
match_re_iff [] text =
    (match_from→Matches [] text, λ (u, v, e, m). ap (match_from []) e ∙ Matches→match_from [] u v m)
match_re_iff (r ∷ re) text = elim (Bool-cases (r == caret)) [
  | inl anchored ↦ rw anchored (matchhere→Matches re text, Matches→matchhere re text)
  | inr free ↦ rw free (
    match_from→Matches (r ∷ re) text,
    λ (u, v, e, m). ap (match_from (r ∷ re)) e ∙ Matches→match_from (r ∷ re) u v m,
  )
]

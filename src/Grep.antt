-- ===== src/Grep.antt =====
-- The matcher of grep.c. A C string is the list of its bytes, less the NUL at its end.
pub mod Meaning
use bf_scheduler.Common.{ℕ, Bool, true, false, ◌&&◌, ◌||◌, ◌==◌, if◌then◌else◌, List, [], ◌∷◌}

-- `.`, `*`, `^` and `$`
abbrev pub dot : ℕ
dot = 46

abbrev pub star : ℕ
star = 42

abbrev pub caret : ℕ
caret = 94

abbrev pub dollar : ℕ
dollar = 36

-- `matchstar`, where `here` is `matchhere` of the rest of the expression.
unfoldable pub matchstar : ℕ → (List ℕ → Bool) → List ℕ → Bool
matchstar c here [] = here []
matchstar c here (x ∷ text) =
    let rest = matchstar c here text in
    if here (x ∷ text) then true else if (x == c) || (c == dot) then rest else false

-- `matchhere`; its second and third clauses are for `re[1] == '\0'`.
unfoldable pub matchhere : List ℕ → List ℕ → Bool
unfolding matchstar
matchhere [] text = true
matchhere (r ∷ []) [] = r == dollar
matchhere (r ∷ []) (x ∷ text) = if r == dollar then false else (r == dot) || (r == x)
matchhere (r ∷ s ∷ re) [] = if s == star then matchstar r (matchhere re) [] else false
matchhere (r ∷ s ∷ re) (x ∷ text) =
    if s == star
    then matchstar r (matchhere re) (x ∷ text)
    else ((r == dot) || (r == x)) && matchhere (s ∷ re) text

-- The loop of `match`.
unfoldable pub match_from : List ℕ → List ℕ → Bool
match_from re [] = matchhere re []
match_from re (x ∷ text) =
    let rest = match_from re text in if matchhere re (x ∷ text) then true else rest

-- `match`
unfoldable pub match_re : List ℕ → List ℕ → Bool
match_re [] text = match_from [] text
match_re (r ∷ re) text = if r == caret then matchhere re text else match_from (r ∷ re) text

-- ===== src/SkipList/Chain.antt =====
-- Doubly linked chains of array indices: one level of the skip list.
use bf_scheduler.Common.{
  ℕ, ◌≡◌, refl, Option, none, some, true, false, List, [], ◌∷◌, ◌++◌, arith, has, ◌∉◌, Distinct,
  has-append, ◌==◌, ==→eq, Bool-cases, inl, inr, sym, ap, ◌∙◌,
}
use mathlib.Core.Bool.{false≢true}

abbrev pub Links : Type 0
Links = ℕ → Option ℕ

-- From the node `a` the forward links lead through `xs` and end; the backward links lead back.
abbrev pub Chain : Links → Links → ℕ → List ℕ → Type 0
Chain fw bw a [] = fw a ≡ none
Chain fw bw a (b ∷ xs) = (fw a ≡ some b) × (bw b ≡ some a) × Chain fw bw b xs

-- The last node of the chain `a ∷ xs`.
abbrev pub last : ℕ → List ℕ → ℕ
last a [] = a
last a (b ∷ xs) = last b xs

abbrev pub first : List ℕ → Option ℕ
first [] = none
first (b ∷ xs) = some b

pub not-mem-cons : (a x : ℕ) (xs : List ℕ) → (a == x) ≡ false → a ∉ xs → a ∉ (x ∷ xs)
not-mem-cons a x xs ne out = ground arith

pub ne_of_mem : (a b : ℕ) (xs : List ℕ) → has a xs ≡ true → b ∉ xs → (a == b) ≡ false
ne_of_mem a b xs m out = elim (Bool-cases (a == b)) [
  | inl e ↦ absurd (false≢true (sym out ∙ ap (λ c. has c xs) (sym (==→eq a b e)) ∙ m))
  | inr e ↦ e
]

-- A chain stays one if the links that it uses stay.
pub Chain-frame :
    {fw bw fw' bw' : Links} (a : ℕ) (xs : List ℕ)
    → ((b : ℕ) → has b (a ∷ xs) ≡ true → fw' b ≡ fw b)
    → ((b : ℕ) → has b xs ≡ true → bw' b ≡ bw b)
    → Chain fw bw a xs
    → Chain fw' bw' a xs
Chain-frame a [] f g c = ground (arith, f a)
Chain-frame a (b ∷ xs) f g c = (
  ground (arith, f a),
  ground (arith, g b),
  Chain-frame b xs (λ d i. f d (ground arith)) (λ d i. g d (ground arith)) c.2,
)

pub Chain-suffix :
    (fw bw : Links) (a : ℕ) (ys zs : List ℕ) → Chain fw bw a (ys ++ zs) → Chain fw bw (last a ys) zs
Chain-suffix fw bw a [] zs c = c
Chain-suffix fw bw a (b ∷ ys) zs c = Chain-suffix fw bw b ys zs c.2

pub first_of_Chain : (fw bw : Links) (a : ℕ) (xs : List ℕ) → Chain fw bw a xs → fw a ≡ first xs
first_of_Chain fw bw a [] c = c
first_of_Chain fw bw a (b ∷ xs) c = c.0

pub has-last : (a : ℕ) (ys zs : List ℕ) → has (last a ys) (a ∷ ys ++ zs) ≡ true
has-last a [] zs = ground arith
has-last a (b ∷ ys) zs = ground (arith, has-last b ys zs)

has-last_self : (a : ℕ) (ys : List ℕ) → has (last a ys) (a ∷ ys) ≡ true
has-last_self a [] = ground arith
has-last_self a (b ∷ ys) = ground (arith, has-last_self b ys)

-- In a chain of distinct nodes the last of a front part does not occur behind it.
last-not-mem : (a : ℕ) (ys zs : List ℕ) → Distinct (a ∷ ys ++ zs) → last a ys ∉ zs
last-not-mem a [] zs d = d.0
last-not-mem a (b ∷ ys) zs d = last-not-mem b ys zs d.1

pub first-mem : (b : ℕ) (ys zs : List ℕ) → first zs ≡ some b → has b (ys ++ zs) ≡ true
first-mem b [] [] e = cc
first-mem b [] (z ∷ zs) e = ground arith
first-mem b (y ∷ ys) zs e = ground (arith, first-mem b ys zs e)

pub has-middle : (n : ℕ) (ys zs : List ℕ) → has n (ys ++ n ∷ zs) ≡ true
has-middle n [] zs = ground arith
has-middle n (y ∷ ys) zs = ground (arith, has-middle n ys zs)

-- The links after `n` is put behind `last a ys`, which `zs` follows.
pub record Linked (fw bw fw' bw' : Links) (back n : ℕ) (next : Option ℕ) : Type 0 where
  pub at_back : fw' back ≡ some n
  pub at_new : fw' n ≡ next
  pub new_back : bw' n ≡ some back
  pub next_back : (f : ℕ) → next ≡ some f → bw' f ≡ some n
  pub other_fw : (b : ℕ) → (b == back) ≡ false → (b == n) ≡ false → fw' b ≡ fw b
  pub other_bw : (b : ℕ) → (b == n) ≡ false → (next ≡ some b → ⊥) → bw' b ≡ bw b

module _ {fw bw fw' bw' : Links} (n : ℕ) where
  insert_here :
      (a : ℕ) (zs : List ℕ)
      → Chain fw bw a zs
      → n ∉ (a ∷ zs)
      → Distinct (a ∷ zs)
      → Linked fw bw fw' bw' a n (first zs)
      → Chain fw' bw' a (n ∷ zs)
  insert_here a [] c out d l = (l.at_back, l.new_back, l.at_new)
  insert_here a (z ∷ zs) c out d l = (
    l.at_back,
    l.new_back,
    (
      l.at_new,
      l.next_back z refl,
      Chain-frame z zs (λ b i. l.other_fw b (ground arith) (ground arith))
          (λ b i. l.other_bw b (ground arith) (λ e. ground arith)) c.2,
    ),
  )

  -- A new node put into a chain.
  pub Chain-insert :
      (a : ℕ) (ys zs : List ℕ)
      → Chain fw bw a (ys ++ zs)
      → n ∉ (a ∷ ys ++ zs)
      → Distinct (a ∷ ys ++ zs)
      → Linked fw bw fw' bw' (last a ys) n (first zs)
      → Chain fw' bw' a (ys ++ n ∷ zs)
  Chain-insert a [] zs c out d l = insert_here a zs c out d l
  Chain-insert a (b ∷ ys) zs c out d l = (
    ground (arith, l.other_fw a, has-last b ys zs),
    ground (arith, l.other_bw b (ground arith) (λ e. ground (arith, first-mem b ys zs e))),
    Chain-insert b ys zs c.2 (ground arith) d.1 l,
  )

-- The links after `n`, between `back` and `next`, is taken out.
pub record Unlinked (fw bw fw' bw' : Links) (back n : ℕ) (next : Option ℕ) : Type 0 where
  pub at_back : fw' back ≡ next
  pub next_back : (f : ℕ) → next ≡ some f → bw' f ≡ some back
  pub other_fw : (b : ℕ) → (b == back) ≡ false → (b == n) ≡ false → fw' b ≡ fw b
  pub other_bw : (b : ℕ) → (b == n) ≡ false → (next ≡ some b → ⊥) → bw' b ≡ bw b

module _ {fw bw fw' bw' : Links} (n : ℕ) where
  remove_here :
      (a : ℕ) (zs : List ℕ)
      → Chain fw bw a (n ∷ zs)
      → Distinct (a ∷ n ∷ zs)
      → Unlinked fw bw fw' bw' a n (first zs)
      → Chain fw' bw' a zs
  remove_here a [] c d l = l.at_back
  remove_here a (z ∷ zs) c d l = (
    l.at_back,
    l.next_back z refl,
    Chain-frame z zs (λ b i. l.other_fw b (ground arith) (ground arith))
        (λ b i. l.other_bw b (ground arith) (λ e. ground arith)) c.2.2,
  )

  -- A node taken out of a chain.
  pub Chain-remove :
      (a : ℕ) (ys zs : List ℕ)
      → Chain fw bw a (ys ++ n ∷ zs)
      → Distinct (a ∷ ys ++ n ∷ zs)
      → Unlinked fw bw fw' bw' (last a ys) n (first zs)
      → Chain fw' bw' a (ys ++ zs)
  Chain-remove a [] zs c d l = remove_here a zs c d l
  Chain-remove a (b ∷ ys) zs c d l = (
    ground (arith, l.other_fw a, has-last b ys (n ∷ zs), has-middle n ys zs),
    ground (
      arith,
      has-middle n ys zs,
      l.other_bw b (ground (arith, has-middle n ys zs))
          (λ e. ground (arith, first-mem b (n ∷ []) zs e, has-append b ys (n ∷ zs))),
    ),
    Chain-remove b ys zs c.2 d.1 l,
  )

-- The links of a node within a chain.
pub links_of_Chain :
    (fw bw : Links) (n a : ℕ) (ys zs : List ℕ)
    → Chain fw bw a (ys ++ n ∷ zs)
    → (bw n ≡ some (last a ys)) × (fw n ≡ first zs)
links_of_Chain fw bw n a [] zs c = (c.1, first_of_Chain fw bw n zs c.2)
links_of_Chain fw bw n a (b ∷ ys) zs c = links_of_Chain fw bw n b ys zs c.2

-- ===== src/Pages/Range.antt =====
-- `freerange` frees each page of a range.
use bf_scheduler.Common.{
  ℕ, zero, suc, ◌+◌, ◌-◌, ◌*◌, ◌/◌, ◌%◌, ◌≤◌, ◌<◌, ◌≡◌, arith, true, List, [], ◌∷◌, has, ◌∉◌, done,
}
use bf_scheduler.Pages.{
  page_size, kern_base, phys_stop, Kmem, free_pages, freerange, all_pages, page_round_up,
}
use bf_scheduler.Pages.FreeList.{IsFree, kfree-Freed}

-- `n` pages from `p` on, in front of `xs`, the last page first.
abbrev pub stack_pages : ℕ → ℕ → List ℕ → List ℕ
stack_pages zero p xs = xs
stack_pages (suc n) p xs = stack_pages n (p + page_size) (p ∷ xs)

abbrev Below : ℕ → List ℕ → Type 0
Below p xs = (v : ℕ) → has v xs ≡ true → v < p

Below→∉ : (p : ℕ) (xs : List ℕ) → Below p xs → p ∉ xs
Below→∉ p xs h = ground (arith, h p)

Below-cons : (p : ℕ) (xs : List ℕ) → Below p xs → Below (p + page_size) (p ∷ xs)
Below-cons p xs h v mem = ground (arith, h v)

free_pages-IsFree :
    (last n fuel p vend : ℕ) (k : Kmem) (xs : List ℕ)
    → IsFree last k xs
    → Below p xs
    → p % page_size ≡ 0
    → last ≤ p
    → kern_base ≤ p
    → vend ≤ kern_base + phys_stop
    → p + n * page_size ≤ vend
    → vend < p + n * page_size + page_size
    → n ≤ fuel
    → (k' : Kmem) × (free_pages last fuel p vend k ≡ done k') × IsFree last k' (stack_pages n p xs)
unfolding free_pages
free_pages-IsFree last zero zero p vend k xs f below al lo base hi n1 n2 enough =
    (k, ground arith, f)
free_pages-IsFree last zero (suc fuel) p vend k xs f below al lo base hi n1 n2 enough =
    (k, ground arith, f)
free_pages-IsFree last (suc n) zero p vend k xs f below al lo base hi n1 n2 enough = ground arith
free_pages-IsFree last (suc n) (suc fuel) p vend k xs f below al lo base hi n1 n2 enough =
    let (k1, run, r) = kfree-Freed last p k xs f (ground arith) (Below→∉ p xs below) in
    let (k', run', f') =
      free_pages-IsFree last n fuel (p + page_size) vend k1 (p ∷ xs) r.free (Below-cons p xs below)
        (omega arith) (omega arith) (omega arith) hi (omega arith) (omega arith) (omega arith) in
    (k', ground (arith, run, run'), f')

-- On an empty free list, `freerange` of a range in the kernel's half, behind the kernel and below
-- `PHYSTOP`, whose start, rounded up to a page, is not behind its end,
-- ends: the free pages are then the whole pages of the range, each once, the last one first.
pub freerange-IsFree :
    (last vstart vend : ℕ) (k : Kmem)
    → IsFree last k []
    → last ≤ vstart
    → kern_base ≤ vstart
    → vstart ≤ vend
    → page_round_up vstart ≤ vend
    → vend ≤ kern_base + phys_stop
    → (k' : Kmem) × (freerange last vstart vend k ≡ done k')
      × IsFree last k'
          (stack_pages ((vend - page_round_up vstart) / page_size) (page_round_up vstart) [])
unfolding freerange
freerange-IsFree last vstart vend k f lo base order whole hi =
    let up : vstart ≤ page_round_up vstart = omega arith in
    let (k', run, f') =
      free_pages-IsFree last ((vend - page_round_up vstart) / page_size) all_pages
        (page_round_up vstart) vend k [] f (λ v mem. ground arith) (omega arith) (omega (arith, up))
        (omega (arith, up)) hi (omega (arith, whole)) (omega (arith, whole))
        (omega (arith, base)) in
    (k', ground (arith, run), f')

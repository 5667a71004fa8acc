-- ===== src/Pages/FreeList.antt =====
-- The free list as a list of pages.
use bf_scheduler.Common.{
  ℕ, ◌+◌, ◌^◌, ◌<◌, ◌≡◌, refl, arith, false, ◌==◌, List, [], ◌∷◌, ◌∉◌, Distinct, done,
}
use bf_scheduler.Strings.{Memory, store_word, memset}
use bf_scheduler.Strings.Move.{inside, memset_lem}
use bf_scheduler.Pages.{page_size, no_page, load_word, Kmem, kfree, kalloc}

pub load_word-store_word : (m : Memory) (a w : ℕ) → w < 2 ^ 32 → load_word (store_word m a w) a ≡ w
unfolding load_word store_word
load_word-store_word m a w h = ground arith

-- The list of `freelist` is `xs`, in this order.
abbrev pub Chain : ℕ → Memory → ℕ → List ℕ → Type 0
Chain last m p [] = p ≡ 0
Chain last m p (x ∷ xs) = (p ≡ x) × (no_page last x ≡ false) × Chain last m (load_word m x) xs

-- The free pages, each once.
pub record IsFree (last : ℕ) (k : Kmem) (xs : List ℕ) : Type 0 where
  pub chain : Chain last k.memory k.freelist xs
  pub once : Distinct xs

-- Memory outside the page of `v` as before.
abbrev pub KeptOutside : ℕ → Memory → Memory → Type 0
KeptOutside v m m' = (a : ℕ) → inside a v page_size ≡ false → m' a ≡ m a

freed-outside :
    (v w : ℕ) (m : Memory) (a : ℕ)
    → inside a v page_size ≡ false
    → store_word (memset v 1 page_size m) v w a ≡ m a
unfolding store_word
freed-outside v w m a out = ground (arith, memset_lem v 1 page_size m a)

load_word-KeptOutside :
    (last v x : ℕ) (m m' : Memory)
    → no_page last v ≡ false
    → no_page last x ≡ false
    → KeptOutside v m m'
    → (v == x) ≡ false
    → load_word m' x ≡ load_word m x
unfolding load_word
load_word-KeptOutside last v x m m' ok page kept ne =
    ground (arith, kept x, kept (x + 1), kept (x + 2), kept (x + 3))

Chain-KeptOutside :
    (last v p : ℕ) (m m' : Memory) (xs : List ℕ)
    → no_page last v ≡ false
    → KeptOutside v m m'
    → v ∉ xs
    → Chain last m p xs
    → Chain last m' p xs
Chain-KeptOutside last v p m m' [] ok kept out c = c
Chain-KeptOutside last v p m m' (x ∷ xs) ok kept out (e, page, c) =
    let same : load_word m' x ≡ load_word m x =
      load_word-KeptOutside last v x m m' ok page kept (ground arith) in
    (e, page, rw same (Chain-KeptOutside last v (load_word m x) m m' xs ok kept (ground arith) c))

Chain-word : (last p : ℕ) (m : Memory) (xs : List ℕ) → Chain last m p xs → p < 2 ^ 32
Chain-word last p m [] c = ground arith
Chain-word last p m (x ∷ xs) c = ground (arith, c.0, c.1)

-- What `kfree` of the page `v` does.
pub record Freed (last v : ℕ) (xs : List ℕ) (k k' : Kmem) : Type 0 where
  pub free : IsFree last k' (v ∷ xs)
  pub outside : KeptOutside v k.memory k'.memory
  pub lock : k'.use_lock ≡ k.use_lock

-- `kfree` of a page that is behind the kernel, below `PHYSTOP` and not on the free list puts it at
-- the front of the list and changes no byte outside it.
pub kfree-Freed :
    (last v : ℕ) (k : Kmem) (xs : List ℕ)
    → IsFree last k xs
    → no_page last v ≡ false
    → v ∉ xs
    → (k' : Kmem) × (kfree last v k ≡ done k') × Freed last v xs k k'
unfolding kfree
kfree-Freed last v k xs f ok out = (
  _,
  ground arith,
  record {
    free = record {
      chain = (
        refl,
        ok,
        rw
            (load_word-store_word (memset v 1 page_size k.memory) v k.freelist
              (Chain-word last k.freelist k.memory xs f.chain))
            (Chain-KeptOutside last v k.freelist k.memory _ xs ok
              (freed-outside v k.freelist k.memory) out f.chain),
      );
      once = (out, f.once);
    };
    outside = freed-outside v k.freelist k.memory;
    lock = refl;
  },
)

-- What `kalloc` returns.
pub data Taken (last : ℕ) (k : Kmem) : List ℕ → ℕ × Kmem → Type 0 where
  no_page_left : Taken last k [] (0, k)
  taken :
      (v : ℕ) (xs : List ℕ) (k' : Kmem)
      → no_page last v ≡ false
      → v ∉ xs
      → IsFree last k' xs
      → k'.memory ≡ k.memory
      → Taken last k (v ∷ xs) (v, k')

-- `kalloc` returns null exactly if no page is free. Otherwise it returns the first free page, the
-- others stay free, the page is not among them, and no byte of memory changes.
pub kalloc-Taken :
    (last : ℕ) (k : Kmem) (xs : List ℕ) → IsFree last k xs → Taken last k xs (kalloc k)
unfolding kalloc
kalloc-Taken last k [] f = let e : kalloc k ≡ (0, k) = ground (arith, f.chain) in rw e no_page_left
kalloc-Taken last k (v ∷ xs) f =
    let e : kalloc k ≡ (v, record k { freelist = load_word k.memory v }) =
      ground (arith, f.chain.0, f.chain.1) in
    rw e (taken v xs _ f.chain.1 f.once.0 (record { chain = f.chain.2; once = f.once.1 }) refl)

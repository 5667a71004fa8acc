-- ===== src/Pages.antt =====
-- kalloc.c: the free list of physical pages, which runs through the pages themselves. `last` is `end`,
-- the first address after the kernel. Each function runs its section under `kmem.lock` as one step.
pub mod FreeList
pub mod Range
use bf_scheduler.Common.{
  ℕ, zero, suc, ◌+◌, ◌-◌, ◌*◌, ◌/◌, ◌%◌, ◌^◌, Bool, true, false, not, ◌||◌, ◌==◌, ltb, leb,
  if◌then◌else◌, Outcome, done, panicked, out_of_fuel, ◌>>=◌,
}
use bf_scheduler.Strings.{Memory, store_word, memset}

-- `PGSIZE`, `KERNBASE` and `PHYSTOP`
abbrev pub page_size : ℕ
page_size = 4096

abbrev pub kern_base : ℕ
kern_base = 2 ^ 31

abbrev pub phys_stop : ℕ
phys_stop = 14 * 2 ^ 24

-- A little-endian word of memory.
unfoldable pub load_word : Memory → ℕ → ℕ
load_word m a = m a + 2 ^ 8 * m (a + 1) + 2 ^ 16 * m (a + 2) + 2 ^ 24 * m (a + 3)

-- `kmem`, less its lock, and the memory; the pointer 0 is null.
pub record Kmem : Type 0 where
  pub memory : Memory
  pub use_lock : Bool
  pub freelist : ℕ

-- `(uint)v % PGSIZE || v < end || V2P(v) >= PHYSTOP`, where `V2P` panics below `KERNBASE`.
abbrev pub no_page : ℕ → ℕ → Bool
no_page last v =
    not (v % page_size == 0) || ltb v last || ltb v kern_base || leb phys_stop (v - kern_base)

-- `kfree`
unfoldable pub kfree : ℕ → ℕ → Kmem → Outcome Kmem
unfolding memset store_word
kfree last v k =
    if no_page last v
    then panicked
    else done (record k {
      memory = store_word (memset v 1 page_size k.memory) v k.freelist;
      freelist = v;
    })

-- `kalloc`
unfoldable pub kalloc : Kmem → ℕ × Kmem
unfolding load_word
kalloc k = (
  k.freelist,
  if not (k.freelist == 0) then record k { freelist = load_word k.memory k.freelist } else k,
)

-- The loop of `freerange`.
unfoldable pub free_pages : ℕ → ℕ → ℕ → ℕ → Kmem → Outcome Kmem
free_pages last zero p vend k = if leb (p + page_size) vend then out_of_fuel else done k
free_pages last (suc fuel) p vend k =
    let rest = kfree last p k >>= λ k'. free_pages last fuel (p + page_size) vend k' in
    if leb (p + page_size) vend then rest else done k

-- `PGROUNDUP`
abbrev pub page_round_up : ℕ → ℕ
page_round_up a = (a + page_size - 1) / page_size * page_size % 2 ^ 32

-- The pages in 4 GB.
abbrev pub all_pages : ℕ
all_pages = 2 ^ 20

-- `freerange`
unfoldable pub freerange : ℕ → ℕ → ℕ → Kmem → Outcome Kmem
freerange last vstart vend k =
    if ltb vend vstart then panicked else free_pages last all_pages (page_round_up vstart) vend k

-- `kinit1` and `kinit2`
unfoldable pub kinit1 : ℕ → ℕ → ℕ → Kmem → Outcome Kmem
kinit1 last vstart vend k = freerange last vstart vend (record k { use_lock = false })

unfoldable pub kinit2 : ℕ → ℕ → ℕ → Kmem → Outcome Kmem
kinit2 last vstart vend k =
    freerange last vstart vend k >>= λ k'. done (record k' { use_lock = true })

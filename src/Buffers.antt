-- ===== src/Buffers.antt =====
-- bio.c: the buffer cache. A pointer to a buffer is its index in `bcache.buf`, and `NBUF` is the index
-- of `bcache.head`. Sections under `bcache.lock` run as one step; the sleep locks of the buffers and the
-- disk driver `iderw` are left out: `bread` and `bwrite` say whether they call it.
use bf_scheduler.Common.{
  ℕ, zero, suc, ◌+◌, ◌-◌, Bool, false, Option, none, some, not, ◌&&◌, ◌==◌, if◌then◌else◌, update,
  Outcome, done, panicked, out_of_fuel, ◌>>=◌,
}

-- `NBUF`, and the index of the head of the list.
abbrev pub nbuf : ℕ
nbuf = 30

abbrev pub head : ℕ
head = nbuf

-- `struct buf`, less its data; `is_valid` and `is_dirty` are the flags `B_VALID` and `B_DIRTY`.
pub record Buf : Type 0 where
  pub is_valid : Bool
  pub is_dirty : Bool
  pub dev : ℕ
  pub blockno : ℕ
  pub refcnt : ℕ
  pub prev : ℕ
  pub next : ℕ

abbrev pub Bcache : Type 0
Bcache = ℕ → Buf

abbrev pub set_next : Bcache → ℕ → ℕ → Bcache
set_next c b n = update c b (record (c b) { next = n })

abbrev pub set_prev : Bcache → ℕ → ℕ → Bcache
set_prev c b p = update c b (record (c b) { prev = p })

-- Puts the buffer behind the head of the list.
unfoldable pub link_first : Bcache → ℕ → Bcache
link_first c b =
    let c1 = set_next c b (c head).next in
    let c2 = set_prev c1 b head in let c3 = set_prev c2 (c2 head).next b in set_next c3 head b

-- `binit`: the loop, over the first `n` buffers, and the whole.
unfoldable pub link_buffers : ℕ → Bcache → Bcache
link_buffers zero c = c
link_buffers (suc n) c = link_first (link_buffers n c) n

unfoldable pub binit : Bcache → Bcache
binit c = link_buffers nbuf (set_next (set_prev c head head) head head)

-- The first loop of `bget`: the buffer of the block.
unfoldable pub find_cached : ℕ → Bcache → ℕ → ℕ → ℕ → Outcome (Option ℕ)
find_cached zero c dev blockno b = out_of_fuel
find_cached (suc fuel) c dev blockno b =
    let rest = find_cached fuel c dev blockno (c b).next in
    if b == head
    then done none
    else if ((c b).dev == dev) && ((c b).blockno == blockno)
    then done (some b)
    else rest

-- The second loop: from the end, a buffer that is not in use.
unfoldable pub find_unused : ℕ → Bcache → ℕ → Outcome (Option ℕ)
find_unused zero c b = out_of_fuel
find_unused (suc fuel) c b =
    let rest = find_unused fuel c (c b).prev in
    if b == head
    then done none
    else if ((c b).refcnt == 0) && not (c b).is_dirty
    then done (some b)
    else rest

-- What `bget` does with the results of the loops.
abbrev pub recycle : Bcache → ℕ → ℕ → Option ℕ → Outcome (ℕ × Bcache)
recycle c dev blockno none = panicked
recycle c dev blockno (some b) = done (
  b,
  update c b (record (c b) {
    dev = dev;
    blockno = blockno;
    is_valid = false;
    is_dirty = false;
    refcnt = 1;
  }),
)

abbrev pub share : Bcache → ℕ → ℕ → Option ℕ → Outcome (ℕ × Bcache)
share c dev blockno (some b) = done (b, update c b (record (c b) { refcnt = (c b).refcnt + 1 }))
share c dev blockno none =
    find_unused (suc nbuf) c (c head).prev >>= λ found. recycle c dev blockno found

-- `bget`
unfoldable pub bget : Bcache → ℕ → ℕ → Outcome (ℕ × Bcache)
bget c dev blockno =
    find_cached (suc nbuf) c dev blockno (c head).next >>= λ found. share c dev blockno found

-- `bread`: the buffer, and whether it is read from the disk.
unfoldable pub bread : Bcache → ℕ → ℕ → Outcome (ℕ × Bool × Bcache)
bread c dev blockno = bget c dev blockno >>= λ (b, c'). done (b, not (c' b).is_valid, c')

-- `brelse` of a buffer that the caller has locked.
unfoldable pub brelse : Bcache → ℕ → Bcache
brelse c b =
    let c0 = update c b (record (c b) { refcnt = (c b).refcnt - 1 }) in
    let c1 = set_prev c0 (c0 b).next (c0 b).prev in
    let c2 = set_next c1 (c1 b).prev (c1 b).next in
    if (c b).refcnt - 1 == 0 then link_first c2 b else c0

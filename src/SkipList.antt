-- ===== src/SkipList.antt =====
-- The skip list of proc.c and defs.h: an array of `NPROC + 1` nodes, linked at up to four levels by
-- array indices. The index -1 ("no node") is `none`. A C pointer to a node is the node's index.
pub mod Chain
pub mod Shape
pub mod Seed
pub mod Search
pub mod Insert
pub mod Delete
pub mod Start
use bf_scheduler.Common.{ℕ, Option, none, some, ◌==◌, ltb, leb, if◌then◌else◌, update}
use bf_scheduler.Common.Int.{ℤ, negsuc}

-- `NPROC`: nodes 1 to 64 hold processes, node 0 is the sentinel.
abbrev pub nproc : ℕ
nproc = 64

-- `MAX_SKIPLIST_LEVEL`
abbrev pub max_skiplist_level : ℕ
max_skiplist_level = 4

-- `CHANCE`, 0.25, in hundredths: `random(100) / 100.0 < 0.25` exactly when `random(100) < 25`.
abbrev pub chance : ℕ
chance = 25

abbrev pub minus_one : ℤ
minus_one = negsuc 0

-- `struct SkipNode`
pub record SkipNode : Type 0 where
  pub valid : ℕ
  pub value : ℤ
  pub pid : ℤ
  pub forward : ℕ → Option ℕ
  pub backward : ℕ → Option ℕ
  pub maxlevel : ℕ

-- `struct SkipList`; the level -1 of a list that is not initialised is `none`. `before` is what stands in
-- memory before `nodeList[0]`, as far as `nodeList[-1]` reads it.
pub record SkipList : Type 0 where
  pub node : ℕ → SkipNode
  pub before : SkipNode
  pub level : Option ℕ

-- `sl.nodeList[link]`, for a link that may be -1.
abbrev pub at_link : SkipList → Option ℕ → SkipNode
at_link sl none = sl.before
at_link sl (some b) = sl.node b

-- `sl.nodeList[a].forward[i] = link`
unfoldable pub set_forward : SkipList → ℕ → ℕ → Option ℕ → SkipList
set_forward sl a i link = record sl {
  node = update sl.node a (record (sl.node a) { forward = update (sl.node a).forward i link });
}

-- `sl.nodeList[a].backward[i] = link`
unfoldable pub set_backward : SkipList → ℕ → ℕ → Option ℕ → SkipList
set_backward sl a i link = record sl {
  node = update sl.node a (record (sl.node a) { backward = update (sl.node a).backward i link });
}

-- The links of a node below `MAX_SKIPLIST_LEVEL` set to -1.
cut_links : (ℕ → Option ℕ) → ℕ → Option ℕ
cut_links links i = if ltb i max_skiplist_level then none else links i

-- What `initSkipList` writes to the node of index `a`.
init_node : ℕ → SkipNode → SkipNode
unfolding cut_links
init_node a nd = record nd {
  valid = if a == 0 then 1 else 0;
  value = minus_one;
  pid = minus_one;
  forward = cut_links nd.forward;
  backward = cut_links nd.backward;
  maxlevel = if a == 0 then max_skiplist_level else nd.maxlevel;
}

-- `initSkipList`
unfoldable pub init_skip_list : SkipList → SkipList
unfolding init_node
init_skip_list sl = record {
  node = λ a. if leb a nproc then init_node a (sl.node a) else sl.node a;
  before = sl.before;
  level = some 0;
}

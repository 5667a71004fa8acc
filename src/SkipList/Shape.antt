-- ===== src/SkipList/Shape.antt =====
-- What it means that the array of nodes is a skip list, and the abstract view of one: the pairs of
-- value and pid in its bottom level.
mod Levels
mod Order
mod Same
pub use Levels.*
pub use Order.*
pub use Same.*
use bf_scheduler.Common.{
  ℕ, ◌≤◌, ◌<◌, ◌≡◌, Option, some, List, map, All, has, Distinct, if◌then◌else◌,
}
use bf_scheduler.Common.Int.{ℤ}
use bf_scheduler.SkipList.{SkipList, nproc, max_skiplist_level}
use bf_scheduler.SkipList.Chain.{Links, Chain}

abbrev pub forwards : SkipList → ℕ → Links
forwards sl i a = (sl.node a).forward i

abbrev pub backwards : SkipList → ℕ → Links
backwards sl i a = (sl.node a).backward i

abbrev pub key : SkipList → ℕ → ℤ
key sl a = (sl.node a).value

abbrev pub tall : SkipList → ℕ → ℕ
tall sl a = (sl.node a).maxlevel

-- The nodes of `xs` in order make a skip list: each level links, behind the sentinel, those of them
-- that reach it; exactly they are valid; and their values ascend.
pub record IsSkipList (sl : SkipList) (xs : List ℕ) : Type 0 where
  pub top : ℕ
  pub level : sl.level ≡ some top
  pub top_lt : top < max_skiplist_level
  pub bounds : All (λ b. (1 ≤ b) × (b ≤ nproc)) xs
  pub distinct : Distinct xs
  pub live : (a : ℕ) → 1 ≤ a → a ≤ nproc → (sl.node a).valid ≡ (if has a xs then 1 else 0)
  pub levels : All (λ b. tall sl b ≤ top) xs
  pub sorted : Sorted (key sl) xs
  pub linked :
      (i : ℕ)
      → i < max_skiplist_level
      → Chain (forwards sl i) (backwards sl i) 0 (at_level (tall sl) i xs)

-- Value and pid of a node.
abbrev pub entry : SkipList → ℕ → ℤ × ℤ
entry sl a = ((sl.node a).value, (sl.node a).pid)

-- The queue that a skip list stands for.
pub record Represents (sl : SkipList) (queue : List (ℤ × ℤ)) : Type 0 where
  pub nodes : List ℕ
  pub shape : IsSkipList sl nodes
  pub entries : map (entry sl) nodes ≡ queue

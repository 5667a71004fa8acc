-- ===== src/Tests/Stores.antt =====
-- The tables of files, pages and inodes, paths and expressions at concrete inputs.
use bf_scheduler.Common.{
  ◌<◌, ◌≤◌, ℕ, ◌+◌, ◌-◌, ◌/◌, ◌^◌, ◌≡◌, ◌↔◌, refl, arith, true, false, none, some, ◌==◌,
  if◌then◌else◌, List, [], ◌∷◌, done,
}
use bf_scheduler.Common.Int.{pos}
use bf_scheduler.Files.{File, FileType, Table, Closing, fileclose}
use bf_scheduler.Files.Table.{IsCounted, Closed, fileclose-Closed}
use bf_scheduler.Pages.{load_word, Kmem, kfree, freerange, page_round_up, page_size}
use bf_scheduler.Pages.FreeList.{IsFree, Freed, kfree-Freed}
use bf_scheduler.Pages.Range.{stack_pages, freerange-IsFree}
use bf_scheduler.Inodes.{Inode, Cache, iget}
use bf_scheduler.Inodes.Sharing.{IsShared, Got, iget-Got}
use bf_scheduler.Paths.{Dirs, enter, skipelem, namex_loop, namex}
use bf_scheduler.Paths.Elements.{elements}
use bf_scheduler.Paths.Lookup.{resolve, start_of, namex-resolve}
use bf_scheduler.Grep.{matchhere, match_from, match_re}
use bf_scheduler.Grep.Meaning.{Found, match_re_iff}
use bf_scheduler.Strings.{Memory}
use bf_scheduler.Arguments.{argptr}
use bf_scheduler.Arguments.Bounds.{IsArgument, argptr_iff}
use bf_scheduler.Buffers.{
  Bcache, link_first, link_buffers, binit, find_cached, find_unused, bget, brelse,
}
use bf_scheduler.Common.{Outcome, ◌>>=◌}

-- File 0 is an inode with two descriptors, the others are free.
abbrev file : File
file = record {
  type = FileType.fd_inode;
  ref = 2;
  readable = true;
  writable = true;
  pipe = 0;
  ip = 7;
  off = 3;
}

abbrev files : Table
files i = if i == 0 then file else record file { ref = 0 }

files-IsCounted : IsCounted files (0 ∷ 0 ∷ [])
files-IsCounted i lt = ground arith

fileclose-Closed_example :
    (did : Closing) × (t' : Table) × (fileclose files 0 ≡ done (did, t'))
    × Closed files (0 ∷ 0 ∷ []) 0 did t'
fileclose-Closed_example =
    fileclose-Closed files (0 ∷ 0 ∷ []) 0 files-IsCounted (omega arith) (ground arith)

-- No free page, then one at 2 MB.
abbrev empty_kmem : Kmem
empty_kmem = record { memory = λ a. 0; use_lock = false; freelist = 0 }

abbrev first_page : ℕ
first_page = 2 ^ 31 + 2 ^ 21

empty_kmem-IsFree : IsFree 2148000000 empty_kmem []
empty_kmem-IsFree = record { chain = refl; once = tt }

abbrev kmem : Kmem
kmem = record empty_kmem { freelist = first_page }

kmem-IsFree : IsFree 2148000000 kmem (first_page ∷ [])
unfolding load_word
kmem-IsFree = record { chain = (refl, refl, refl); once = (refl, tt) }

kfree-Freed_example :
    (k' : Kmem) × (kfree 2148000000 (first_page + 4096) kmem ≡ done k')
    × Freed 2148000000 (first_page + 4096) (first_page ∷ []) kmem k'
kfree-Freed_example =
    kfree-Freed 2148000000 (first_page + 4096) kmem (first_page ∷ []) kmem-IsFree refl refl

freerange-IsFree_example :
    (k' : Kmem) × (freerange 2148000000 2149580801 2149600000 empty_kmem ≡ done k')
    × IsFree 2148000000 k' (
        stack_pages
          ((2149600000 - page_round_up 2149580801) / page_size)
          (page_round_up 2149580801)
          [])
freerange-IsFree_example =
    freerange-IsFree 2148000000 2149580801 2149600000 empty_kmem empty_kmem-IsFree (omega arith)
      (omega arith) (omega arith) (omega arith) (omega arith)

-- Inode 9 of device 1 in use, with one reference and no links.
abbrev inode : Inode
inode = record { dev = 1; inum = 9; ref = 1; valid = true; type = 2; nlink = 0 }

abbrev cache : Cache
cache i = if i == 0 then inode else record inode { ref = 0 }

cache-IsShared : IsShared cache
cache-IsShared i j il jl ne used = ground arith

iget-Got_example : Got cache 1 9 (iget cache 1 9)
iget-Got_example = iget-Got cache 1 9 cache-IsShared

-- The path "/a//b" where the root holds the directory `a`, inode 5, and that holds `b`, inode 6.
abbrev dirs : Dirs
dirs = record {
  is_dir = λ i. if i == 6 then false else true;
  dirlookup = λ i name. if i == 1 then some 5 else if i == 5 then some 6 else none;
}

abbrev path : List ℕ
path = 47 ∷ 97 ∷ 47 ∷ 47 ∷ 98 ∷ []

namex-resolve_example :
    namex dirs false 3 path ≡ done (resolve dirs false (start_of 3 path) [] (elements path))
namex-resolve_example = namex-resolve dirs false 3 path

path_found : namex dirs false 3 path ≡ done (some (6, 98 ∷ []))
unfolding namex namex_loop skipelem enter
path_found = refl

parent_found : namex dirs true 3 path ≡ done (some (5, 98 ∷ []))
unfolding namex namex_loop skipelem enter
parent_found = refl

-- `a*b$` in "xaab".
match_re_iff_example :
    (match_re (97 ∷ 42 ∷ 98 ∷ 36 ∷ []) (120 ∷ 97 ∷ 97 ∷ 98 ∷ []) ≡ true)
    ↔ Found (97 ∷ 42 ∷ 98 ∷ 36 ∷ []) (120 ∷ 97 ∷ 97 ∷ 98 ∷ [])
match_re_iff_example = match_re_iff (97 ∷ 42 ∷ 98 ∷ 36 ∷ []) (120 ∷ 97 ∷ 97 ∷ 98 ∷ [])

matched : match_re (97 ∷ 42 ∷ 98 ∷ 36 ∷ []) (120 ∷ 97 ∷ 97 ∷ 98 ∷ []) ≡ true
unfolding match_re match_from matchhere
matched = refl

-- A process of 4096 bytes whose stack holds the argument 100, and the string "hi" at 100.
abbrev process_memory : Memory
process_memory a = if a == 4004 then 100 else if a == 100 then 104 else if a == 101 then 105 else 0

argptr_iff_example :
    (argptr process_memory 4096 4000 0 (pos 8) ≡ some 100)
    ↔ (IsArgument process_memory 4096 4000 0 100 × (100 < 4096) × (100 + 8 ≤ 4096))
argptr_iff_example = argptr_iff process_memory 4096 4000 0 8 100 (omega arith) (omega arith)

-- A new cache hands out its first buffer, and the same one for the same block again; once that is
-- released, the next block gets the second buffer.
abbrev no_buffers : Bcache
no_buffers i = record {
  is_valid = false;
  is_dirty = false;
  dev = 0;
  blockno = 0;
  refcnt = 0;
  prev = 0;
  next = 0;
}

abbrev get_again : ℕ × Bcache → Outcome (ℕ × Bcache)
get_again (b, c) = bget c 1 5

abbrev release_and_get : ℕ × Bcache → Outcome (ℕ × Bcache)
release_and_get (b, c) = bget (brelse c b) 1 6

abbrev buffer_of : ℕ × Bcache → Outcome (ℕ × ℕ)
buffer_of (b, c) = done (b, (c b).refcnt)

shared_buffer : (bget (binit no_buffers) 1 5 >>= get_again >>= buffer_of) ≡ done (0, 2)
unfolding bget binit link_buffers link_first find_cached find_unused
shared_buffer = refl

released_buffer : (bget (binit no_buffers) 1 5 >>= release_and_get >>= buffer_of) ≡ done (1, 1)
unfolding bget brelse binit link_buffers link_first find_cached find_unused
released_buffer = refl

-- ===== src/Directories/Entry.antt =====
-- An entry as `readi` brings it to memory, and the first entry of a name.
use bf_scheduler.Common.{
  ℕ, zero, suc, ◌+◌, ◌*◌, ◌%◌, ◌≤◌, ◌<◌, ◌≡◌, refl, arith, Bool, true, Option, none, some, not,
  ◌&&◌, ◌||◌, ◌==◌, if◌then◌else◌, ◌⊎◌, inl, inr, ap, ◌∙◌, length, done,
}
use bf_scheduler.Common.Int.{pos, eqb_ℤ}
use bf_scheduler.Strings.{Memory, strncmp}
use bf_scheduler.Strings.Copy.{Apart}
use bf_scheduler.Paths.{dir_size}
use bf_scheduler.Blocks.{Superblock, Disk, block_size}
use bf_scheduler.Contents.{FileInode, max_file, load_short, bytes_at, put_bytes}
use bf_scheduler.Contents.Layout.{contents}
use bf_scheduler.Contents.Bytes.{written_after, put_bytes-written}
use bf_scheduler.Files.Write.{written, written_before}
use bf_scheduler.Directories.{dirent_size, t_dir, DirState, entry_read, read_entry, names_entry}
use bf_scheduler.Contents.Read.{IsWhole}
use bf_scheduler.Directories.Whole.{readi-contents}

-- Two strings of at most `n` bytes, up to a NUL.
unfoldable pub same_name : Memory → ℕ → Memory → ℕ → ℕ → Bool
same_name m p g q zero = true
same_name m p g q (suc n) = (m p == g q) && ((m p == 0) || same_name m (p + 1) g (q + 1) n)

-- Whether the entry at `off` of the directory with the contents `g` is in use for the name.
abbrev pub is_match : Memory → ℕ → Memory → ℕ → Bool
is_match m name g off = not (load_short g off == 0) && same_name m name g (off + 2) dir_size

-- The first such entry, of `n` entries from `off` on.
unfoldable pub first_match : Memory → ℕ → Memory → ℕ → ℕ → Option ℕ
first_match m name g zero off = none
first_match m name g (suc n) off =
    let rest = first_match m name g n (off + dirent_size) in
    if is_match m name g off then some off else rest

pub record IsDirectory (d : Disk) (dp : FileInode) : Type 0 where
  pub whole : IsWhole d dp
  pub type : (dp.type == t_dir) ≡ true
  pub small : dp.size ≤ max_file * block_size
  pub entries : dp.size % dirent_size ≡ 0

pub strncmp-same_name :
    (m : Memory) (p q n : ℕ) → eqb_ℤ (strncmp p q n m) (pos 0) ≡ same_name m p m q n
unfolding strncmp same_name
strncmp-same_name m p q zero = refl
strncmp-same_name m p q (suc n) = ground (arith, strncmp-same_name m (p + 1) (q + 1) n)

pub same_name_cong :
    (m m' g g' : Memory) (p q q' n : ℕ)
    → ((k : ℕ) → k < n → m (p + k) ≡ m' (p + k))
    → ((k : ℕ) → k < n → g (q + k) ≡ g' (q' + k))
    → same_name m p g q n ≡ same_name m' p g' q' n
unfolding same_name
same_name_cong m m' g g' p q q' zero h h' = refl
same_name_cong m m' g g' p q q' (suc n) h h' =
    let e : m p ≡ m' p = ap m (omega arith) ∙ h 0 (omega arith) ∙ ap m' (omega arith) in
    let e' : g q ≡ g' q' = ap g (omega arith) ∙ h' 0 (omega arith) ∙ ap g' (omega arith) in
    ground (
      arith,
      e,
      e',
      same_name_cong m m' g g' (p + 1) (q + 1) (q' + 1) n
          (λ k lt. ap m (omega arith) ∙ h (suc k) (omega arith) ∙ ap m' (omega arith))
          (λ k lt. ap g (omega arith) ∙ h' (suc k) (omega arith) ∙ ap g' (omega arith)),
    )

pub length-bytes_at : (g : Memory) (off n : ℕ) → length (bytes_at g off n) ≡ n
length-bytes_at g off zero = refl
length-bytes_at g off (suc n) = ground (arith, length-bytes_at g (off + 1) n)

pub written-bytes_at :
    (m g : Memory) (a off n k : ℕ) → k < n → written m a (bytes_at g off n) (a + k) ≡ g (off + k)
written-bytes_at m g a off zero k lt = ground arith
written-bytes_at m g a off (suc n) zero lt =
    let e : a + 0 ≡ a = omega arith in
    let e' : off + 0 ≡ off = omega arith in rw (e, e') (ground arith)
written-bytes_at m g a off (suc n) (suc k) lt =
    let e : a + suc k ≡ a + 1 + k = omega arith in
    let e' : off + suc k ≡ off + 1 + k = omega arith in
    rw (e, e') (ground (arith, written-bytes_at m g (a + 1) (off + 1) n k))

-- The memory with the entry at `off` in `de`.
abbrev pub with_dirent : Memory → ℕ → Memory → ℕ → Memory
with_dirent m de g off = put_bytes m de (bytes_at g off dirent_size)

module _ (m g : Memory) (de off : ℕ) where
  with_dirent-inside : (k : ℕ) → k < dirent_size → with_dirent m de g off (de + k) ≡ g (off + k)
  with_dirent-inside k lt =
      put_bytes-written m de (bytes_at g off dirent_size) (de + k)
      ∙ written-bytes_at m g de off dirent_size k lt

  pub with_dirent-outside :
      (a : ℕ) → (a < de) ⊎ (de + dirent_size ≤ a) → with_dirent m de g off a ≡ m a
  with_dirent-outside a out = put_bytes-written m de (bytes_at g off dirent_size) a ∙ elim out [
    | inl below ↦ written_before m de (bytes_at g off dirent_size) a below
    | inr above ↦ written_after m de (bytes_at g off dirent_size) a above
  ]

  pub with_dirent-inum : load_short (with_dirent m de g off) de ≡ load_short g off
  with_dirent-inum =
      let low = with_dirent-inside 0 (omega arith) in
      let high = with_dirent-inside 1 (omega arith) in
      let e : de + 0 ≡ de = omega arith in
      let e' : off + 0 ≡ off = omega arith in ground (arith, rw (e, e') at low, high)

  pub with_dirent-names_entry :
      (name : ℕ)
      → Apart name de dirent_size
      → names_entry name de (with_dirent m de g off) ≡ same_name m name g (off + 2) dir_size
  with_dirent-names_entry name apart =
      strncmp-same_name (with_dirent m de g off) name (de + 2) dir_size
      ∙ same_name_cong (with_dirent m de g off) m (with_dirent m de g off) g name (de + 2) (off + 2)
          dir_size
          (λ k lt.
            with_dirent-outside (name + k)
              (elim apart [ inl before ↦ inl (omega arith) | inr behind ↦ inr (omega arith) ]))
          (λ k lt.
            ap (with_dirent m de g off) (omega arith)
            ∙ with_dirent-inside (2 + k) (omega arith)
            ∙ ap g (omega arith))

-- An entry read.
pub read_entry-with_dirent :
    (sb : Superblock) (has_read : ℕ → Bool) (de off : ℕ) (s : DirState)
    → IsDirectory s.disk s.dir
    → off + dirent_size ≤ s.dir.size
    → read_entry sb has_read de off s
      ≡ done (record s { memory = with_dirent s.memory de (contents s.disk s.dir) off })
unfolding read_entry entry_read
read_entry-with_dirent sb has_read de off s dir within =
    let len : (length (bytes_at (contents s.disk s.dir) off dirent_size) == dirent_size) ≡ true =
      ground (arith, length-bytes_at (contents s.disk s.dir) off dirent_size) in
    rw
      (readi-contents sb has_read s.dir off dirent_size s.disk dir.whole (ground (arith, dir.type))
        dir.small within)
      refl

-- ===== src/Contents/Calls.antt =====
-- How many calls of `log_write` the functions on blocks make.
use bf_scheduler.Common.{
  ℕ, zero, suc, ◌+◌, ◌-◌, ◌*◌, ◌/◌, ◌≤◌, ◌≡◌, refl, arith, true, ◌==◌, ltb, inl, inr, Bool-cases,
  Option-cases, List, [], ◌∷◌, length, Outcome, done, panicked, out_of_bounds, out_of_fuel, ◌>>=◌,
  ◌∙◌, ap, sym,
}
use bf_scheduler.Pages.{load_word}
use bf_scheduler.Files.{drop}
use bf_scheduler.Files.Write.{length-drop}
use bf_scheduler.Blocks.{
  Superblock, Disk, block_size, bits_per_block, bitmap_block, listed, calls_fit, zero_block,
  mark_used, find_bit, balloc_from, balloc,
}
use bf_scheduler.Contents.{
  FileInode, ndirect, nindirect, map_addr, map_entry, bmap, chunk, write_blocks, moved, log_checked,
}
use bf_scheduler.Contents.Read.{touched, chunk_bounds}

-- At most `n` calls of `log_write` between two states of the disk.
pub record Calls (n : ℕ) (d d' : Disk) : Type 0 where
  pub room : d'.room ≡ d.room
  pub few : length d'.logged ≤ length d.logged + n

-- The same if the outcome is a result, with the disk that is part of it.
pub data Within {ℓ} {A : Type ℓ} (disk_of : A → Disk) (n : ℕ) (d : Disk) : Outcome A → Type ℓ where
  ends : (x : A) → Calls n d (disk_of x) → Within disk_of n d (done x)
  panics : Within disk_of n d panicked
  strays : Within disk_of n d out_of_bounds
  starves : Within disk_of n d out_of_fuel

Within-later {ℓ} :
    {B : Type ℓ} {of : B → Disk} (m n : ℕ) {d d' : Disk} (r : Outcome B)
    → Calls m d d'
    → Within of n d' r
    → Within of (m + n) d r
Within-later m n (done x) c (ends y c') =
    ends x (record { room = c'.room ∙ c.room; few = omega (arith, c.few, c'.few) })
Within-later m n panicked c w = panics
Within-later m n out_of_bounds c w = strays
Within-later m n out_of_fuel c w = starves

module _ {ℓ} {A B : Type ℓ} {of : A → Disk} {of' : B → Disk} (m n : ℕ) where
  Within-bind :
      {d : Disk} (r : Outcome A) (f : A → Outcome B)
      → Within of m d r
      → ((x : A) → Within of' n (of x) (f x))
      → Within of' (m + n) d (r >>= f)
  Within-bind (done x) f (ends y c) h = Within-later m n (f x) c (h x)
  Within-bind panicked f w h = panics
  Within-bind out_of_bounds f w h = strays
  Within-bind out_of_fuel f w h = starves

abbrev in_pair : ℕ × Disk → Disk
in_pair r = r.1

abbrev pub in_triple : ℕ × FileInode × Disk → Disk
in_triple r = r.2

pub Calls-refl : (n : ℕ) (d : Disk) → Calls n d d
Calls-refl n d = record { room = refl; few = omega arith }

balloc_from-Within :
    (sb : Superblock) (fuel b : ℕ) (d : Disk) → Within in_pair 2 d (balloc_from sb fuel b d)
unfolding balloc_from mark_used zero_block
balloc_from-Within sb zero b d = starves
balloc_from-Within sb (suc fuel) b d = elim (Bool-cases (ltb b sb.size)) [
  | inr past ↦ rw (balloc_from, past) panics
  | inl inside ↦
      elim (Option-cases (find_bit sb.size (d.data_of (bitmap_block sb b)) b bits_per_block 0)) [
        | inl all ↦
            rw (balloc_from, inside, all) (balloc_from-Within sb fuel (b + bits_per_block) d)
        | inr (bi, e) ↦
            rw (balloc_from, inside, e) (ends _ (record { room = refl; few = omega arith }))
      ]
]

map_addr-Within :
    (sb : Superblock) (ip : FileInode) (i : ℕ) (d : Disk)
    → Within in_triple 2 d (map_addr sb ip i d)
unfolding map_addr balloc
map_addr-Within sb ip i d = elim (Bool-cases (ip.addrs i == 0)) [
  | inl missing ↦
      rw (map_addr, missing)
        (Within-bind 2 0 (balloc sb d) _ (balloc_from-Within sb (suc sb.size) 0 d)
          (λ (b, d'). ends _ (Calls-refl 0 d')))
  | inr there ↦ rw (map_addr, there) (ends _ (Calls-refl 2 d))
]

map_entry-Within :
    (sb : Superblock) (ip : FileInode) (ind j : ℕ) (d : Disk)
    → Within in_triple 3 d (map_entry sb ip ind j d)
unfolding map_entry balloc
map_entry-Within sb ip ind j d = elim (Bool-cases (load_word (d.data_of ind) (4 * j) == 0)) [
  | inl missing ↦
      rw (map_entry, missing)
        (Within-bind 2 1 (balloc sb d) _ (balloc_from-Within sb (suc sb.size) 0 d)
          (λ (b, d'). ends _ (record { room = refl; few = omega arith })))
  | inr there ↦ rw (map_entry, there) (ends _ (Calls-refl 3 d))
]

bmap-Within :
    (sb : Superblock) (ip : FileInode) (bn : ℕ) (d : Disk) → Within in_triple 5 d (bmap sb ip bn d)
unfolding bmap
bmap-Within sb ip bn d = elim (Bool-cases (ltb bn ndirect)) [
  | inl near ↦
      rw (bmap, near)
        (Within-later 3 2 (map_addr sb ip bn d) (Calls-refl 3 d) (map_addr-Within sb ip bn d))
  | inr far ↦ elim (Bool-cases (ltb (bn - ndirect) nindirect)) [
    | inl within ↦
        rw (bmap, far, within)
          (Within-bind 2 3 (map_addr sb ip ndirect d) _ (map_addr-Within sb ip ndirect d)
            (λ (ind, ip', d'). map_entry-Within sb ip' ind (bn - ndirect) d'))
    | inr beyond ↦ rw (bmap, far, beyond) panics
  ]
]

Within-count {ℓ} :
    {A : Type ℓ} {of : A → Disk} {m n : ℕ} {d : Disk} {r : Outcome A}
    → m ≡ n
    → Within of m d r
    → Within of n d r
Within-count e w = rw (sym e) w

pub Calls-trans : {m n : ℕ} {d d' d'' : Disk} → Calls m d d' → Calls n d' d'' → Calls (m + n) d d''
Calls-trans c c' = record { room = c'.room ∙ c.room; few = omega (arith, c.few, c'.few) }

-- Six calls for a block: five of `bmap`, and the one for the bytes.
pub write_blocks-Within :
    (sb : Superblock) (fuel : ℕ) (ip : FileInode) (off : ℕ) (src : List ℕ) (d : Disk)
    → Within in_triple (6 * touched off (length src)) d (write_blocks sb fuel ip off src d)
unfolding write_blocks
write_blocks-Within sb zero ip off [] d = ends _ (Calls-refl _ d)
write_blocks-Within sb (suc fuel) ip off [] d = ends _ (Calls-refl _ d)
write_blocks-Within sb zero ip off (x ∷ src) d = starves
write_blocks-Within sb (suc fuel) ip off (x ∷ src) d =
    let m : ℕ = chunk off (length (x ∷ src)) in
    let rest : List ℕ = drop m (x ∷ src) in
    let (positive, le, inside, one) = chunk_bounds off (length (x ∷ src)) (omega arith) in
    let len : length rest ≡ length (x ∷ src) - m = length-drop m (x ∷ src) in
    let all : 5 + (1 + 6 * touched (off + m) (length rest)) ≡ 6 * touched off (length (x ∷ src)) =
      ap (λ (k : ℕ). 5 + (1 + 6 * touched (off + m) k)) len ∙ omega (arith, one) in
    Within-count all (
      Within-bind 5 (1 + 6 * touched (off + m) (length rest)) (bmap sb ip (off / block_size) d) _
        (bmap-Within sb ip (off / block_size) d)
        (λ (a, ip', d').
          Within-later 1 (6 * touched (off + m) (length rest)) _
            (record { room = refl; few = omega arith })
            (write_blocks-Within sb fuel ip' (off + m) rest _)))

listed_le : (bs : List ℕ) → listed bs ≤ length bs
unfolding listed
listed_le [] = omega arith
listed_le (b ∷ bs) = ground (arith, listed_le bs)

calls_fit-room : (k room : ℕ) (bs : List ℕ) → length bs ≤ room → calls_fit k room bs ≡ true
unfolding calls_fit
calls_fit-room zero room bs le = refl
calls_fit-room (suc k) room [] le = refl
calls_fit-room (suc k) room (b ∷ bs) le =
    ground (arith, listed_le bs, calls_fit-room k room bs (omega arith))

-- Calls that all find room do not panic.
pub log_checked-room {ℓ} :
    {A : Type ℓ} {n : ℕ} {d : Disk} (x : A) (ip : FileInode) (d' : Disk)
    → Calls n d d'
    → length d.logged + n ≤ d.room
    → log_checked d (moved x ip d') ≡ done (moved x ip d')
unfolding log_checked
log_checked-room {n} {d} x ip d' c le =
    let fit =
      calls_fit-room (length d'.logged - length d.logged) d'.room d'.logged
        (omega (arith, c.few, c.room)) in
    rw fit refl

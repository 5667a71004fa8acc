-- ===== src/Contents.antt =====
-- fs.c: the blocks of an inode and its contents. `FileInode` holds the fields of `struct inode` that
-- are copied from the disk; a `short` is its bit pattern.
pub mod Dinode
pub mod Layout
pub mod Put
pub mod Grow
pub mod Map
pub mod Locate
pub mod Read
pub mod Bytes
pub mod Round
pub mod Calls
pub mod Write
pub mod Transact
pub mod Pieces
pub mod Free
pub mod Members
pub mod Truncate
use bf_scheduler.Common.{
  ℕ, zero, suc, ◌+◌, ◌-◌, ◌*◌, ◌/◌, ◌%◌, ◌^◌, Bool, true, false, Option, none, some, not, ◌&&◌,
  ◌||◌, ◌==◌, ltb, leb, if◌then◌else◌, update, List, [], ◌∷◌, ◌++◌, length, Outcome, done, panicked,
  out_of_fuel, ◌>>=◌,
}
use bf_scheduler.Strings.{Memory, store_word}
use bf_scheduler.Pages.{load_word}
use bf_scheduler.Files.{take, drop}
use bf_scheduler.Blocks.{Superblock, Disk, block_size, put_block, log_fits, balloc, bfree}

-- `NDIRECT` and `NINDIRECT`
abbrev pub ndirect : ℕ
ndirect = 12

abbrev pub nindirect : ℕ
nindirect = block_size / 4

-- `MAXFILE`
abbrev pub max_file : ℕ
max_file = ndirect + nindirect

pub record FileInode : Type 0 where
  pub inum : ℕ
  pub type : ℕ
  pub major : ℕ
  pub minor : ℕ
  pub nlink : ℕ
  pub size : ℕ
  pub addrs : ℕ → ℕ

-- `IPB` and `IBLOCK`, and where the inode stands in its block.
abbrev pub inodes_per_block : ℕ
inodes_per_block = block_size / 64

abbrev pub inode_block : Superblock → ℕ → ℕ
inode_block sb inum = inum / inodes_per_block + sb.inodestart

abbrev pub inode_offset : ℕ → ℕ
inode_offset inum = inum % inodes_per_block * 64

abbrev pub load_short : Memory → ℕ → ℕ
load_short m a = m a + 2 ^ 8 * m (a + 1)

abbrev pub store_short : Memory → ℕ → ℕ → Memory
store_short m a w = update (update m a (w % 256)) (a + 1) (w / 2 ^ 8 % 256)

-- `memmove(dip->addrs, ip->addrs, sizeof(ip->addrs))`, for the first `n` addresses.
unfoldable pub store_addrs : ℕ → (ℕ → ℕ) → Memory → ℕ → Memory
store_addrs zero addrs m a = m
store_addrs (suc n) addrs m a = store_word (store_addrs n addrs m a) (a + 4 * n) (addrs n)

-- `struct dinode` at the address `a`, written and read.
unfoldable pub store_dinode : FileInode → Memory → ℕ → Memory
store_dinode ip m a =
    store_addrs (suc ndirect) ip.addrs
      (store_word
        (store_short
          (store_short (store_short (store_short m a ip.type) (a + 2) ip.major) (a + 4) ip.minor)
          (a + 6) ip.nlink)
        (a + 8) ip.size)
      (a + 12)

unfoldable pub load_dinode : ℕ → Memory → ℕ → FileInode
load_dinode inum m a = record {
  inum = inum;
  type = load_short m a;
  major = load_short m (a + 2);
  minor = load_short m (a + 4);
  nlink = load_short m (a + 6);
  size = load_word m (a + 8);
  addrs = λ i. load_word m (a + 12 + 4 * i);
}

-- `iupdate`
unfoldable pub iupdate : Superblock → FileInode → Disk → Disk
iupdate sb ip d =
    put_block d (inode_block sb ip.inum)
      (store_dinode ip (d.data_of (inode_block sb ip.inum)) (inode_offset ip.inum))

-- What `ilock` reads, with its panic on a free inode.
unfoldable pub read_inode : Superblock → ℕ → Disk → Outcome FileInode
read_inode sb inum d =
    let ip = load_dinode inum (d.data_of (inode_block sb inum)) (inode_offset inum) in
    if ip.type == 0 then panicked else done ip

abbrev pub set_addr : FileInode → ℕ → ℕ → FileInode
set_addr ip i b = record ip { addrs = update ip.addrs i b }

-- The branches of `bmap`: a direct block, the indirect block, and an entry of the indirect block `ind`.
unfoldable pub map_addr : Superblock → FileInode → ℕ → Disk → Outcome (ℕ × FileInode × Disk)
map_addr sb ip i d =
    if ip.addrs i == 0
    then (balloc sb d >>= λ (b, d'). done (b, set_addr ip i b, d'))
    else done (ip.addrs i, ip, d)

unfoldable pub map_entry : Superblock → FileInode → ℕ → ℕ → Disk → Outcome (ℕ × FileInode × Disk)
map_entry sb ip ind j d =
    if load_word (d.data_of ind) (4 * j) == 0
    then (balloc sb d >>= λ (b, d').
        done (b, ip, put_block d' ind (store_word (d'.data_of ind) (4 * j) b)))
    else done (load_word (d.data_of ind) (4 * j), ip, d)

-- `bmap`
unfoldable pub bmap : Superblock → FileInode → ℕ → Disk → Outcome (ℕ × FileInode × Disk)
bmap sb ip bn d =
    if ltb bn ndirect
    then map_addr sb ip bn d
    else if ltb (bn - ndirect) nindirect
    then (map_addr sb ip ndirect d >>= λ (ind, ip', d'). map_entry sb ip' ind (bn - ndirect) d')
    else panicked

-- `m` bytes of a block from `o` on, and bytes written there.
abbrev pub bytes_at : Memory → ℕ → ℕ → List ℕ
bytes_at m o zero = []
bytes_at m o (suc n) = m o ∷ bytes_at m (o + 1) n

abbrev pub put_bytes : Memory → ℕ → List ℕ → Memory
put_bytes m o [] = m
put_bytes m o (x ∷ xs) = put_bytes (update m o x) (o + 1) xs

-- `min(n - tot, BSIZE - off%BSIZE)`, for `n - tot` bytes left.
unfoldable pub chunk : ℕ → ℕ → ℕ
chunk off left =
    if ltb left (block_size - off % block_size) then left else block_size - off % block_size

-- The loop of `readi`.
unfoldable pub read_blocks :
    Superblock → ℕ → FileInode → ℕ → ℕ → Disk → Outcome (List ℕ × FileInode × Disk)
read_blocks sb zero ip off left d = if left == 0 then done ([], ip, d) else out_of_fuel
read_blocks sb (suc fuel) ip off left d =
    let m = chunk off left in
    let more = bmap sb ip (off / block_size) d >>= λ (a, ip', d').
    read_blocks sb fuel ip' (off + m) (left - m) d' >>= λ (bs, ip'', d'').
    done (bytes_at (d'.data_of a) (off % block_size) m ++ bs, ip'', d'') in
    if left == 0 then done ([], ip, d) else more

-- `T_DEV` and `NDEV`
abbrev pub t_dev : ℕ
t_dev = 3

abbrev pub ndev : ℕ
ndev = 10

-- What `readi` and `writei` come to: -1, a call of the device's function, or bytes moved.
pub data Moved {ℓ} (A : Type ℓ) : Type ℓ where
  failed : Moved A
  to_device : ℕ → Moved A
  moved : A → FileInode → Disk → Moved A

-- `ip->major < 0 || ip->major >= NDEV || !devsw[ip->major].read`, and likewise for `write`.
abbrev pub device {ℓ} : {A : Type ℓ} → (ℕ → Bool) → FileInode → Moved A
device has_function ip =
    if leb ndev ip.major || not (has_function ip.major) then failed else to_device ip.major

-- The end of `readi` and `writei`: a call of `log_write` in between may have panicked.
unfoldable pub log_checked {ℓ} : {A : Type ℓ} → Disk → Moved A → Outcome (Moved A)
log_checked d failed = done failed
log_checked d (to_device major) = done (to_device major)
log_checked d (moved x ip d') = if log_fits d d' then done (moved x ip d') else panicked

-- `readi`
unfoldable pub readi : Superblock → (ℕ → Bool) → FileInode → ℕ → ℕ → Disk → Outcome (Moved (List ℕ))
readi sb has_read ip off n d =
    let n' = if ltb ip.size ((off + n) % 2 ^ 32) then ip.size - off else n in
    if ip.type == t_dev
    then done (device has_read ip)
    else if ltb ip.size off || ltb ((off + n) % 2 ^ 32) off
    then done failed
    else (read_blocks sb n' ip off n' d >>= λ (bs, ip', d'). log_checked d (moved bs ip' d'))

-- The loop of `writei`: the offset behind the bytes, too.
unfoldable pub write_blocks :
    Superblock → ℕ → FileInode → ℕ → List ℕ → Disk → Outcome (ℕ × FileInode × Disk)
write_blocks sb fuel ip off [] d = done (off, ip, d)
write_blocks sb zero ip off (x ∷ src) d = out_of_fuel
write_blocks sb (suc fuel) ip off (x ∷ src) d =
    let m = chunk off (length (x ∷ src)) in
    bmap sb ip (off / block_size) d >>= λ (a, ip', d').
    write_blocks sb fuel ip' (off + m) (drop m (x ∷ src))
      (put_block d' a (put_bytes (d'.data_of a) (off % block_size) (take m (x ∷ src))))

-- The end of `writei`.
abbrev pub grow_size : Superblock → ℕ → FileInode → ℕ → Disk → Moved ℕ
grow_size sb n ip off d =
    let ip' = record ip { size = off } in
    if ltb 0 n && ltb ip.size off then moved n ip' (iupdate sb ip' d) else moved n ip d

-- `writei`
unfoldable pub writei : Superblock → (ℕ → Bool) → FileInode → ℕ → List ℕ → Disk → Outcome (Moved ℕ)
writei sb has_write ip off src d =
    let n = length src in
    if ip.type == t_dev
    then done (device has_write ip)
    else if ltb ip.size off || ltb ((off + n) % 2 ^ 32) off
    then done failed
    else if ltb (max_file * block_size) ((off + n) % 2 ^ 32)
    then done failed
    else (write_blocks sb n ip off src d >>= λ (off', ip', d').
        log_checked d (grow_size sb n ip' off' d'))

-- The loops of `itrunc`, for `n` addresses from `i` on: those in the inode and those in the block `ind`.
unfoldable pub free_direct : Superblock → ℕ → ℕ → FileInode → Disk → Outcome (FileInode × Disk)
free_direct sb zero i ip d = done (ip, d)
free_direct sb (suc n) i ip d =
    (if ip.addrs i == 0
      then done (ip, d)
      else (bfree sb (ip.addrs i) d >>= λ d'. done (set_addr ip i 0, d')))
    >>= λ (ip', d'). free_direct sb n (suc i) ip' d'

unfoldable pub free_entries : Superblock → ℕ → ℕ → ℕ → Disk → Outcome Disk
free_entries sb ind zero j d = done d
free_entries sb ind (suc n) j d =
    let b = load_word (d.data_of ind) (4 * j) in
    (if b == 0 then done d else bfree sb b d) >>= λ d'. free_entries sb ind n (suc j) d'

unfoldable pub free_indirect : Superblock → FileInode → Disk → Outcome (FileInode × Disk)
free_indirect sb ip d =
    if ip.addrs ndirect == 0
    then done (ip, d)
    else (free_entries sb (ip.addrs ndirect) nindirect 0 d >>= λ d'.
        bfree sb (ip.addrs ndirect) d' >>= λ d''. done (set_addr ip ndirect 0, d''))

-- `itrunc`
unfoldable pub itrunc : Superblock → FileInode → Disk → Outcome (FileInode × Disk)
itrunc sb ip d = free_direct sb ndirect 0 ip d >>= λ (ip', d').
    free_indirect sb ip' d' >>= λ (ip'', d'').
    let empty = record ip'' { size = 0 } in done (empty, iupdate sb empty d'')

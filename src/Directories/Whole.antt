-- ===== src/Directories/Whole.antt =====
-- `readi` within a file without missing blocks returns its bytes and changes nothing.
use bf_scheduler.Common.{ℕ, ◌+◌, ◌*◌, ◌≤◌, ◌≡◌, arith, Bool, false, ◌==◌, ap, ◌∙◌, done}
use bf_scheduler.Blocks.{Superblock, Disk, block_size}
use bf_scheduler.Contents.{FileInode, max_file, bytes_at, t_dev, moved, readi}
use bf_scheduler.Contents.Layout.{contents}
use bf_scheduler.Contents.Read.{IsWhole, in_file, readi_lem}

pub readi-contents :
    (sb : Superblock) (has_read : ℕ → Bool) (ip : FileInode) (off n : ℕ) (d : Disk)
    → IsWhole d ip
    → (ip.type == t_dev) ≡ false
    → ip.size ≤ max_file * block_size
    → off + n ≤ ip.size
    → readi sb has_read ip off n d ≡ done (moved (bytes_at (contents d ip) off n) ip d)
readi-contents sb has_read ip off n d whole file small within =
    let all : in_file ip off n ≡ n = ground arith in
    (readi_lem sb has_read ip off n d whole file small (omega arith)).1 (omega arith)
    ∙ ap (λ (k : ℕ). done (moved (bytes_at (contents d ip) off k) ip d)) all

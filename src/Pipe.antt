-- ===== src/Pipe.antt =====
-- pipe.c: a ring of 512 bytes with free-running 32-bit counters. A call of `pipewrite` or `piperead`
-- runs, under the pipe's lock, up to its return or to a `sleep`; what other processes do to the pipe
-- meanwhile is the pipe that the next run starts with.
pub mod Ring
pub mod Effect
use bf_scheduler.Common.{
  ℕ, zero, suc, ◌+◌, ◌%◌, ◌^◌, Bool, true, false, not, Option, none, some, ◌&&◌, ◌||◌, ◌==◌,
  if◌then◌else◌, update, List, [], ◌∷◌,
}
use bf_scheduler.Common.Int.{ℤ, pos}
use bf_scheduler.SkipList.{minus_one}

-- `PIPESIZE`
abbrev pub pipe_size : ℕ
pipe_size = 512

-- `struct pipe`, less its lock.
pub record Pipe : Type 0 where
  pub data_at : ℕ → ℕ
  pub nread : ℕ
  pub nwrite : ℕ
  pub readopen : Bool
  pub writeopen : Bool

-- The channels `&p->nread` and `&p->nwrite`.
pub data Side : Type 0 where
  readers writers : Side

-- `p->data[p->nwrite++ % PIPESIZE] = b`
unfoldable pub put_byte : Pipe → ℕ → Pipe
put_byte p b = record p {
  data_at = update p.data_at (p.nwrite % pipe_size) b;
  nwrite = (p.nwrite + 1) % 2 ^ 32;
}

-- `p->nread++`
unfoldable pub skip_byte : Pipe → Pipe
skip_byte p = record p { nread = (p.nread + 1) % 2 ^ 32 }

-- Where a run of `pipewrite` stops: its result, or none if it sleeps; the pipe; the bytes that are
-- left to write; and the channels woken on the way.
pub record WriteRun : Type 0 where
  pub result : Option ℤ
  pub pipe : Pipe
  pub rest : List ℕ
  pub woken : List Side

-- The loop of `pipewrite` over the bytes that are left, `n` in all.
unfoldable pub write_from : Pipe → Bool → ℕ → List ℕ → WriteRun
write_from p killed n [] = record {
  result = some (pos n);
  pipe = p;
  rest = [];
  woken = readers ∷ [];
}
write_from p killed n (b ∷ bs) =
    let next = write_from (put_byte p b) killed n bs in
    if p.nwrite == (p.nread + pipe_size) % 2 ^ 32
    then (if not p.readopen || killed
        then record { result = some minus_one; pipe = p; rest = b ∷ bs; woken = [] }
        else record { result = none; pipe = p; rest = b ∷ bs; woken = readers ∷ [] })
    else next

-- The copying loop of `piperead`: the bytes read and the pipe.
unfoldable pub read_from : Pipe → ℕ → List ℕ × Pipe
read_from p zero = ([], p)
read_from p (suc n) =
    let (bs, p') = read_from (skip_byte p) n in
    if p.nread == p.nwrite then ([], p) else (p.data_at (p.nread % pipe_size) ∷ bs, p')

-- Where a run of `piperead` stops.
pub data ReadRun : Type 0 where
  failed : ReadRun
  sleeps : ReadRun
  returned : List ℕ → Pipe → List Side → ReadRun

-- `piperead`
unfoldable pub pipe_read : Pipe → Bool → ℕ → ReadRun
pipe_read p killed n =
    if p.nread == p.nwrite && p.writeopen
    then (if killed then failed else sleeps)
    else (let (bs, p') = read_from p n in returned bs p' (writers ∷ []))

-- `pipeclose`: the pipe, the channel woken, and whether the page of the pipe is freed.
unfoldable pub pipe_close : Pipe → Bool → Pipe × Side × Bool
pipe_close p true = (record p { writeopen = false }, readers, not p.readopen)
pipe_close p false = (record p { readopen = false }, writers, not p.writeopen)

-- ===== src/Pipe/Effect.antt =====
-- A pipe is a queue of bytes: what the runs of `pipewrite` and `piperead` do to its contents.
use bf_scheduler.Common.{
  ℕ, zero, suc, ◌<◌, ◌≡◌, ◌≢◌, ◌%◌, refl, Bool, true, false, not, none, some, ◌&&◌, ◌||◌, arith,
  ◌==◌, ==→eq, if◌then◌else◌, List, [], ◌∷◌, ◌++◌, length, ap, ◌∙◌, sym, ◌⊎◌, inl, inr, Bool-cases,
}
use mathlib.Core.List.{append_assoc, append-nil}
use bf_scheduler.Common.Int.{pos}
use bf_scheduler.SkipList.{minus_one}
use bf_scheduler.Pipe.{
  Pipe, pipe_size, put_byte, skip_byte, writers, WriteRun, write_from, read_from, ReadRun, failed,
  sleeps, returned, pipe_read,
}
use bf_scheduler.Pipe.Ring.{
  filled, contents, IsPipe, full_iff, empty_iff, put_byte-IsPipe, put_byte-contents,
  skip_byte-IsPipe, length-window, skip_byte-contents,
}

-- A run of `pipewrite` that began with the pipe `p` and the bytes `bs`.
pub record Wrote (p : Pipe) (killed : Bool) (n : ℕ) (bs : List ℕ) (r : WriteRun) : Type 0 where
  pub sent : List ℕ
  pub is_pipe : IsPipe r.pipe
  pub split : bs ≡ sent ++ r.rest
  pub queued : contents r.pipe ≡ contents p ++ sent
  pub outcome :
      ((r.rest ≡ []) × (r.result ≡ some (pos n)))
      ⊎ ((0 < length r.rest)
          × (filled r.pipe ≡ pipe_size)
          × (r.result ≡ (if not p.readopen || killed then some minus_one else none)))

-- From a valid pipe, a run of `pipewrite` sends a front part of the bytes to the end of the queue, in
-- order, and leaves a valid pipe. It returns the count once all are sent; otherwise, with bytes left, it stops at a
-- full pipe, where it fails if the read end is closed or the process was killed, and sleeps if not.
pub write_from-Wrote :
    (p : Pipe) (killed : Bool) (n : ℕ) (bs : List ℕ)
    → IsPipe p
    → Wrote p killed n bs (write_from p killed n bs)
unfolding write_from put_byte
write_from-Wrote p killed n [] v = record {
  sent = [];
  is_pipe = v;
  split = refl;
  queued = sym (append-nil (contents p));
  outcome = inl (refl, refl);
}
write_from-Wrote p killed n (b ∷ bs) v = elim (Bool-cases (filled p == pipe_size)) [
  | inl full ↦ rw (full_iff p v ∙ full) (elim (Bool-cases (not p.readopen || killed)) [
    | inl stop ↦ rw stop (record {
      sent = [];
      is_pipe = v;
      split = refl;
      queued = sym (append-nil (contents p));
      outcome = inr (omega arith, ==→eq _ _ full, rw stop refl);
    })
    | inr wait ↦ rw wait (record {
      sent = [];
      is_pipe = v;
      split = refl;
      queued = sym (append-nil (contents p));
      outcome = inr (omega arith, ==→eq _ _ full, rw wait refl);
    })
  ])
  | inr more ↦
      let room : filled p < pipe_size = ground (arith, v.fits) in
      let w = write_from-Wrote (put_byte p b) killed n bs (put_byte-IsPipe p v b room) in
      rw (full_iff p v ∙ more) (record {
        sent = b ∷ w.sent;
        is_pipe = w.is_pipe;
        split = ap (◌∷◌ b) w.split;
        queued =
            w.queued
            ∙ ap (λ c. c ++ w.sent) (put_byte-contents p v b room)
            ∙ append_assoc (contents p) (b ∷ []) w.sent;
        outcome = w.outcome;
      })
]

-- A run of `piperead` of at most `n` bytes from the pipe `p`.
pub data Read (p : Pipe) (killed : Bool) (n : ℕ) (r : ReadRun) : Type 0 where
  empty_killed :
      contents p ≡ [] → p.writeopen ≡ true → killed ≡ true → r ≡ failed → Read p killed n r
  empty_open :
      contents p ≡ [] → p.writeopen ≡ true → killed ≡ false → r ≡ sleeps → Read p killed n r
  read :
      (bs : List ℕ) (p' : Pipe)
      → r ≡ returned bs p' (writers ∷ [])
      → ((contents p ≡ []) → p.writeopen ≡ false)
      → contents p ≡ bs ++ contents p'
      → (length bs ≡ n) ⊎ ((length bs < n) × (contents p' ≡ []))
      → IsPipe p'
      → Read p killed n r

contents_empty : (p : Pipe) → IsPipe p → (p.nread == p.nwrite) ≡ true → contents p ≡ []
contents_empty p v e = let z : filled p ≡ 0 = ==→eq _ _ (sym (empty_iff p v) ∙ e) in rw z refl

contents_some : (p : Pipe) → IsPipe p → (p.nread == p.nwrite) ≡ false → contents p ≢ []
contents_some p v e z =
    let n : filled p ≡ length (contents p) = sym (length-window p.data_at p.nread (filled p)) in
    absurd (ground (arith, empty_iff p v, ap (length {A = ℕ}) z))

-- The copying loop takes the bytes from the front of the queue.
read_from-contents :
    (p : Pipe) (n : ℕ)
    → IsPipe p
    → (contents p ≡ (read_from p n).0 ++ contents (read_from p n).1)
      × ((length (read_from p n).0 ≡ n)
          ⊎ ((length (read_from p n).0 < n) × (contents (read_from p n).1 ≡ [])))
      × IsPipe (read_from p n).1
unfolding read_from
read_from-contents p zero v = (refl, inl refl, v)
read_from-contents p (suc n) v = elim (Bool-cases (p.nread == p.nwrite)) [
  | inl e ↦ rw e (refl, inr (omega arith, contents_empty p v e), v)
  | inr e ↦
      let left : 0 < filled p = ground (arith, empty_iff p v) in
      let (split, count, valid) = read_from-contents (skip_byte p) n (skip_byte-IsPipe p v left) in
      rw e (
        skip_byte-contents p v left ∙ ap (◌∷◌ (p.data_at (p.nread % pipe_size))) split,
        ground (arith, count),
        valid,
      )
]

-- From a valid pipe `piperead` fails or sleeps only if the queue is empty and the write end is open,
-- and fails exactly if then the process was killed. Otherwise it takes bytes from the front of the
-- queue, in order, `n` of them or all that there are, and leaves a valid pipe.
pub pipe_read-Read :
    (p : Pipe) (killed : Bool) (n : ℕ) → IsPipe p → Read p killed n (pipe_read p killed n)
unfolding pipe_read
pipe_read-Read p killed n v = elim (Bool-cases (p.nread == p.nwrite && p.writeopen)) [
  | inl wait ↦ elim (Bool-cases killed) [
    | inl dead ↦
        rw (wait, dead) (empty_killed (contents_empty p v (ground arith)) (ground arith) refl refl)
    | inr alive ↦
        rw (wait, alive) (empty_open (contents_empty p v (ground arith)) (ground arith) refl refl)
  ]
  | inr go ↦
      let (split, count, valid) = read_from-contents p n v in
      rw go (
        read (read_from p n).0 (read_from p n).1 refl
          (λ e. elim (Bool-cases (p.nread == p.nwrite)) [
            | inl z ↦ ground arith
            | inr z ↦ absurd (contents_some p v z e)
          ])
          split count valid)
]

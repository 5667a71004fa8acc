-- ===== src/Tests/Bytes.antt =====
-- Pipes and strings at concrete bytes.
use bf_scheduler.Common.{◌%◌, true, false, [], ◌∷◌, arith, ◌==◌, if◌then◌else◌}
use bf_scheduler.Pipe.{Pipe, write_from, pipe_read}
use bf_scheduler.Pipe.Ring.{IsPipe}
use bf_scheduler.Pipe.Effect.{Wrote, write_from-Wrote, Read, pipe_read-Read}
use bf_scheduler.Strings.{Memory}

-- Two bytes around the wrap of the counters.
abbrev pipe : Pipe
pipe = record {
  data_at = λ i. i % 256;
  nread = 4294967295;
  nwrite = 1;
  readopen = true;
  writeopen = true;
}

pipe-IsPipe : IsPipe pipe
pipe-IsPipe = record { read_word = omega arith; write_word = omega arith; fits = omega arith }

write_from-Wrote_example : Wrote pipe false 2 (7 ∷ 8 ∷ []) (write_from pipe false 2 (7 ∷ 8 ∷ []))
write_from-Wrote_example = write_from-Wrote pipe false 2 (7 ∷ 8 ∷ []) pipe-IsPipe

pipe_read-Read_example : Read pipe false 5 (pipe_read pipe false 5)
pipe_read-Read_example = pipe_read-Read pipe false 5 pipe-IsPipe

-- "ab" at 100.
abbrev memory : Memory
memory a = if a == 100 then 97 else if a == 101 then 98 else 0

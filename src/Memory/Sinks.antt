-- ===== src/Memory/Sinks.antt =====
-- A snapshot sink in memory, which takes writes up to a capacity.
use honeybadger.Base.{
  ℕ, Bytes, ◌++◌, ltb, length, ◌≡◌, refl, Option, some, [], arith, if◌then◌else◌,
}
use honeybadger.Errors.{Result, err, done, foreign, other}
use honeybadger.Persist.{Sink, SinkLaws}

pub record Slot : Type 0 where
  pub buffer : Bytes
  pub kept : Option Bytes
  pub capacity : ℕ

unfoldable pub write_slot : Bytes → Slot → Result (Unit {0}) × Slot
write_slot chunk s =
    if ltb s.capacity (length (s.buffer ++ chunk))
    then (err (foreign (other 11)), s)
    else (done, record s { buffer = s.buffer ++ chunk })

abbrev pub sink : Sink
sink = record {
  State = Slot;
  write = write_slot;
  close = λ s. (done, record s { kept = some s.buffer });
  cancel = λ s. (done, record s { buffer = [] });
}

pub buffer-write_slot :
    (chunk : Bytes) (s : Slot)
    → (write_slot chunk s).0 ≡ done
    → (write_slot chunk s).1.buffer ≡ s.buffer ++ chunk
unfolding write_slot
buffer-write_slot chunk s h = ground arith

pub kept-write_slot : (chunk : Bytes) (s : Slot) → (write_slot chunk s).1.kept ≡ s.kept
unfolding write_slot
kept-write_slot chunk s = ground arith

abbrev pub sink_laws : SinkLaws sink
sink_laws = record {
  written = λ s. s.buffer;
  published = λ s. s.kept;
  written-write = buffer-write_slot;
  published-write = kept-write_slot;
  published-close = λ s h. refl;
  published-cancel = λ s h. refl;
}

-- ===== src/Log.antt =====
-- molten_log.c: the spans of a request, the buffer that they are encoded into, and the sinks.
-- A span is any type: what the log does with it is to keep it and to have it encoded.
pub mod Buffer
pub mod Spans
pub mod Flush
pub mod Lifecycle
pub mod File
pub mod Rotation
pub mod Written
pub mod Short
pub mod Dirs
use molten.Common.{
  ℕ, zero, suc, ◌+◌, ◌-◌, ◌*◌, ◌/◌, ◌%◌, ◌^◌, Bool, true, false, Option, none, some, List, [], ◌∷◌,
  ◌++◌, Bytes, codes, ltb, leb, ◌==◌, if◌then◌else◌, length, take, drop, replicate, Result, ok,
  fault, ◌>>=◌,
}

-- `ALLOC_LOG_SIZE`, `SINK_LOG`, `SINK_STD`, `SINK_HTTP`, `SINK_SYSLOG`, `SPANS_WRAP`, `SPANS_BREAK`
abbrev pub alloc_log_size : ℕ
alloc_log_size = 1024

abbrev pub sink_log : ℕ
sink_log = 1

abbrev pub sink_std : ℕ
sink_std = 2

abbrev pub sink_http : ℕ
sink_http = 4

abbrev pub sink_syslog : ℕ
sink_syslog = 8

abbrev pub spans_wrap : ℕ
spans_wrap = 1

abbrev pub spans_break : ℕ
spans_break = 2

-- The number of spans that one request keeps.
abbrev pub max_spans : ℕ
max_spans = 300

-- `mo_chain_log_t`: the fields that the functions below use. `buf` has `total_size` bytes; `spans` is
-- `none` for NULL.
pub record ChainLog (S : Type 0) : Type 0 where
  pub sink_type : ℕ
  pub output_type : ℕ
  pub total_size : ℕ
  pub alloc_size : ℕ
  pub buf : Bytes
  pub spans : Option (List S)

-- `strncpy(buf + at, s, strlen(s))`; a place outside the buffer is a fault.
unfoldable pub write_at : Bytes → ℕ → Bytes → Result Bytes
write_at buf at s =
    if ltb (length buf) (at + length s)
    then fault
    else ok (take at buf ++ s ++ drop (at + length s) buf)

-- The size that `mo_chain_log_add` asks for.
unfoldable pub realloc_size : ℕ → ℕ → ℕ
realloc_size alloc size = alloc + (size / alloc_log_size + 1) * alloc_log_size

-- `perealloc` keeps the bytes; those added are not defined by C, and are 0 here. Only the HTTP sink may read
-- them, which takes the buffer as a text and not by its size.
unfoldable pub realloc : Bytes → ℕ → Bytes
realloc buf n = take n buf ++ replicate (n - length buf) 0

-- The line break, for the standard output and for a file only.
unfoldable pub line_break : ℕ → Bytes → ℕ → Result (Bytes × ℕ)
line_break sink_type buf end =
    if leb sink_type sink_std
    then (do buf' ← write_at buf end (codes "\n"); ok (buf', end + 1))
    else ok (buf, end)

module _ {S : Type 0} where
  -- The buffer and the types that `mo_chain_log_ctor` sets. The two types are cut to `uint8_t`.
  unfoldable pub ctor : ℕ → ℕ → ChainLog S
  ctor sink output = record {
    sink_type = sink % 2 ^ 8;
    output_type = output % 2 ^ 8;
    total_size = alloc_log_size;
    alloc_size = 0;
    buf = replicate alloc_log_size 0;
    spans = none;
  }

  -- `mo_chain_log_init`
  unfoldable pub init : ChainLog S → ChainLog S
  init log = record log { buf = replicate log.total_size 0; alloc_size = 0; spans = some [] }

  -- `mo_chain_add_span`, on the spans kept.
  unfoldable pub keep_span : List S → S → List S
  keep_span spans span = if ltb (length spans) max_spans then spans ++ (span ∷ []) else spans

  -- `mo_chain_add_span`: without an array of spans the span is given up.
  unfoldable pub add_span : ChainLog S → S → ChainLog S
  add_span log span = elim log.spans [
    | none ↦ log
    | some kept ↦ record log { spans = some (keep_span kept span) }
  ]

  -- The growing of the buffer. A size that does not fit an `int` makes the allocation fail.
  unfoldable pub reserve : ChainLog S → ℕ → Result (ChainLog S)
  reserve log size =
      let n = realloc_size log.alloc_size size in
      if leb (log.total_size + 1) (log.alloc_size + size)
      then (if ltb n (2 ^ 31)
          then ok (record log { buf = realloc log.buf n; total_size = n })
          else fault)
      else ok log

  -- The copying behind what is there, and the line break.
  unfoldable pub append : ChainLog S → Bytes → Result (ChainLog S)
  append log s = do
    copied ← write_at log.buf log.alloc_size s
    (buf', end) ← line_break log.sink_type copied (log.alloc_size + length s)
    ok (record log { buf = buf'; alloc_size = end })

  -- `mo_chain_log_add`
  unfoldable pub add : ChainLog S → Bytes → Result (ChainLog S)
  add log s = do log' ← reserve log (length s); append log' s

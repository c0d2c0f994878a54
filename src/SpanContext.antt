-- ===== src/SpanContext.antt =====
-- The span context stack of molten_span.c: which span is open, and which one encloses it. The build
-- option `--enable-level-id` (USE_LEVEL_ID) chooses how ids are made; `Level` and `Random` are the
-- two choices, and a client takes either as a `SpanMode` with its laws.
pub mod Defs
pub mod Level
pub mod Random
pub use Defs.*

-- ===== src/Span.antt =====
-- The spans that molten_span.c builds: what the formats share, and the spans of a frame in any format.
pub mod Zipkin
pub mod OpenTracing
pub mod SkyWalking
pub mod SkyLinks
pub mod SkyNotes
pub mod Builder
pub mod Contract
pub mod Links
use molten.Common.{ℕ, ◌+◌, ◌-◌, ◌%◌, ◌^◌, Bytes, ℤ, to_int64}

-- The fields of `mo_chain_t` that a span is built from: the name of the service, the address in its
-- header `pch`, and the id of the trace.
pub record ChainNames : Type 0 where
  pub service_name : Bytes
  pub ip : Bytes
  pub port : ℤ
  pub trace_id : Bytes

-- The `an_type` of a span, `AN_SERVER` or `AN_CLIENT`.
pub data AnType : Type 0 where
  an_server : AnType
  an_client : AnType

-- The `ba_type` of an annotation, the constants `BA_NORMAL` to `BA_ERROR`.
pub data BaType : Type 0 where
  ba_normal : BaType
  ba_sa : BaType
  ba_sa_host : BaType
  ba_sa_ip : BaType
  ba_sa_dsn : BaType
  ba_error : BaType
  ba_path : BaType

-- `finish_time - start_time`, a `uint64_t`, as the `long` that it is passed as.
unfoldable pub duration : ℕ → ℕ → ℤ
duration start_time finish_time = to_int64 (finish_time + 2 ^ 64 - start_time % 2 ^ 64)

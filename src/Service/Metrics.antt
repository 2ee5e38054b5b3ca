-- ===== src/Service/Metrics.antt =====
-- The counters of src/tasks/metrics.rs, as the sequence of the calls that change them.
use fpd.Base.{ℕ, suc, String, List, [], ◌∷◌, string_eq}

-- protocol_version, provider_type and data_source_name
pub record Labels : Type 0 where
  pub protocol_version : ℕ
  pub provider_type : String
  pub data_source_name : String

-- `inc` on QUERIES_TOTAL; `inc` and `dec` on CONCURRENT_QUERIES; a duration in
-- QUERIES_DURATION_SECONDS.
pub data Update : Type 0 where
  query_counted query_started query_ended duration_observed : Labels → Update

abbrev pub Log : Type 0
Log = List Update

-- What the gauge CONCURRENT_QUERIES gains (`.0`) and loses (`.1`) by the updates, over all labels.
abbrev pub gauge : Log → ℕ × ℕ
gauge [] = (0, 0)
gauge (query_started l ∷ log) = let (gained, lost) = gauge log in (suc gained, lost)
gauge (query_ended l ∷ log) = let (gained, lost) = gauge log in (gained, suc lost)
gauge (_ ∷ log) = gauge log

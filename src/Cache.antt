-- ===== src/Cache.antt =====
-- common/HistogramCache.h and .cpp: the specifications that were loaded, by revision and by the
-- digest of their text. Two maps are association lists that keep the first entry of a key.
-- The network (boost::asio), the temporary files and MD5 are the parameter `Network`.
pub mod Response
pub mod Load
pub mod Revisions
pub mod Tables
pub mod Invariant
pub mod Client
pub mod Faults
use mozilla_telemetry.Prelude.{
  ℕ, ◌≡◌, refl, Option, none, some, ◌⊎◌, inl, inr, List, [], ◌∷◌, ◌++◌, Bytes, codes, bytes_eq,
  ◌==◌, if◌then◌else◌,
}
use mozilla_telemetry.Outcome.{Outcome}
use mozilla_telemetry.Metric.{
  Counter, new_metric, count, bump, reset, Message, clear_fields, construct_field, exact, Reports,
}
use mozilla_telemetry.Specification.{HistogramSpecification}

-- `HistogramCache::Metrics`
pub record Metrics : Type 0 where
  pub connection_errors : Counter
  pub http_errors : Counter
  pub invalid_histograms : Counter
  pub invalid_revisions : Counter
  pub cache_hits : Counter
  pub cache_misses : Counter

abbrev pub new_metrics : Metrics
new_metrics = record {
  connection_errors = new_metric (codes "Connection Errors") count;
  http_errors = new_metric (codes "HTTP Errors") count;
  invalid_histograms = new_metric (codes "Invalid Histograms") count;
  invalid_revisions = new_metric (codes "Invalid Revisions") count;
  cache_hits = new_metric (codes "Cache Hits") count;
  cache_misses = new_metric (codes "Cache Misses") count;
}

-- A map to shared pointers, `none` for a null pointer.
abbrev pub Table : Type 0
Table = List (Bytes × Option HistogramSpecification)

unfoldable pub find_entry : Bytes → Table → Option (Option HistogramSpecification)
find_entry k [] = none
find_entry k ((j, h) ∷ es) = if bytes_eq j k then some h else find_entry k es

unfoldable pub insert_entry : Bytes → Option HistogramSpecification → Table → Table
insert_entry k h es = elim (find_entry k es) [ none ↦ (k, h) ∷ es | some _ ↦ es ]

pub record HistogramCache : Type 0 where
  pub histogram_server : Bytes
  pub histogram_server_port : Bytes
  pub cache : Table
  pub revisions : Table
  pub metrics : Metrics

-- The text before the first colon, and the text behind it, if there is one.
unfoldable pub split_colon : Bytes → Bytes × Option Bytes
split_colon [] = ([], none)
split_colon (c ∷ cs) =
    let rest = split_colon cs in if c == b':' then ([], some cs) else (c ∷ rest.0, rest.1)

-- The constructor
unfoldable pub new_cache : Bytes → HistogramCache
unfolding split_colon
new_cache server = record {
  histogram_server = (split_colon server).0;
  histogram_server_port = elim (split_colon server).1 [ none ↦ codes "http" | some port ↦ port ];
  cache = [];
  revisions = [];
  metrics = new_metrics;
}

-- What a server answers: what is buffered when the status line is complete, what the wait for the
-- blank line adds or throws, what follows up to the end, and the error, if that was not `eof`.
pub record Answer : Type 0 where
  pub buffered : Bytes
  pub headers : Outcome Bytes
  pub content : Bytes
  pub failure : Option Bytes

-- `open_file` is of a name in the directory that `temp_directory_path` gives: the exception of this call,
-- or the text of the file, if it can be opened.
pub record Network (W : Type 0) : Type 0 where
  pub open_file : W → Bytes → Bytes ⊎ Option Bytes
  pub write_file : W → Bytes → Bytes → W
  pub exchange : W → Bytes → Bytes → Bytes → W × Outcome Answer
  pub md5 : Bytes → Bytes

-- The three ends of `open_file`
pub open_file_cases :
    (o : Bytes ⊎ Option Bytes)
    → ((what : Bytes) × (o ≡ inl what))
      ⊎ ((o ≡ inr none) ⊎ ((text : Bytes) × (o ≡ inr (some text))))
open_file_cases (inl what) = inl (what, refl)
open_file_cases (inr none) = inr (inl refl)
open_file_cases (inr (some text)) = inr (inr (text, refl))

-- `GetMetrics`
unfoldable pub get_metrics : HistogramCache → Message → HistogramCache × Message
unfolding construct_field
get_metrics h m =
    let m₁ = construct_field (clear_fields m) (exact h.metrics.connection_errors) in
    let m₂ = construct_field m₁ (exact h.metrics.http_errors) in
    let m₃ = construct_field m₂ (exact h.metrics.invalid_histograms) in
    let m₄ = construct_field m₃ (exact h.metrics.invalid_revisions) in
    let m₅ = construct_field m₄ (exact h.metrics.cache_hits) in
    let m₆ = construct_field m₅ (exact h.metrics.cache_misses) in
    (
      record h {
        metrics = record {
          connection_errors = reset h.metrics.connection_errors;
          http_errors = reset h.metrics.http_errors;
          invalid_histograms = reset h.metrics.invalid_histograms;
          invalid_revisions = reset h.metrics.invalid_revisions;
          cache_hits = reset h.metrics.cache_hits;
          cache_misses = reset h.metrics.cache_misses;
        };
      },
      m₆,
    )

abbrev pub counters : Metrics → List Counter
counters m =
    m.connection_errors ∷ m.http_errors ∷ m.invalid_histograms ∷ m.invalid_revisions ∷ m.cache_hits
    ∷ m.cache_misses ∷ []

-- `GetMetrics` of a cache reports its six counters, whatever the message held, and clears them.
pub get_metrics-Reports_cache :
    (h : HistogramCache) (m : Message)
    → Reports (counters h.metrics) (counters (get_metrics h m).0.metrics) (get_metrics h m).1
unfolding get_metrics construct_field
get_metrics-Reports_cache h m = record { reported = refl; cleared = refl }

-- ===== src/Cache/Load.antt =====
-- common/HistogramCache.cpp: `LoadHistogram` and `FindHistogram`. The object comes with the world
-- that the network and the files are in.
use mozilla_telemetry.Prelude.{
  not, Option, none, some, inl, inr, [], ◌∷◌, ◌++◌, take, Bytes, codes, bytes_eq, ◌==◌,
  if◌then◌else◌,
}
use mozilla_telemetry.Prelude.Int.{ℤ}
use mozilla_telemetry.Outcome.{Outcome, ok, throw, fault}
use mozilla_telemetry.Exec.{Exec}
use mozilla_telemetry.Metric.{bump}
use mozilla_telemetry.Json.{Rapidjson}
use mozilla_telemetry.Specification.{HistogramSpecification, new_specification}
use mozilla_telemetry.Schema.{read_chars}
use mozilla_telemetry.Cache.{find_entry, insert_entry, HistogramCache, Answer, Network}
use mozilla_telemetry.Cache.Response.{Status, read_status, skip_headers}

-- `std::replace(tmpName.begin(), tmpName.end(), '/', '-')`
unfoldable pub dashed : Bytes → Bytes
dashed [] = []
dashed (c ∷ cs) = (if c == b'/' then b'-' else c) ∷ dashed cs

unfoldable pub tmp_name : Bytes → Bytes
unfolding dashed
tmp_name key = dashed key ++ codes ".json"

abbrev crlf : Bytes
crlf = 13 ∷ 10 ∷ []

-- The request that is sent
unfoldable pub request_text : HistogramCache → Bytes → Bytes
request_text h key =
    codes "GET /histogram_buckets?revision="
    ++ key
    ++ codes " HTTP/1.0"
    ++ crlf
    ++ codes "Host: "
    ++ h.histogram_server
    ++ codes ":"
    ++ h.histogram_server_port
    ++ crlf
    ++ codes "Accept: */*"
    ++ crlf
    ++ codes "Connection: close"
    ++ crlf
    ++ crlf

abbrev pub count_http_error : HistogramCache → HistogramCache
count_http_error h = record h {
  metrics = record h.metrics { http_errors = bump h.metrics.http_errors };
}

abbrev pub count_connection_error : HistogramCache → HistogramCache
count_connection_error h = record h {
  metrics = record h.metrics { connection_errors = bump h.metrics.connection_errors };
}

abbrev pub count_invalid_revision : HistogramCache → HistogramCache
count_invalid_revision h = record h {
  metrics = record h.metrics { invalid_revisions = bump h.metrics.invalid_revisions };
}

abbrev pub count_hit : HistogramCache → HistogramCache
count_hit h = record h { metrics = record h.metrics { cache_hits = bump h.metrics.cache_hits } }

abbrev pub count_miss : HistogramCache → HistogramCache
count_miss h = record h {
  metrics = record h.metrics { cache_misses = bump h.metrics.cache_misses };
}

-- `mRevisions.insert(make_pair(key, s))`
abbrev pub add_revision : Bytes → Option HistogramSpecification → HistogramCache → HistogramCache
add_revision key s h = record h { revisions = insert_entry key s h.revisions }

abbrev pub add_digest : Bytes → Option HistogramSpecification → HistogramCache → HistogramCache
add_digest key s h = record h { cache = insert_entry key s h.cache }

module _ (J : Rapidjson) (lexical_cast : Bytes → Option ℤ) {W : Type 0} (N : Network W) where
  open N use {open_file, write_file, exchange, md5}

  abbrev pub Session : Type 0
  Session = HistogramCache × W

  -- From the digest on: one specification for equal texts
  unfoldable pub keep : Bytes → Bytes → Exec Session (Option HistogramSpecification)
  keep key json (h, w) = elim (find_entry (md5 json) h.cache) [
    | some s ↦ (ok s, (add_revision key s h, w))
    | none ↦ elim (new_specification J lexical_cast json) [
      | ok spec ↦
          (ok (some spec), (add_revision key (some spec) (add_digest (md5 json) (some spec) h), w))
      | throw what ↦ (throw what, (h, w))
      | fault kind ↦ (fault kind, (h, w))
    ]
  ]

  -- The body of the response, written to the temporary file, and its specification
  unfoldable pub receive : Bytes → Bytes → Answer → Exec Session (Option HistogramSpecification)
  unfolding keep
  receive key body a (h, w) = elim a.failure [
    | some what ↦ (throw what, (h, w))
    | none ↦ keep key (body ++ a.content) (h, write_file w (tmp_name key) (body ++ a.content))
  ]

  -- The headers and the test of the status code
  unfoldable pub read_response :
      Bytes → Status → Answer → Exec Session (Option HistogramSpecification)
  unfolding receive skip_headers
  read_response key status a (h, w) = elim a.headers [
    | throw what ↦ (throw what, (h, w))
    | fault kind ↦ (fault kind, (h, w))
    | ok more ↦
        let buffer = status.rest ++ more in
        if not (status.status_code == 200)
        then (ok none, (add_revision key none (count_http_error h), w))
        else receive key (if status.eof then buffer else skip_headers [] buffer) a (h, w)
  ]

  -- The status line
  unfoldable pub answer : Bytes → Answer → Exec Session (Option HistogramSpecification)
  unfolding read_response read_status
  answer key a (h, w) = elim (read_status a.buffered) [
    | none ↦ (ok none, (count_http_error h, w))
    | some status ↦
        if not (bytes_eq (take 5 status.http_version) (codes "HTTP/"))
        then (ok none, (count_http_error h, w))
        else read_response key status a (h, w)
  ]

  -- `LoadHistogram`
  unfoldable pub load_histogram : Bytes → Exec Session (Option HistogramSpecification)
  unfolding answer keep read_chars
  load_histogram key (h, w) = elim (open_file w (tmp_name key)) [
    | inl what ↦ (throw what, (h, w))
    | inr (some text) ↦ keep key (read_chars text) (h, w)
    | inr none ↦
        (let sent = exchange w h.histogram_server h.histogram_server_port (request_text h key) in
          elim sent.1 [
            | ok a ↦ answer key a (h, sent.0)
            | throw what ↦ (throw what, (h, sent.0))
            | fault kind ↦ (fault kind, (h, sent.0))
          ])
  ]

  -- `catch (const exception& e)` around the call of `LoadHistogram`
  abbrev pub caught :
      Outcome (Option HistogramSpecification) × Session
      → Outcome (Option HistogramSpecification) × Session
  caught (ok s, hw) = (ok s, hw)
  caught (throw what, (h, w)) = (ok none, (count_connection_error h, w))
  caught (fault kind, hw) = (fault kind, hw)

  -- `FindHistogram`
  unfoldable pub find_histogram : Bytes → Exec Session (Option HistogramSpecification)
  unfolding load_histogram
  find_histogram key (h, w) =
      if not (bytes_eq (take 4 key) (codes "http"))
      then (ok none, (count_invalid_revision h, w))
      else elim (find_entry key h.revisions) [
        | some s ↦ (ok s, (count_hit h, w))
        | none ↦ caught (load_histogram key (count_miss h, w))
      ]

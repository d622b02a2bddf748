-- ===== src/Convert/Process/Log.antt =====
-- convert.cpp: `ProcessFile` on a log of whole records, against the records that the log stands for.
pub mod Steps
pub mod Refines
use mozilla_telemetry.Prelude.{
  ℕ, zero, suc, ◌+◌, ◌^◌, ◌<◌, ◌≤◌, ◌≡◌, ◌≢◌, refl, sym, ap, ◌∙◌, Bool, true, false, Bool-cases,
  inl, inr, List, [], ◌∷◌, ◌++◌, append_assoc, append-nil, arith, length, length-append, All, Bytes,
  c_str, if◌then◌else◌,
}
use mozilla_telemetry.Constants.{record_separator}
use mozilla_telemetry.Outcome.{Outcome, ok, throw, fault, ◌>>=◌, >>=-eq-ok}
use mozilla_telemetry.Exec.{Exec}
use mozilla_telemetry.Json.{Rapidjson, Value, document}
use mozilla_telemetry.Stream.{Stream, at, at_end, to_le}
use mozilla_telemetry.Record.{TelemetryRecord}
use mozilla_telemetry.Record.Frame.{frame, IsFrame, skip}
use mozilla_telemetry.Record.Bounds.{IsSound}
use mozilla_telemetry.Record.Inflate.{Zlib}
use mozilla_telemetry.Record.Read.{get_path, get_document, read_record}
use mozilla_telemetry.Record.Read.Frames.{is_compressed, read_record-frame}
use mozilla_telemetry.Record.Read.Safety.{read_record-safe}
use mozilla_telemetry.Record.Read.End.{read_record_end}
use mozilla_telemetry.Converter.Document.{FindHistogram, Converted, convert_histogram_data}
use mozilla_telemetry.Schema.{TelemetrySchema, Boost}
use mozilla_telemetry.Schema.DimensionPath.{get_dimension_path}
use mozilla_telemetry.Writer.{collector}
use mozilla_telemetry.Convert.Process.{
  Metrics, File, Run, take_uuid, line, with_converted, finish, deliver, process_one, read_next,
  process_loop, process_stream, process_file,
}

-- A record of a log, with the bytes before it that are none.
pub record Entry (D : Type 0) : Type 0 where
  pub garbage : Bytes
  pub path : Bytes
  pub content : Bytes
  pub timestamp : ℕ
  pub doc : Value D

module _ (J : Rapidjson) where
  open J use {Double, parse}

  -- The log of these records, and bytes at its end that are none.
  abbrev pub log_of : List (Entry Double) → Bytes → Bytes
  log_of [] tail = tail
  log_of (e ∷ es) tail = e.garbage ++ frame e.path e.content e.timestamp (log_of es tail)

  -- The record fits, nothing before it looks like one, and its data is a document as it is.
  pub record IsEntry (e : Entry Double) : Type 0 where
    pub clean : All (λ c. c ≢ record_separator) e.garbage
    pub fits : IsFrame e.path e.content e.timestamp
    pub plain : is_compressed e.content ≡ false
    pub parsed : parse (c_str e.content) ≡ document e.doc

  -- The bytes that are no record.
  abbrev pub garbage_of : List (Entry Double) → ℕ
  garbage_of [] = 0
  garbage_of (e ∷ es) = length e.garbage + garbage_of es

  pub length-log_of :
      (es : List (Entry Double)) (tail : Bytes) → length es ≤ length (log_of es tail)
  length-log_of [] tail = omega arith
  length-log_of (e ∷ es) tail =
      let rest = log_of es tail in
      let body = e.path ++ (e.content ++ rest) in
      let timed = to_le 8 e.timestamp ++ body in
      let sized = to_le 4 (length e.content) ++ timed in
      omega (
        arith,
        length-log_of es tail,
        length-append e.garbage (frame e.path e.content e.timestamp rest),
        length-append (to_le 2 (length e.path)) sized,
        length-append (to_le 4 (length e.content)) timed,
        length-append (to_le 8 e.timestamp) body,
        length-append e.path (e.content ++ rest),
        length-append e.content rest,
      )

  module _ (B : Boost Double) {C : Type 0} (find_histogram : FindHistogram C)
      (write_json : Value Double → Bytes) where
    open B use {FsPath}

    -- What a record comes to: the cache, the schema, and what the writer is given.
    abbrev pub Handled : Type 0
    Handled = C × TelemetrySchema Double × List (FsPath × Bytes)

    abbrev pub text_of : Bytes → Value Double → Bytes
    text_of path doc = take_uuid (c_str path) ++ (9 ∷ (write_json doc ++ (10 ∷ [])))

    abbrev pub place : Bytes → Converted C Double → TelemetrySchema Double → Outcome Handled
    place path c schema =
        let p = get_dimension_path J B c.doc schema in
        p.0 >>= λ folder. ok (c.cache, p.1, (folder, text_of path c.doc) ∷ [])

    -- The reference for one record
    abbrev pub handle : C → TelemetrySchema Double → Entry Double → Outcome Handled
    handle cache schema e = convert_histogram_data J find_histogram cache e.doc >>= λ c.
        if c.result then place e.path c schema else ok (c.cache, schema, [])

    -- The reference for the records of a log, one after the other
    abbrev pub handle_all : C → TelemetrySchema Double → List (Entry Double) → Outcome Handled
    handle_all cache schema [] = ok (cache, schema, [])
    handle_all cache schema (e ∷ es) =
        handle cache schema e >>= λ h. handle_all h.0 h.1 es >>= λ t. ok (t.0, t.1, h.2 ++ t.2)
